-- ===== src/Enttec/UsbPro/Total.antt =====
-- FTDI_ReceiveData on a device that has sent anything at all: its loops end, since every round of
-- them takes a byte or returns.
use dmx_enttec_node.Prelude.{
  ℕ, zero, suc, ◌≤◌, ◌<◌, ◌≡◌, refl, ap, List, [], ◌∷◌, Bool, true, false, not, ltb, ◌==◌,
  Bool-cases, inl, inr, length, take, drop, length-take, length-drop, overwrite, length-overwrite,
  memcpy, memcpy-some, slice, length-slice, arith,
}
use dmx_enttec_node.Enttec.UsbPro.Driver.{Driver, IsStream, ft_ok}
use dmx_enttec_node.Enttec.UsbPro.Send.{dmx_start_code, dmx_end_code}
use dmx_enttec_node.Enttec.UsbPro.Receive.{
  Read, got, no_response, fault, out_of_fuel, M, ◌>>=◌, ◌>>◌, first, seek_start, seek_label,
  read_byte, receive_data, receive_body, refuse_if, or_fault, dmx_packet_size, buffer_size,
}

-- It neither leaves an array nor uses up its fuel; what it goes on with meets a condition.
abbrev pub Ends : {D A : Type 0} → (A → D → Type 0) → Read D A → Type 0
Ends Q (got a d) = Q a d
Ends Q (no_response d) = Unit {0}
Ends Q fault = ⊥
Ends Q out_of_fuel = ⊥

module _ (v : Driver) (s : IsStream v) (h : ℕ) where
  open v use {Device}
  open s use {pending}

  -- The number of bytes that the device has sent and that have not been read
  abbrev pub left : Device → ℕ
  left d = length (pending d)

  next-Ends :
      {A B : Type 0} (Q : A → Device → Type 0) (R : B → Device → Type 0) (r : Read Device A)
      (f : A → M v B) (d : Device)
      → Ends Q r
      → ((a : A) (d' : Device) → Q a d' → Ends R (f a d'))
      → Ends R (◌>>=◌ v (λ _. r) f d)
  next-Ends Q R (got a d') f d q k = k a d' q
  next-Ends Q R (no_response d') f d q k = tt
  next-Ends Q R fault f d q k = q
  next-Ends Q R out_of_fuel f d q k = q

  bind-Ends :
      {A B : Type 0} (Q : A → Device → Type 0) (R : B → Device → Type 0) (m : M v A) (f : A → M v B)
      (d : Device)
      → Ends Q (m d)
      → ((a : A) (d' : Device) → Q a d' → Ends R (f a d'))
      → Ends R (◌>>=◌ v m f d)
  bind-Ends Q R m f d q k = next-Ends Q R (m d) f d q k

  first-Ends :
      (bound res : ℕ) (bytes ps : List ℕ) (d : Device)
      → bytes ≡ take 1 ps
      → pending d ≡ drop 1 ps
      → length ps ≤ bound
      → Ends (λ b d'. left d' < bound) (first v h (res, bytes) d)
  first-Ends bound res [] ps d e q le = tt
  first-Ends bound res (b ∷ bytes) ps d e q le =
      omega (arith, ap length e, ap length q, length-take 1 ps, length-drop 1 ps)

  read_byte-Within :
      (bound : ℕ) (d : Device) → left d ≤ bound → Ends (λ b d'. left d' < bound) (read_byte v h d)
  read_byte-Within bound d within =
      first-Ends bound (Driver.ft_read v h 1 d).0 _ (pending d) _ (s.read_takes h 1 d)
        (s.read_leaves h 1 d) within

  read_byte-Ends : (d : Device) → Ends (λ b d'. left d' < left d) (read_byte v h d)
  read_byte-Ends d = read_byte-Within (left d) d (omega arith)

  seek_start-Ends :
      (fuel byte bound : ℕ) (d : Device)
      → left d < fuel
      → left d ≤ bound
      → Ends (λ b d'. left d' ≤ bound) (seek_start v h fuel byte d)
  unfolding seek_start
  seek_start-Ends zero byte bound d enough within = elim enough [ ]
  seek_start-Ends (suc fuel) byte bound d enough within =
      elim (Bool-cases (byte == dmx_start_code)) [
        | inl found ↦ rw (found, seek_start) within
        | inr other ↦
            rw (other, seek_start)
              (bind-Ends (λ b d'. left d' < left d) (λ b d'. left d' ≤ bound) (read_byte v h)
                (seek_start v h fuel) d (read_byte-Ends d)
                (λ b d' less. seek_start-Ends fuel b bound d' (omega arith) (omega arith)))
      ]

  seek_label-Ends :
      (fuel label byte : ℕ) (d : Device)
      → left d < fuel
      → Ends (λ found d'. Unit {0}) (seek_label v h fuel label byte d)
  unfolding seek_label
  seek_label-Ends zero label byte d enough = elim enough [ ]
  seek_label-Ends (suc fuel) label byte d enough = elim (Bool-cases (byte == label)) [
    | inl found ↦ rw (found, seek_label) tt
    | inr other ↦
        rw (other, seek_label)
          (bind-Ends (λ b d'. left d' < left d) (λ b d'. Unit {0})
            (◌>>=◌ v (seek_start v h (suc fuel) byte) (λ b. read_byte v h))
            (seek_label v h fuel label) d
            (bind-Ends (λ b d'. left d' ≤ left d) (λ b d'. left d' < left d)
              (seek_start v h (suc fuel) byte) (λ b. read_byte v h) d
              (seek_start-Ends (suc fuel) byte (left d) d enough (omega arith))
              (λ b d' le. read_byte-Within (left d) d' le))
            (λ b d' less. seek_label-Ends fuel label b d' (omega arith)))
  ]

  -- What is known where the test has let the function go on
  refuse_if-Ends : (test : Bool) (d : Device) → Ends (λ done d'. test ≡ false) (refuse_if v test d)
  refuse_if-Ends true d = tt
  refuse_if-Ends false d = refl

  memcpy-Ends :
      (frame buffer : List ℕ) (expected : ℕ) (d : Device)
      → expected ≤ length frame
      → expected ≤ length buffer
      → Ends
          (λ received d'. length received ≡ length frame)
          (or_fault v (memcpy frame 0 buffer 0 expected) d)
  memcpy-Ends frame buffer expected d room there =
      rw (memcpy-some frame buffer 0 0 expected (omega arith) (omega arith)) (
        length-overwrite frame (slice buffer 0 expected) 0
          (omega (arith, length-slice buffer 0 expected)))

  -- From the end code on
  end_code-Ends :
      (frame buffer : List ℕ) (expected : ℕ) (d : Device)
      → expected ≤ length frame
      → expected ≤ length buffer
      → Ends
          (λ received d'. length received ≡ length frame)
          (◌>>=◌ v
            (read_byte v h)
            (λ end.
              ◌>>◌ v
                (refuse_if v (not (end == dmx_end_code)))
                (or_fault v (memcpy frame 0 buffer 0 expected)))
            d)
  end_code-Ends frame buffer expected d room there =
      bind-Ends _ _ (read_byte v h) _ d (read_byte-Ends d) (λ end d1 less.
        bind-Ends _ _ (refuse_if v (not (end == dmx_end_code))) _ d1 (refuse_if-Ends _ d1)
          (λ done d2 found. memcpy-Ends frame buffer expected d2 room there))

  receive_body-Ends :
      (garbage frame : List ℕ) (expected len : ℕ) (d : Device)
      → length garbage ≡ buffer_size
      → expected ≤ buffer_size
      → expected ≤ length frame
      → Ends
          (λ received d'. length received ≡ length frame)
          (receive_body v h garbage frame expected len d)
  unfolding receive_body
  receive_body-Ends garbage frame expected len d size fits room =
      bind-Ends (λ done d'. ltb dmx_packet_size len ≡ false) _
        (refuse_if v (ltb dmx_packet_size len)) _ d (refuse_if-Ends (ltb dmx_packet_size len) d)
        (λ done d1 short.
          bind-Ends (λ done d'. not (length (Driver.ft_read v h len d1).1 == len) ≡ false) _
            (refuse_if v (not (length (Driver.ft_read v h len d1).1 == len))) _
            (Driver.ft_read v h len d1).2 (refuse_if-Ends _ _)
            (λ done d2 whole.
              end_code-Ends frame (overwrite garbage 0 (Driver.ft_read v h len d1).1) expected d2
                room (overwritten (Driver.ft_read v h len d1).1 short whole)))
    where
      overwritten :
          (body : List ℕ)
          → ltb dmx_packet_size len ≡ false
          → not (length body == len) ≡ false
          → expected ≤ length (overwrite garbage 0 body)
      overwritten body short whole = ground (arith, length-overwrite garbage body 0)

  -- Whatever the device has sent, FTDI_ReceiveData returns if its fuel is above the number of the
  -- bytes that are pending; it stays inside its arrays if both hold as many bytes as are expected,
  -- and gives an array of the same size.
  pub receive_data-Ends :
      (fuel label : ℕ) (garbage frame : List ℕ) (expected : ℕ) (d : Device)
      → left d < fuel
      → length garbage ≡ buffer_size
      → expected ≤ buffer_size
      → expected ≤ length frame
      → Ends
          (λ received d'. length received ≡ length frame)
          (receive_data v h fuel garbage label frame expected d)
  unfolding receive_data
  receive_data-Ends fuel label garbage frame expected d enough size fits room =
      bind-Ends _ _ (seek_label v h fuel label 0) _ d (seek_label-Ends fuel label 0 d enough)
        (λ found d1 any. bind-Ends _ _ (read_byte v h) _ d1 (read_byte-Ends d1) (λ lo d2 less.
          bind-Ends _ _ (refuse_if v (not ((Driver.ft_read v h 1 d2).0 == ft_ok))) _
            (Driver.ft_read v h 1 d2).2 (refuse_if-Ends _ _)
            (λ done d3 reads. receive_body-Ends garbage frame expected _ d3 size fits room)))
