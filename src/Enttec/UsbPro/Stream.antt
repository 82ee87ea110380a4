-- ===== src/Enttec/UsbPro/Stream.antt =====
-- Receiving from a device that has sent certain bytes: the loops end, and FTDI_ReceiveData reads
-- back the packet that FTDI_SendData forms.
use dmx_enttec_node.Prelude.{
  ℕ, zero, suc, ◌+◌, ◌*◌, ◌≤◌, ◌<◌, ◌≡◌, ◌≢◌, refl, sym, ap, ◌∙◌, List, [], ◌∷◌, ◌++◌, false,
  length, take, drop, arith, take-append, drop-append, memcpy_front, take-append_le, append_assoc,
  ◌/◌, ◌%◌, length-overwrite, overwrite,
}
use dmx_enttec_node.Enttec.UsbPro.Driver.{Driver, IsStream, ft_ok}
use dmx_enttec_node.Enttec.UsbPro.Send.{dmx_start_code, dmx_end_code}
use dmx_enttec_node.Enttec.UsbPro.Framing.{packet}
use dmx_enttec_node.Enttec.UsbPro.Receive.{
  got, M, ◌>>=◌, first, seek_start, seek_label, read_byte, receive_data, read, receive_body,
  refuse_if, dmx_packet_size, buffer_size,
}

split_packet :
    (label : ℕ) (body rest : List ℕ)
    → label < 256
    → packet label body ++ rest
      ≡ dmx_start_code
        ∷ label
        ∷ (length body % 256)
        ∷ (length body / 256 % 256)
        ∷ (body ++ dmx_end_code ∷ rest)
split_packet label body rest h = ground (arith, append_assoc body (dmx_end_code ∷ []) rest)

module _ (v : Driver) (s : IsStream v) (h : ℕ) where
  open v use {Device}
  open s use {pending}

  -- With `ps` pending, `m` goes on with `a` and leaves `qs` pending.
  abbrev Yields : {A : Type 0} → M v A → List ℕ → A → List ℕ → Type 0
  Yields m ps a qs =
      (d : Device) → pending d ≡ ps → (d' : Device) × (m d ≡ got a d') × (pending d' ≡ qs)

  read-Yields :
      (n : ℕ) (ps qs : List ℕ) → length ps ≡ n → Yields (read v h n) (ps ++ qs) (ft_ok, ps) qs
  read-Yields n ps qs e d p = (
    (Driver.ft_read v h n d).2,
    λ i.
        got (s.read_ok h n d i, (s.read_takes h n d ∙ ap (take n) p ∙ take-append n ps qs e) i)
          (Driver.ft_read v h n d).2,
    s.read_leaves h n d ∙ ap (drop n) p ∙ drop-append n ps qs e,
  )

  bind-Yields :
      {A B : Type 0} (m : M v A) (f : A → M v B) {a : A} {b : B} {ps qs rs : List ℕ}
      → Yields m ps a qs
      → Yields (f a) qs b rs
      → Yields (◌>>=◌ v m f) ps b rs
  bind-Yields m f y z d p =
      let (d', e, q) = y d p in let (d'', e', r) = z d' q in (d'', rw (e, ◌>>=◌) e', r)

  read_byte-Yields : (b : ℕ) (ps : List ℕ) → Yields (read_byte v h) (b ∷ ps) b ps
  read_byte-Yields b ps =
      bind-Yields (read v h 1) (first v h) (read-Yields 1 (b ∷ []) ps refl) (λ d p. (d, refl, p))

  abbrev pub NoStart : List ℕ → Type 0
  NoStart [] = Unit {0}
  NoStart (x ∷ xs) = (x ≢ dmx_start_code) × NoStart xs

  seek_start-found :
      (fuel : ℕ) (ps : List ℕ)
      → 0 < fuel
      → Yields (seek_start v h fuel dmx_start_code) ps dmx_start_code ps
  unfolding seek_start
  seek_start-found zero ps h d p = elim h [ ]
  seek_start-found (suc fuel) ps h d p = (d, refl, p)

  seek_start-step :
      (fuel byte : ℕ) (d : Device)
      → byte ≢ dmx_start_code
      → seek_start v h (suc fuel) byte d ≡ ◌>>=◌ v (read_byte v h) (seek_start v h fuel) d
  unfolding seek_start
  seek_start-step fuel byte d ne = ground arith

  seek_start-Yields :
      (noise rest : List ℕ) (fuel byte : ℕ)
      → length noise + 1 < fuel
      → byte ≢ dmx_start_code
      → NoStart noise
      → Yields (seek_start v h fuel byte) (noise ++ dmx_start_code ∷ rest) dmx_start_code rest
  seek_start-Yields noise rest zero byte f ne q d p = absurd (omega arith)
  seek_start-Yields [] rest (suc fuel) byte f ne q d p = rw (seek_start-step fuel byte d ne) (
      bind-Yields (read_byte v h) (seek_start v h fuel) (read_byte-Yields _ rest)
        (seek_start-found fuel rest (omega arith)) d p)
  seek_start-Yields (x ∷ noise) rest (suc fuel) byte f ne q d p =
      rw (seek_start-step fuel byte d ne) (
        bind-Yields (read_byte v h) (seek_start v h fuel) (read_byte-Yields x _)
          (seek_start-Yields noise rest fuel x (omega arith) q.0 q.1) d p)

  seek_label-found :
      (fuel label : ℕ) (ps : List ℕ) → 0 < fuel → Yields (seek_label v h fuel label label) ps tt ps
  unfolding seek_label
  seek_label-found zero label ps h d p = elim h [ ]
  seek_label-found (suc fuel) label ps h d p = (d, ground arith, p)

  seek_label-step :
      (fuel label byte : ℕ) (d : Device)
      → byte ≢ label
      → seek_label v h (suc fuel) label byte d
        ≡ ◌>>=◌ v
            (◌>>=◌ v (seek_start v h (suc fuel) byte) (λ _. read_byte v h))
            (seek_label v h fuel label)
            d
  unfolding seek_label
  seek_label-step fuel label byte d ne = ground arith

  seek_label-Yields :
      (noise rest : List ℕ) (fuel label : ℕ)
      → length noise + 2 < fuel
      → label ≢ 0
      → NoStart noise
      → Yields (seek_label v h fuel label 0) (noise ++ dmx_start_code ∷ label ∷ rest) tt rest
  seek_label-Yields noise rest zero label f ne q d p = absurd (omega arith)
  seek_label-Yields noise rest (suc fuel) label f ne q d p =
      rw (seek_label-step fuel label 0 d (omega arith)) (
        bind-Yields (◌>>=◌ v (seek_start v h (suc fuel) 0) (λ _. read_byte v h))
          (seek_label v h fuel label)
          (bind-Yields (seek_start v h (suc fuel) 0) (λ _. read_byte v h)
            (seek_start-Yields noise (label ∷ rest) (suc fuel) 0 (omega arith) (omega arith) q)
            (read_byte-Yields label rest))
          (seek_label-found fuel label rest (omega arith)) d p)

  skip-Yields : (ps : List ℕ) → Yields (refuse_if v false) ps tt ps
  skip-Yields ps d p = (d, refl, p)

  receive_body-Yields :
      (garbage frame body rest : List ℕ) (expected len : ℕ)
      → len ≡ length body
      → len ≤ dmx_packet_size
      → expected ≤ length frame
      → expected ≤ length garbage
      → len ≤ length garbage
      → Yields
          (receive_body v h garbage frame expected len)
          (body ++ dmx_end_code ∷ rest)
          (take expected (body ++ drop (length body) garbage) ++ drop expected frame)
          rest
  unfolding receive_body
  receive_body-Yields garbage frame body rest expected len e le ef eg el d p =
      let (d1, e1, p1) = read-Yields len body (dmx_end_code ∷ rest) (sym e) d p in
      let (d2, e2, p2) = read_byte-Yields dmx_end_code rest d1 p1 in
      (
        d2,
        ground (
          arith,
          e1,
          e2,
          memcpy_front frame (overwrite garbage 0 body) expected,
          length-overwrite garbage body 0,
        ),
        p2,
      )

  -- Receiving the packet that is pending behind bytes with no start code among them gives its
  -- payload, and leaves what follows it.
  pub receive_data-packet :
      (fuel label expected : ℕ) (garbage frame noise body rest : List ℕ) (d : Device)
      → length noise + 2 < fuel
      → label ≢ 0
      → label < 256
      → NoStart noise
      → length body ≤ dmx_packet_size
      → length garbage ≡ buffer_size
      → expected ≤ length frame
      → expected ≤ length body
      → pending d ≡ noise ++ (packet label body ++ rest)
      → (d' : Device) × (receive_data v h fuel garbage label frame expected d
          ≡ got (take expected body ++ drop expected frame) d')
        × (pending d' ≡ rest)
  unfolding receive_data
  receive_data-packet fuel label expected garbage frame noise body rest d f nz lt q lb lg ef eb p =
      let lo = length body % 256 in
      let hi = length body / 256 % 256 in
      let tail = body ++ dmx_end_code ∷ rest in
      let (d1, e1, p1) =
        seek_label-Yields noise (lo ∷ hi ∷ tail) fuel label f nz q d
          (p ∙ ap (λ ys. noise ++ ys) (split_packet label body rest lt)) in
      let (d2, e2, p2) = read_byte-Yields lo (hi ∷ tail) d1 p1 in
      let (d3, e3, p3) = read-Yields 1 (hi ∷ []) tail refl d2 p2 in
      let (d4, e4, p4) =
        receive_body-Yields garbage frame body rest expected (lo + 256 * hi) (omega arith)
          (omega arith) ef (omega arith) (omega arith) d3 p3 in
      (
        d4,
        ground (arith, e1, e2, e3, e4, take-append_le expected body (drop (length body) garbage)),
        p4,
      )
