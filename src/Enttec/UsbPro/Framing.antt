-- ===== src/Enttec/UsbPro/Framing.antt =====
-- What FTDI_SendData puts on the wire: the packet whole, or a prefix of it.
use dmx_enttec_node.Prelude.{
  ℕ, ◌≡◌, sym, ap, ◌∙◌, inl, inr, List, [], ◌∷◌, ◌++◌, length, take, drop, take-all,
  take-append-drop, append_assoc, pos, is_negative, true, false, ==_iff, ◌==◌, Bool-cases, arith,
}
use dmx_enttec_node.Enttec.UsbPro.Driver.{Driver, IsWire, ft_ok}
use dmx_enttec_node.Enttec.UsbPro.Send.{send_data, packet_header, dmx_end_code}

-- The packet of the PRO's protocol
abbrev pub packet : ℕ → List ℕ → List ℕ
packet label bytes = packet_header label (length bytes) ++ (bytes ++ dmx_end_code ∷ [])

module _ (v : Driver) where
  open v use {Device}

  -- No result of FTDI_SendData is negative, whatever the driver does.
  pub send_data-not_negative :
      (h label : ℕ) (bytes : List ℕ) (d : Device)
      → is_negative (send_data v h label bytes d).0 ≡ false
  unfolding send_data
  send_data-not_negative h label bytes d = ground arith

cut : (n : ℕ) (xs ys : List ℕ) → take n xs ++ (drop n xs ++ ys) ≡ xs ++ ys
cut n xs ys =
    sym (append_assoc (take n xs) (drop n xs) ys) ∙ ap (λ zs. zs ++ ys) (take-append-drop n xs)

==→≡ : (a b : ℕ) → (a == b) ≡ true → a ≡ b
==→≡ a b = (==_iff a b).0

module _ (v : Driver) (w : IsWire v) where
  open v use {Device}
  open w use {sent}

  -- A write that takes all its bytes appends them.
  write_all :
      (h : ℕ) (bs : List ℕ) (d : Device)
      → (Driver.ft_write v h bs d).1 ≡ length bs
      → sent (Driver.ft_write v h bs d).2 ≡ sent d ++ bs
  write_all h bs d e = w.write_sends h bs d ∙ ap (λ ys. sent d ++ ys) (take-all _ bs (sym e))

  -- If FTDI_SendData gives 1, the wire has carried the whole packet.
  pub send_data-packet :
      (h label : ℕ) (bytes : List ℕ) (d : Device)
      → (send_data v h label bytes d).0 ≡ pos 1
      → sent (send_data v h label bytes d).1 ≡ sent d ++ packet label bytes
  unfolding send_data
  send_data-packet h label bytes d e =
      let hdr = packet_header label (length bytes) in
      let d1 = (Driver.ft_write v h hdr d).2 in
      let d2 = (Driver.ft_write v h bytes d1).2 in
      ground (
        arith,
        write_all h hdr d,
        write_all h bytes d1,
        write_all h (dmx_end_code ∷ []) d2,
        append_assoc (sent d) hdr bytes,
        append_assoc (sent d) (hdr ++ bytes) (dmx_end_code ∷ []),
      )

  appended :
      (xs ys : List ℕ) (d d' d'' : Device)
      → sent d' ≡ sent d ++ xs
      → sent d'' ≡ sent d' ++ ys
      → sent d'' ≡ sent d ++ (xs ++ ys)
  appended xs ys d d' d'' e f = f ∙ ap (λ zs. zs ++ ys) e ∙ append_assoc (sent d) xs ys

  -- Some prefix of the packet `p`, and nothing else, went out between `d` and `d'`.
  abbrev pub SentPrefix : List ℕ → Device → Device → Type 0
  SentPrefix p d d' =
      (done : List ℕ) × (rest : List ℕ) × (done ++ rest ≡ p) × (sent d' ≡ sent d ++ done)

  -- Whatever the driver takes, the wire carries a prefix of the packet.
  pub send_data-SentPrefix :
      (h label : ℕ) (bytes : List ℕ) (d : Device)
      → SentPrefix (packet label bytes) d (send_data v h label bytes d).1
  unfolding send_data
  send_data-SentPrefix h label bytes d =
      let hdr = packet_header label (length bytes) in
      let end : List ℕ = dmx_end_code ∷ [] in
      let (_, n1, d1) = Driver.ft_write v h hdr d in
      let (_, n2, d2) = Driver.ft_write v h bytes d1 in
      let (_, n3, d3) = Driver.ft_write v h end d2 in
      elim (Bool-cases (n1 == 4)) [
        | inr short ↦ rw short (
          take n1 hdr,
          drop n1 hdr ++ (bytes ++ end),
          cut n1 hdr (bytes ++ end),
          w.write_sends h hdr d,
        )
        | inl full ↦ elim (Bool-cases (n2 == length bytes)) [
          | inr short ↦
              rw (full, short)
                (
                  hdr ++ take n2 bytes,
                  drop n2 bytes ++ end,
                  append_assoc hdr (take n2 bytes) _ ∙ ap (λ ys. hdr ++ ys) (cut n2 bytes end),
                  appended hdr (take n2 bytes) d d1 d2 (write_all h hdr d (==→≡ n1 4 full))
                      (w.write_sends h bytes d1),
                )
          | inl full' ↦
              rw (full, full')
                (
                  (hdr ++ bytes) ++ take n3 end,
                  drop n3 end,
                  (append_assoc (hdr ++ bytes) (take n3 end) (drop n3 end)
                      ∙ ap (λ ys. (hdr ++ bytes) ++ ys) (take-append-drop n3 end)
                      ∙ append_assoc hdr bytes end),
                  ground (
                    arith,
                    appended (hdr ++ bytes) (take n3 end) d d2 d3
                        (appended hdr bytes d d1 d2 (write_all h hdr d (==→≡ n1 4 full))
                          (write_all h bytes d1 (==→≡ n2 _ full')))
                        (w.write_sends h end d2),
                  ),
                )
        ]
      ]

-- Every write takes all its bytes, with the status FT_OK.
pub record TakesAll (v : Driver) : Type 0 where
  pub takes : (h : ℕ) (bs : List ℕ) (d : Driver.Device v) → (Driver.ft_write v h bs d).1 ≡ length bs
  pub succeeds : (h : ℕ) (bs : List ℕ) (d : Driver.Device v) → (Driver.ft_write v h bs d).0 ≡ ft_ok

-- With a driver whose writes all take their bytes and succeed, FTDI_SendData gives 1.
pub send_data-TakesAll :
    (v : Driver) (h label : ℕ) (bytes : List ℕ) (d : Driver.Device v)
    → TakesAll v
    → (send_data v h label bytes d).0 ≡ pos 1
unfolding send_data
send_data-TakesAll v h label bytes d t =
    let hdr = packet_header label (length bytes) in
    let d1 = (Driver.ft_write v h hdr d).2 in
    let d2 = (Driver.ft_write v h bytes d1).2 in
    ground (
      arith,
      t.takes h hdr d,
      t.takes h bytes d1,
      t.takes h (dmx_end_code ∷ []) d2,
      t.succeeds h (dmx_end_code ∷ []) d2,
    )
