-- ===== src/Enttec/UsbPro/RxDmx.antt =====
-- What FTDI_RxDMX gives.
use dmx_enttec_node.Prelude.{
  ℕ, ◌+◌, ◌-◌, ◌*◌, ◌≡◌, refl, List, overwrite, get_or, false, ◌==◌, length, ltb, Bool-cases, inl,
  inr, arith,
}
use dmx_enttec_node.Enttec.UsbPro.Driver.{Driver}
use dmx_enttec_node.Enttec.UsbPro.Send.{dmx_end_code}
use dmx_enttec_node.Enttec.UsbPro.Receive.{
  Read, got, no_response, fault, out_of_fuel, M, seek_start, rx_dmx, rx_block, rx_packet,
  char_value, int_eq, dmx_packet_size,
}

-- A `char` has no value that compares equal to 0xE7.
never_end_code : (b : ℕ) → int_eq (char_value b) dmx_end_code ≡ false
never_end_code b = elim (Bool-cases (ltb b 128)) [
  | inl small ↦ rw small (ground arith)
  | inr large ↦ rw large refl
]

module _ (v : Driver) where
  open v use {Device}

  -- Not TRUE
  abbrev pub IsRefused : {A : Type 0} → Read Device A → Type 0
  IsRefused (got a d) = ⊥
  IsRefused (no_response d) = Unit
  IsRefused fault = Unit
  IsRefused out_of_fuel = Unit

  IsRefused-from :
      {A B : Type 0} (r : Read Device A) (f : A → M v B)
      → ((a : A) (d : Device) → IsRefused (f a d))
      → IsRefused (elim r [
        | got a d ↦ f a d
        | no_response d ↦ no_response d
        | fault ↦ fault
        | out_of_fuel ↦ out_of_fuel
      ])
  IsRefused-from (got a d) f s = s a d
  IsRefused-from (no_response d) f s = tt
  IsRefused-from fault f s = tt
  IsRefused-from out_of_fuel f s = tt

  module _ (h : ℕ) where
    rx_block-IsRefused :
        (garbage data' : List ℕ) (expected len : ℕ) (d : Device)
        → IsRefused (rx_block v h garbage data' expected len d)
    unfolding rx_block
    rx_block-IsRefused garbage data' expected len d =
        let body = (Driver.ft_read v h len d).1 in
        elim (Bool-cases (length body == len)) [
          | inr short ↦ rw short tt
          | inl full ↦ rw (full, never_end_code (get_or (overwrite garbage 0 body) (len - 1) 0)) tt
        ]

    rx_packet-IsRefused :
        (garbage stale : List ℕ) (label : ℕ) (data' : List ℕ) (expected : ℕ) (d : Device)
        → IsRefused (rx_packet v h garbage stale label data' expected d)
    unfolding rx_packet
    rx_packet-IsRefused garbage stale label data' expected d =
        let (_, bytes, d') = Driver.ft_read v h 3 d in
        let header = overwrite stale 0 bytes in
        let len = get_or header 1 0 + 256 * get_or header 2 0 + 1 in
        elim (Bool-cases (length bytes == 0)) [
          | inl silent ↦ rw silent tt
          | inr some_ ↦ elim (Bool-cases (get_or header 0 0 == label)) [
            | inr other ↦ rw (some_, other) tt
            | inl labelled ↦ elim (Bool-cases (ltb (dmx_packet_size + 2) len)) [
              | inl long ↦ rw (some_, labelled, long) tt
              | inr fits ↦
                  rw (some_, labelled, fits) (rx_block-IsRefused garbage data' expected len d')
            ]
          ]
        ]

    -- Whatever the device sends, FTDI_RxDMX does not return TRUE: it compares the last byte as a
    -- signed `char` with 0xE7.
    pub rx_dmx-IsRefused :
        (fuel : ℕ) (garbage stale : List ℕ) (label : ℕ) (data' : List ℕ) (expected : ℕ) (d : Device)
        → IsRefused (rx_dmx v h fuel garbage stale label data' expected d)
    unfolding rx_dmx
    rx_dmx-IsRefused fuel garbage stale label data' expected d =
        IsRefused-from (seek_start v h fuel 0 d)
          (λ b. rx_packet v h garbage stale label data' expected)
          (λ b d'. rx_packet-IsRefused garbage stale label data' expected d')
