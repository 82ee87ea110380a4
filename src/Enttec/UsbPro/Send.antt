-- ===== src/Enttec/UsbPro/Send.antt =====
-- FTDI_SendData: one packet to the PRO, in three writes.
use dmx_enttec_node.Prelude.{ℕ, ◌%◌, ◌/◌, List, [], ◌∷◌, not, length, ◌==◌, if◌then◌else◌, ℤ, pos}
use dmx_enttec_node.Enttec.UsbPro.Driver.{Driver, ft_ok}

-- The constants of pro_driver.h
abbrev pub dmx_start_code : ℕ
dmx_start_code = 0x7E

abbrev pub dmx_end_code : ℕ
dmx_end_code = 0xE7

abbrev pub dmx_header_length : ℕ
dmx_header_length = 4

-- NO_RESPONSE and FALSE are both 0, TRUE is 1.
abbrev pub no_response : ℤ
no_response = pos 0

-- header[1] and header[3] keep the low byte of what they are given.
abbrev pub packet_header : ℕ → ℕ → List ℕ
packet_header label len = dmx_start_code ∷ label % 256 ∷ len % 256 ∷ len / 256 % 256 ∷ []

module _ (v : Driver) where
  open v use {Device, ft_write}

  -- The result of the call, and the driver after it.
  unfoldable pub send_data : ℕ → ℕ → List ℕ → Device → ℤ × Device
  send_data h label bytes d =
      let (_, n, d1) = ft_write h (packet_header label (length bytes)) d in
      if not (n == dmx_header_length)
      then (no_response, d1)
      else let (_, n', d2) = ft_write h bytes d1 in
        if not (n' == length bytes)
        then (no_response, d2)
        else let (res, n'', d3) = ft_write h (dmx_end_code ∷ []) d2 in
          if not (n'' == 1)
          then (no_response, d3)
          else if res == ft_ok
          then (pos 1, d3)
          else (pos 0, d3)
