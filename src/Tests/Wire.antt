-- ===== src/Tests/Wire.antt =====
-- The driver of the PRO.
use dmx_enttec_node.Prelude.{
  ℕ, ◌≡◌, refl, List, [], ◌∷◌, pos, length, replicate, length-replicate, arith,
}
use dmx_enttec_node.Enttec.UsbPro.Send.{send_data}
use dmx_enttec_node.Enttec.UsbPro.Receive.{receive_data, got, rx_dmx}
use dmx_enttec_node.Enttec.UsbPro.RxDmx.{IsRefused, rx_dmx-IsRefused}
use dmx_enttec_node.Enttec.UsbPro.Framing.{packet, send_data-SentPrefix, SentPrefix}
use dmx_enttec_node.Enttec.UsbPro.Stream.{receive_data-packet}
use dmx_enttec_node.Enttec.UsbPro.Total.{Ends, receive_data-Ends}
use dmx_enttec_node.Tests.Data.{Wires, quiet, driver, wire, stream}

abbrev sent : Wires
sent = record { out = 0x7E ∷ 6 ∷ 2 ∷ 0 ∷ 9 ∷ 8 ∷ 0xE7 ∷ []; in_ = [] }

sends : send_data driver 1 6 (9 ∷ 8 ∷ []) quiet ≡ (pos 1, sent)
unfolding send_data
sends = refl

send_data-SentPrefix_example :
    SentPrefix driver wire (packet 6 (9 ∷ [])) quiet (send_data driver 1 6 (9 ∷ []) quiet).1
send_data-SentPrefix_example = send_data-SentPrefix driver wire 1 6 (9 ∷ []) quiet

abbrev noisy : Wires
noisy = record { out = []; in_ = 1 ∷ 0x7E ∷ 5 ∷ 3 ∷ 0 ∷ 9 ∷ 8 ∷ 7 ∷ 0xE7 ∷ 4 ∷ [] }

abbrev zeros : List ℕ
zeros = replicate 600 0

receive_data-packet_example :
    (d : Wires) × (receive_data driver 1 10 zeros 5 (0 ∷ 0 ∷ 6 ∷ []) 2 noisy
      ≡ got (9 ∷ 8 ∷ 6 ∷ []) d)
    × (d.in_ ≡ 4 ∷ [])
receive_data-packet_example =
    receive_data-packet driver stream 1 10 5 2 zeros (0 ∷ 0 ∷ 6 ∷ []) (1 ∷ []) (9 ∷ 8 ∷ 7 ∷ [])
      (4 ∷ []) noisy (omega arith) (ground arith) (omega arith) ((ground arith), tt) (omega arith)
      refl (omega arith) (omega arith) refl

-- A packet that breaks off behind its header
abbrev broken : Wires
broken = record { out = []; in_ = 1 ∷ 0x7E ∷ 5 ∷ 3 ∷ 0 ∷ 9 ∷ [] }

receive_data-Ends_example :
    Ends
      (λ received d'. length received ≡ 3)
      (receive_data driver 1 7 zeros 5 (0 ∷ 0 ∷ 6 ∷ []) 2 broken)
receive_data-Ends_example =
    receive_data-Ends driver stream 1 7 5 zeros (0 ∷ 0 ∷ 6 ∷ []) 2 broken (omega arith)
      (length-replicate {A = ℕ} 600 0) (omega arith) (omega arith)

-- A packet in full
rx_dmx-IsRefused_example : IsRefused driver (
    rx_dmx driver 1 10 zeros
      (0 ∷ 0 ∷ 0 ∷ [])
      5
      (0 ∷ 0 ∷ [])
      2
      (record { out = []; in_ = packet 5 (9 ∷ 8 ∷ 7 ∷ []) }))
rx_dmx-IsRefused_example =
    rx_dmx-IsRefused driver 1 10 zeros (0 ∷ 0 ∷ 0 ∷ []) 5 (0 ∷ 0 ∷ []) 2
      (record { out = []; in_ = packet 5 (9 ∷ 8 ∷ 7 ∷ []) })
