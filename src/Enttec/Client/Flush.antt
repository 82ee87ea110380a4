-- ===== src/Enttec/Client/Flush.antt =====
-- FlushFrame: what goes to the PRO, and when.
use dmx_enttec_node.Prelude.{
  ℕ, ◌+◌, ◌≡◌, true, false, not, ◌++◌, ◌==◌, if◌then◌else◌, ok, throw, arith, ◌≢◌,
  device_not_connected,
}
use dmx_enttec_node.Enttec.UsbPro.Driver.{Driver, IsWire}
use dmx_enttec_node.Enttec.UsbPro.Send.{send_data}
use dmx_enttec_node.Enttec.UsbPro.Framing.{
  send_data-not_negative, send_data-packet, send_data-TakesAll, TakesAll, packet,
}
use dmx_enttec_node.Enttec.Client.Defs.{UsbClient, flush_frame, set_dmx_tx_mode}

-- The client after a flush
abbrev pub flushed : UsbClient → UsbClient
flushed c = record c { send_counter = c.send_counter + 1; is_new_frame = false }

-- All branches: without a device the call throws; without a new frame nothing is sent; else one
-- packet is tried, and the frame counts as sent whatever FTDI_SendData returns.
pub flush_frame_lem :
    (v : Driver) (h : ℕ) (c : UsbClient) (d : Driver.Device v)
    → flush_frame v h c d ≡ (
        if c.device_connected == 0
        then throw device_not_connected
        else if not c.is_new_frame
        then ok (c, d)
        else ok (flushed c, (send_data v h set_dmx_tx_mode c.serialized_frame d).1))
unfolding flush_frame
flush_frame_lem v h c d =
    ground (arith, send_data-not_negative v h set_dmx_tx_mode c.serialized_frame d)

-- With a driver that takes what it is given, a flush of a new frame puts exactly one packet on the
-- wire, of label 6 with the serialized frame, and the next flush puts nothing there.
pub flush_frame-once :
    (v : Driver) (w : IsWire v) (h : ℕ) (c : UsbClient) (d : Driver.Device v)
    → TakesAll v
    → c.device_connected ≢ 0
    → c.is_new_frame ≡ true
    → (d' : Driver.Device v) × (flush_frame v h c d ≡ ok (flushed c, d'))
      × (w.sent d' ≡ w.sent d ++ packet set_dmx_tx_mode c.serialized_frame)
      × (flush_frame v h (flushed c) d' ≡ ok (flushed c, d'))
flush_frame-once v w h c d t con new =
    let frame = c.serialized_frame in
    let d' = (send_data v h set_dmx_tx_mode frame d).1 in
    (
      d',
      ground (arith, flush_frame_lem v h c d),
      send_data-packet v w h set_dmx_tx_mode frame d
          (send_data-TakesAll v h set_dmx_tx_mode frame d t),
      ground (arith, flush_frame_lem v h (flushed c) d'),
    )
