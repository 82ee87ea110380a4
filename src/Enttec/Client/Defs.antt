-- ===== src/Enttec/Client/Defs.antt =====
-- EnttecUSBClient: its state and the operations on the frame.
use dmx_enttec_node.Prelude.{
  ℕ, zero, suc, ◌+◌, List, Bool, true, false, not, Option, none, some, get_elem?, replicate, length,
  set, if◌then◌else◌, ◌==◌, memcpy, memset, is_negative, device_not_connected, Result, ok, throw_if,
  or_fault, ◌>>=◌, ◌>>◌,
}
use dmx_enttec_node.Proto.{OverlayMessage, dmx_frame_size}
use dmx_enttec_node.Enttec.UsbPro.Driver.{Driver}
use dmx_enttec_node.Enttec.UsbPro.Open.{close_port}
use dmx_enttec_node.Enttec.UsbPro.Send.{send_data}

abbrev pub dmx_packet_start_code : ℕ
dmx_packet_start_code = 0

abbrev pub set_dmx_tx_mode : ℕ
set_dmx_tx_mode = 6

-- `send_counter` is an `int` that `report_metrics` resets every five seconds, far below its range.
pub record UsbClient : Type 0 where
  pub ft_status : ℕ
  pub num_devices : ℕ
  pub device_connected : ℕ
  pub serialized_frame : List ℕ
  pub last_overlay_msg : Option OverlayMessage
  pub is_new_frame : Bool
  pub send_counter : ℕ

-- A new client; `mFtStatus` has no initialiser.
unfoldable pub create : ℕ → UsbClient
create status = record {
  ft_status = status;
  num_devices = 0;
  device_connected = 0;
  serialized_frame = replicate (dmx_frame_size + 1) 0;
  last_overlay_msg = none;
  is_new_frame = false;
  send_counter = 0;
}

-- One round of the loop in ApplyOverlay. Reading past the 100 overlays faults, and so does a copy
-- that leaves the DMX data of the message or the serialized frame.
unfoldable pub copy_overlay : OverlayMessage → ℕ → List ℕ → Result (List ℕ)
copy_overlay msg i frame = do
  o ← or_fault (get_elem? msg.overlays i)
  or_fault (memcpy frame (1 + o.start) msg.dmx_data o.start o.length)

-- The loop, from round `i` on, with `n` rounds left
unfoldable pub copy_overlays : OverlayMessage → ℕ → ℕ → List ℕ → Result (List ℕ)
copy_overlays msg i zero frame = ok frame
copy_overlays msg i (suc n) frame = copy_overlay msg i frame >>= copy_overlays msg (suc i) n

unfoldable pub apply_overlay : UsbClient → OverlayMessage → Bool → Result UsbClient
apply_overlay c msg buffer_overlay = do
  frame ← copy_overlays msg 0 msg.num_overlays c.serialized_frame
  ok (record c {
    serialized_frame = frame;
    last_overlay_msg = if buffer_overlay then some msg else c.last_overlay_msg;
    is_new_frame = true;
  })

-- `if (mLastOverlayMsg) ApplyOverlay(*mLastOverlayMsg, false);`
unfoldable pub reapply : UsbClient → Option OverlayMessage → Result UsbClient
reapply c none = ok c
reapply c (some msg) = apply_overlay c msg false

unfoldable pub update_frame : UsbClient → List ℕ → Result UsbClient
unfolding reapply
update_frame c dmx_frame = do
  cleared ← or_fault (memset c.serialized_frame 0 (dmx_frame_size + 1))
  shifted ← or_fault (memcpy cleared 1 dmx_frame 0 (length dmx_frame))
  c' ←
      reapply (record c { serialized_frame = set shifted 0 dmx_packet_start_code })
        c.last_overlay_msg
  ok (record c' { is_new_frame = true })

-- The number that is logged, and the client after it
unfoldable pub report_metrics : UsbClient → ℕ × UsbClient
report_metrics c = (c.send_counter, record c { send_counter = 0 })

module _ (v : Driver) where
  open v use {Device}

  unfoldable pub flush_frame : ℕ → UsbClient → Device → Result (UsbClient × Device)
  unfolding close_port
  flush_frame h c d = do
    throw_if (c.device_connected == 0) device_not_connected
    if not c.is_new_frame
        then ok (c, d)
        else let (res, d') = send_data v h set_dmx_tx_mode c.serialized_frame d in
          if is_negative res
          then ok (c, close_port v h d')
          else ok (record c { send_counter = c.send_counter + 1; is_new_frame = false }, d')
