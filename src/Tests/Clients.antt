-- ===== src/Tests/Clients.antt =====
-- The USB client.
use mathlib.Core.List.Perm
use dmx_enttec_node.Prelude.{
  ℕ, ◌<◌, ◌≡◌, refl, List, [], ◌∷◌, replicate, length-replicate, get_or, none, some, Bool, true,
  false, ok, if◌then◌else◌, arith,
}
use dmx_enttec_node.Proto.{OverlayMessage, DmxOverlay, dmx_frame_size}
use dmx_enttec_node.Enttec.UsbPro.Send.{send_data}
use dmx_enttec_node.Enttec.UsbPro.Framing.{packet}
use dmx_enttec_node.Enttec.Client.Defs.{
  UsbClient, apply_overlay, update_frame, flush_frame, set_dmx_tx_mode,
}
use dmx_enttec_node.Enttec.Client.Order.{frame_of, apply_overlay-perm}
use dmx_enttec_node.Enttec.Client.Channels.{
  IsValid, channel, covers, shown, apply_overlay-channel, update_frame-shown,
}
use dmx_enttec_node.Enttec.Client.Flush.{flush_frame_lem, flush_frame-once, flushed}
use dmx_enttec_node.Tests.Data.{Wires, quiet, driver, wire, takes_all, message, client, dmx_frame}

abbrev zeros : List ℕ
zeros = replicate 513 0

pub client-IsValid : (new : Bool) → IsValid (client none new)
client-IsValid new = record {
  frame_size = length-replicate {A = ℕ} 513 0;
  start_code = refl;
  buffered = tt;
}

overlaid-IsValid : (new : Bool) → IsValid (client (some message) new)
overlaid-IsValid new = record {
  frame_size = length-replicate {A = ℕ} 513 0;
  start_code = refl;
  buffered = (length-replicate {A = ℕ} 512 200, refl);
}

apply_overlay-channel_example :
    (c' : UsbClient) × (apply_overlay (client none false) message true ≡ ok c')
    × IsValid c'
    × ((k : ℕ)
        → channel c' k ≡ (
            if covers message k
            then get_or message.dmx_data k 0
            else channel (client none false) k))
    × (c' ≡ record (client none false) {
      serialized_frame = c'.serialized_frame;
      last_overlay_msg = some message;
      is_new_frame = true;
    })
apply_overlay-channel_example =
    apply_overlay-channel (client none false) message true (client-IsValid false)
      (length-replicate {A = ℕ} 512 200) refl

update_frame-shown_example :
    (c' : UsbClient) × (update_frame (client (some message) false) dmx_frame ≡ ok c')
    × IsValid c'
    × ((k : ℕ) → k < dmx_frame_size → channel c' k ≡ shown (some message) dmx_frame k)
    × (c' ≡ record (client (some message) false) {
      serialized_frame = c'.serialized_frame;
      is_new_frame = true;
    })
update_frame-shown_example =
    update_frame-shown (client (some message) false) dmx_frame (overlaid-IsValid false)
      (length-replicate {A = ℕ} 512 7)

flush_frame_lem_example :
    flush_frame driver 1 (client none true) quiet
    ≡ ok (flushed (client none true), (send_data driver 1 set_dmx_tx_mode zeros quiet).1)
flush_frame_lem_example = flush_frame_lem driver 1 (client none true) quiet

flush_frame-once_example :
    (d' : Wires) × (flush_frame driver 1 (client none true) quiet
      ≡ ok (flushed (client none true), d'))
    × (d'.out ≡ packet set_dmx_tx_mode zeros)
    × (flush_frame driver 1 (flushed (client none true)) d' ≡ ok (flushed (client none true), d'))
flush_frame-once_example =
    flush_frame-once driver wire 1 (client none true) quiet takes_all (ground arith) refl

-- Two overlays that overlap, in both orders
abbrev two_overlays : DmxOverlay → DmxOverlay → OverlayMessage
two_overlays o o' = record message {
  num_overlays = 2;
  overlays = o ∷ o' ∷ replicate 98 (record { start = 0; length = 0 });
}

abbrev low : DmxOverlay
low = record { start = 10; length = 3 }

abbrev high : DmxOverlay
high = record { start = 11; length = 4 }

apply_overlay-perm_example :
    frame_of (apply_overlay (client none false) (two_overlays low high) true)
    ≡ frame_of (apply_overlay (client none false) (two_overlays high low) true)
apply_overlay-perm_example =
    apply_overlay-perm (client none false) (two_overlays low high) (two_overlays high low) true
      (client-IsValid false) (length-replicate {A = ℕ} 512 200) refl
      (Perm.swap (some high) (some low) [])
