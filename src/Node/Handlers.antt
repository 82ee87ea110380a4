-- ===== src/Node/Handlers.antt =====
-- AppDmxUsbNode: the two message handlers, and the client's timers, as one step function over what
-- the event loop may call next.
use dmx_enttec_node.Prelude.{ℕ, List, [], ◌∷◌, ◌==◌, not, if◌then◌else◌, Result, ok, ◌>>=◌}
use dmx_enttec_node.Proto.{OverlayMessage}
use dmx_enttec_node.Enttec.UsbPro.Driver.{Driver}
use dmx_enttec_node.Enttec.Client.Defs.{
  UsbClient, update_frame, apply_overlay, flush_frame, report_metrics,
}
use dmx_enttec_node.Prelude.{true}

-- `universe` is the one that the configuration names.
unfoldable pub on_dmx_message : ℕ → UsbClient → List ℕ → ℕ → Result UsbClient
on_dmx_message dmx_universe c frame universe =
    if not (universe == dmx_universe) then ok c else update_frame c frame

unfoldable pub on_overlay_message : ℕ → OverlayMessage → UsbClient → Result UsbClient
on_overlay_message dmx_universe msg c =
    if not (msg.universe == dmx_universe) then ok c else apply_overlay c msg true

-- What the event loop may call: a handler with a message, or a timer of the client.
pub data Event : Type 0 where
  dmx_message : List ℕ → ℕ → Event
  overlay_message : OverlayMessage → Event
  flush_timer : Event
  metrics_timer : Event

module _ (v : Driver) (h dmx_universe : ℕ) where
  open v use {Device}

  unfoldable pub step : Event → UsbClient × Device → Result (UsbClient × Device)
  step (dmx_message frame universe) (c, d) =
      on_dmx_message dmx_universe c frame universe >>= λ c'. ok (c', d)
  step (overlay_message msg) (c, d) = on_overlay_message dmx_universe msg c >>= λ c'. ok (c', d)
  step flush_timer (c, d) = flush_frame v h c d
  step metrics_timer (c, d) = ok ((report_metrics c).1, d)

  unfoldable pub run : List Event → UsbClient × Device → Result (UsbClient × Device)
  run [] s = ok s
  run (e ∷ es) s = step e s >>= run es
