-- ===== src/Node/Spec.antt =====
-- What the node promises: a picture of the 512 channels, in which a DMX frame of the universe
-- replaces all that the last overlay message does not cover.
use dmx_enttec_node.Prelude.{
  ℕ, List, [], ◌∷◌, ◌==◌, Bool, true, false, if◌then◌else◌, Option, some, get_or, ◌<◌, ◌≡◌, length,
}
use dmx_enttec_node.Proto.{OverlayMessage, dmx_frame_size}
use dmx_enttec_node.Enttec.Client.Defs.{UsbClient}
use dmx_enttec_node.Enttec.Client.Bounds.{fits}
use dmx_enttec_node.Enttec.Client.Channels.{covers, shown, channel, IsValid}
use dmx_enttec_node.Node.Handlers.{Event, dmx_message, overlay_message, flush_timer, metrics_timer}

pub record Picture : Type 0 where
  pub shows : ℕ → ℕ
  pub overlay : Option OverlayMessage
  -- There is something that the device has not been given.
  pub unsent : Bool

abbrev pub react : ℕ → Event → Picture → Picture
react u (dmx_message frame universe) p =
    if universe == u then record p { shows = λ k. shown p.overlay frame k; unsent = true } else p
react u (overlay_message msg) p =
    if msg.universe == u
    then record {
      shows = λ k. if covers msg k then get_or msg.dmx_data k 0 else p.shows k;
      overlay = some msg;
      unsent = true;
    }
    else p
react u flush_timer p = record p { unsent = false }
react u metrics_timer p = p

-- A frame is whole, and an overlay message stays inside the channels.
abbrev pub IsSound : Event → Type 0
IsSound (dmx_message frame universe) = length frame ≡ dmx_frame_size
IsSound (overlay_message msg) = (length msg.dmx_data ≡ dmx_frame_size) × (fits msg ≡ true)
IsSound flush_timer = Unit
IsSound metrics_timer = Unit

abbrev pub reacts : ℕ → List Event → Picture → Picture
reacts u [] p = p
reacts u (e ∷ es) p = reacts u es (react u e p)

abbrev pub AllSound : List Event → Type 0
AllSound [] = Unit
AllSound (e ∷ es) = IsSound e × AllSound es

-- The client holds the picture.
pub record Holds (c : UsbClient) (p : Picture) : Type 0 where
  pub valid : IsValid c
  pub channels : (k : ℕ) → k < dmx_frame_size → channel c k ≡ p.shows k
  pub overlay : c.last_overlay_msg ≡ p.overlay
  pub unsent : c.is_new_frame ≡ p.unsent
