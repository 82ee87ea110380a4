-- ===== src/Tests/Nodes.antt =====
-- The node.
use dmx_enttec_node.Prelude.{ℕ, ◌≡◌, refl, List, [], ◌∷◌, length-replicate, none, false, ok, arith}
use dmx_enttec_node.Enttec.Client.Defs.{UsbClient}
use dmx_enttec_node.Enttec.Client.Channels.{channel}
use dmx_enttec_node.Node.Handlers.{Event, dmx_message, overlay_message, flush_timer, run}
use dmx_enttec_node.Node.Spec.{Picture, Holds, reacts}
use dmx_enttec_node.Node.Refine.{run_refines}
use dmx_enttec_node.Tests.Data.{Wires, quiet, driver, message, client, dmx_frame}

abbrev pub dark : Picture
dark = record { shows = channel (client none false); overlay = none; unsent = false }

pub dark-Holds : Holds (client none false) dark
dark-Holds = record {
  valid = record { frame_size = length-replicate {A = ℕ} 513 0; start_code = refl; buffered = tt };
  channels = λ k h. refl;
  overlay = refl;
  unsent = refl;
}

abbrev events : List Event
events =
    overlay_message message ∷ dmx_message dmx_frame 1 ∷ flush_timer ∷ dmx_message dmx_frame 2 ∷ []

run_refines_example :
    (c' : UsbClient) × (d' : Wires) × (run driver 1 1 events (client none false, quiet)
      ≡ ok (c', d'))
    × Holds c' (reacts 1 events dark)
run_refines_example =
    run_refines 1 driver 1 events (client none false) quiet dark dark-Holds
      (
        (length-replicate {A = ℕ} 512 200, refl),
        (length-replicate {A = ℕ} 512 7, (tt, (length-replicate {A = ℕ} 512 7, tt))),
      )
      (ground arith)

-- What it comes to: the overlay shows over the frame, and the frame of another universe is not
-- shown.
shows_overlay : Picture.shows (reacts 1 events dark) 11 ≡ 200
shows_overlay = refl

shows_frame : Picture.shows (reacts 1 events dark) 13 ≡ 7
shows_frame = refl
