-- ===== src/Node/Loop/Refines.antt =====
-- The running node and the panel, over any clock readings.
use dmx_enttec_node.Prelude.{ℕ, ◌≡◌, refl, ap, ◌∙◌, given, List, ok}
use dmx_enttec_node.Core.Timer
use dmx_enttec_node.Core.Timer.{Callback, start}
use dmx_enttec_node.Core.EventLoop
use dmx_enttec_node.Core.EventLoop.{EventLoop, add_timer, add_poller}
use dmx_enttec_node.Core.EventLoop.Simulates.{Simulates, TimerSimulates, LoopSimulates}
use dmx_enttec_node.Core.EventLoop.Simulated.{run-Simulates}
use dmx_enttec_node.Enttec.UsbPro.Driver.{Driver, IsWire}
use dmx_enttec_node.Enttec.UsbPro.Framing.{TakesAll}
use dmx_enttec_node.Node.Spec.{Picture}
use dmx_enttec_node.Node.Loop.{System, Running, Slots, node_loop}
use dmx_enttec_node.Node.Loop.Sound.{IsSoundSystem}
use dmx_enttec_node.Node.Loop.Panel.{Panel, panel_loop}
use dmx_enttec_node.Node.Loop.Matches.{
  panel, Shows, Matches, poll_reply-Matches, report_artnet-Matches, report_server-Matches,
  report_client-Matches,
}
use dmx_enttec_node.Node.Loop.Sending.{flush-Matches}
use dmx_enttec_node.Node.Loop.Hearing.{poll_artnet_socket-Matches, poll_overlay_socket-Matches}

module _ (sys : System) (v : Driver) (w : IsWire v) (h dmx_universe capacity : ℕ) where
  -- The panel is that of the node, which shows its picture.
  pub record Displays (s : Running sys v) (a : Panel sys) : Type 0 where
    pub same : a ≡ panel sys v w h dmx_universe capacity s a.picture
    pub shows : Shows sys v w h dmx_universe capacity s a.picture

  Matches-Simulates :
      (f : Callback (Running sys v)) (g : Callback (Panel sys))
      → Matches sys v w h dmx_universe capacity f g
      → Simulates Displays f g
  Matches-Simulates f g matches s a d = given (matches s a.picture d.shows) (λ m. (
    m.s',
    panel sys v w h dmx_universe capacity m.s' m.p',
    m.returns,
    ap g d.same ∙ m.panel_returns,
    record { same = refl; shows = m.shows },
  ))

  started :
      (interval last_call : ℕ) (f : Callback (Running sys v)) (g : Callback (Panel sys))
      → Matches sys v w h dmx_universe capacity f g
      → TimerSimulates Displays
          (start (Timer.create interval) f last_call)
          (start (Timer.create interval) g last_call)
  unfolding start Timer.create
  started interval last_call f g matches = record {
    interval = refl;
    last_call = refl;
    callback = Matches-Simulates f g matches;
  }

  pub node_loop-Simulates :
      (slots : Slots)
      → IsSoundSystem sys
      → TakesAll v
      → LoopSimulates Displays
          (node_loop sys v h dmx_universe slots)
          (panel_loop sys dmx_universe capacity slots)
  unfolding node_loop add_timer add_poller
  node_loop-Simulates slots sound takes = record {
    posted = tt;
    timed = (
      started 0 slots.artnet_poll.last_call _ _
          (poll_artnet_socket-Matches sys v w h dmx_universe capacity sound),
      (
        started 1000000000 slots.artnet_reply.last_call _ _
            (poll_reply-Matches sys v w h dmx_universe capacity),
        (
          started 5000000000 slots.artnet_metrics.last_call _ _
              (report_artnet-Matches sys v w h dmx_universe capacity),
          (
            started 0 slots.overlay_poll.last_call _ _
                (poll_overlay_socket-Matches sys v w h dmx_universe capacity sound),
            (
              started 5000000000 slots.overlay_metrics.last_call _ _
                  (report_server-Matches sys v w h dmx_universe capacity),
              (
                started 15000000 slots.sender.last_call _ _
                    (flush-Matches sys v w h dmx_universe capacity takes),
                (
                  started 5000000000 slots.client_metrics.last_call _ _
                      (report_client-Matches sys v w h dmx_universe capacity),
                  tt,
                ),
              ),
            ),
          ),
        ),
      ),
    );
  }

  -- With sound messages from the sockets and a connected device that takes all it is given, whatever
  -- the clock readings, the event loop of the node neither throws nor leaves an array: it keeps in
  -- step with the panel's, so that the client holds the panel's picture and the bytes on the wire
  -- are the panel's.
  pub run-Displays :
      (times : List ℕ) (slots : Slots) (s : Running sys v) (p : Picture)
      → IsSoundSystem sys
      → TakesAll v
      → Shows sys v w h dmx_universe capacity s p
      → (l' : EventLoop (Running sys v)) × (m' : EventLoop (Panel sys)) × (s' : Running sys v)
        × (a' : Panel sys) × (EventLoop.run times (node_loop sys v h dmx_universe slots) s
            ≡ ok (l', s'))
        × (EventLoop.run times
              (panel_loop sys dmx_universe capacity slots)
              (panel sys v w h dmx_universe capacity s p)
            ≡ ok (m', a'))
        × Displays s' a'
  run-Displays times slots s p sound takes shows =
      given
        (run-Simulates Displays times (node_loop sys v h dmx_universe slots)
          (panel_loop sys dmx_universe capacity slots) s (panel sys v w h dmx_universe capacity s p)
          (node_loop-Simulates slots sound takes) (record { same = refl; shows = shows }))
        (λ (l', m', s', a', e, f, sim, d). (l', m', s', a', e, f, d))
