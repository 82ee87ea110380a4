-- ===== src/Node/Loop/Delivered.antt =====
-- A round of the node's event loop delivers a message from the overlay socket to the PRO.
use dmx_enttec_node.Prelude.{
  ℕ, ◌-◌, ◌≤◌, ◌<◌, ◌≡◌, refl, sym, ap, ◌∙◌, given, ◌++◌, get_or, true, ok,
}
use dmx_enttec_node.Core.EventLoop.{EventLoop, add_timer, run_round}
use dmx_enttec_node.Core.EventLoop.Turns.{round-by}
use dmx_enttec_node.Core.EventLoop.Simulated.{run_round-Simulates}
use dmx_enttec_node.Proto.{OverlayMessage, overlay_message_size, overlay_protocol_id}
use dmx_enttec_node.Proto.Layout.{encode, HasTypes}
use dmx_enttec_node.Enttec.UsbPro.Driver.{Driver, IsWire}
use dmx_enttec_node.Enttec.UsbPro.Framing.{packet, TakesAll}
use dmx_enttec_node.Enttec.Client.Defs.{set_dmx_tx_mode}
use dmx_enttec_node.Enttec.Client.Channels.{covers}
use dmx_enttec_node.Node.Spec.{Picture}
use dmx_enttec_node.Node.Loop.{System, Running, Slots, node_loop}
use dmx_enttec_node.Node.Loop.Sound.{IsSoundSystem}
use dmx_enttec_node.Node.Loop.Panel.{Panel, frame_of, panel_loop}
use dmx_enttec_node.Node.Loop.Matches.{panel, Shows}
use dmx_enttec_node.Node.Loop.Refines.{Displays, node_loop-Simulates}
use dmx_enttec_node.Node.Loop.Delivers.{Waits, panel-Turns}

module _ (sys : System) (v : Driver) (w : IsWire v) (h dmx_universe capacity : ℕ) where
  wire_of :
      (s : Running sys v) (a a' : Panel sys)
      → Displays sys v w h dmx_universe capacity s a
      → a ≡ a'
      → w.sent s.device ≡ a'.wire
  wire_of s a a' d same = ap Panel.wire (sym d.same ∙ same)

  -- A message of the node's universe that waits in the overlay socket when a round begins, in which
  -- the poll of that socket and the flush are due, is on the wire after the round: one packet more
  -- has been sent, of a whole frame that shows the message's data on all channels that it covers.
  pub run_round-delivers :
      (now : ℕ) (slots : Slots) (s : Running sys v) (p : Picture) (m : OverlayMessage)
      (Waiting : System.World sys → Type 0)
      → IsSoundSystem sys
      → TakesAll v
      → Shows sys v w h dmx_universe capacity s p
      → Waits sys (encode m) Waiting
      → Waiting s.world
      → HasTypes m
      → m.protocol_id ≡ overlay_protocol_id
      → m.universe ≡ dmx_universe
      → overlay_message_size ≤ capacity
      → 0 < now - slots.overlay_poll.last_call
      → 15000000 < now - slots.sender.last_call
      → (l' : EventLoop (Running sys v)) × (s' : Running sys v) × (q : Picture) × (run_round now
            (node_loop sys v h dmx_universe slots)
            s
          ≡ ok (l', s'))
        × ((k : ℕ) → covers m k ≡ true → q.shows k ≡ get_or m.dmx_data k 0)
        × (w.sent s'.device ≡ w.sent s.device ++ packet set_dmx_tx_mode (frame_of q))
  unfolding add_timer
  run_round-delivers now slots s p m Waiting sound takes shows waits waiting types protocol ours
        room polled flushed =
      let a = panel sys v w h dmx_universe capacity s p in
      let turns =
        panel-Turns sys dmx_universe capacity m Waiting waits (w.sent s.device) types protocol ours
          room now slots a (waiting, refl) polled flushed in
      let (q, shown, wire) = turns.ends in
      let round =
        round-by now (panel_loop sys dmx_universe capacity slots).timers turns.es' a turns.s'
          turns.returns in
      given
        (run_round-Simulates (Displays sys v w h dmx_universe capacity) now
          (node_loop sys v h dmx_universe slots) (panel_loop sys dmx_universe capacity slots) s a
          (node_loop-Simulates sys v w h dmx_universe capacity slots sound takes)
          (record { same = refl; shows = shows }))
        (λ (l', m', s', a', e, f, sim, d).
          (l', s', q, e, shown, wire_of s' a' turns.s' d (cc) ∙ wire))
