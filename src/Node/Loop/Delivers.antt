-- ===== src/Node/Loop/Delivers.antt =====
-- A message on its way from the overlay socket to the PRO, in one round of the event loop.
use dmx_enttec_node.Prelude.{
  ℕ, ◌-◌, ◌≤◌, ◌<◌, ◌≡◌, refl, ap, ◌∙◌, given, List, ◌++◌, length, get_or, ◌==◌, true, false,
  if◌then◌else◌, some, ok, Bool-cases, inl, inr, arith,
}
use dmx_enttec_node.Core.EventLoop.{add_timer, add_poller}
use dmx_enttec_node.Core.EventLoop.Keeps.{Keeps}
use dmx_enttec_node.Core.EventLoop.Turns.{Turns, no_turn, due_turn, any_turn}
use dmx_enttec_node.Proto.{OverlayMessage, overlay_message_size, overlay_protocol_id}
use dmx_enttec_node.Proto.Layout.{encode, HasTypes, length-encode}
use dmx_enttec_node.Network.UdpServer.{received}
use dmx_enttec_node.Enttec.UsbPro.Framing.{packet}
use dmx_enttec_node.Enttec.Client.Defs.{set_dmx_tx_mode}
use dmx_enttec_node.Enttec.Client.Channels.{covers}
use dmx_enttec_node.Node.Handlers.{overlay_message}
use dmx_enttec_node.Node.Spec.{Picture, react}
use dmx_enttec_node.Node.Loop.{System, Slots}
use dmx_enttec_node.Node.Loop.Panel.{
  Panel, frame_of, hear, hear_artnet, answer, hear_overlay, put_on_wire, transmit, rest, panel_loop,
  hear-encode,
}

-- A datagram waits in the overlay socket in these states of the system: the next `recvfrom` with
-- room for it gives it, and the calls for ArtNet leave it there.
pub record Waits (sys : System) (bytes : List ℕ) (Waiting : System.World sys → Type 0)
    : Type 0 where
  pub gives :
      (n : ℕ) (w : System.World sys)
      → length bytes ≤ n
      → Waiting w
      → (sys.recv n w).0 ≡ received bytes
  pub selecting : (w : System.World sys) → Waiting w → Waiting (sys.select w).1
  pub reading : (w : System.World sys) → Waiting w → Waiting (sys.artnet_read w).1
  pub replying : (w : System.World sys) → Waiting w → Waiting (sys.send_poll_reply w)

module _ (sys : System) (dmx_universe capacity : ℕ) (m : OverlayMessage)
    (Waiting : System.World sys → Type 0) (waits : Waits sys (encode m) Waiting)
    (wire : List ℕ) where
  -- Before the poll of the overlay socket
  abbrev Before : Panel sys → Type 0
  Before a = Waiting a.world × (a.wire ≡ wire)

  hear_artnet-Keeps : Keeps Before (hear_artnet sys dmx_universe capacity)
  hear_artnet-Keeps a (waiting, same) = elim (Bool-cases ((sys.select a.world).0 == 1)) [
    | inl some_ ↦ (
      _,
      refl,
      rw (some_) (waits.reading (sys.select a.world).1 (waits.selecting a.world waiting), same),
    )
    | inr none_ ↦ (_, refl, rw (none_) (waits.selecting a.world waiting, same))
  ]

  answer-Keeps : Keeps Before (answer sys dmx_universe capacity)
  answer-Keeps a (waiting, same) = (_, refl, (waits.replying a.world waiting, same))

  rest-Keeps : (P : Panel sys → Type 0) → Keeps P (rest sys dmx_universe capacity)
  rest-Keeps P a p = (a, refl, p)

  -- The message is shown, and it is new.
  abbrev pub IsShown : Picture → Type 0
  IsShown q = (k : ℕ) → covers m k ≡ true → q.shows k ≡ get_or m.dmx_data k 0

  abbrev After : Panel sys → Type 0
  After a = IsShown a.picture × (a.picture.unsent ≡ true) × (a.wire ≡ wire)

  -- The message is on the wire.
  abbrev pub Sent : Panel sys → Type 0
  Sent a = (q : Picture) × IsShown q × (a.wire ≡ wire ++ packet set_dmx_tx_mode (frame_of q))

  module _ (types : HasTypes m) (protocol : m.protocol_id ≡ overlay_protocol_id)
      (ours : m.universe ≡ dmx_universe) (room : overlay_message_size ≤ capacity) where
    heard-After :
        (a : Panel sys)
        → Before a
        → (a' : Panel sys) × (hear_overlay sys dmx_universe capacity a ≡ ok a') × After a'
    heard-After a (waiting, same) =
        let got : (sys.recv capacity a.world).0 ≡ received (encode m) =
          waits.gives capacity a.world (omega (arith, length-encode m types)) waiting in
        let universe : (m.universe == dmx_universe) ≡ true = ground (arith, ours) in
        let q : Picture = record {
          shows = λ k. if covers m k then get_or m.dmx_data k 0 else a.picture.shows k;
          overlay = some m;
          unsent = true;
        } in
        let reacts : react dmx_universe (overlay_message m) a.picture ≡ q = rw (universe) refl in
        let picture : hear sys dmx_universe capacity (sys.recv capacity a.world).0 a.picture ≡ q =
          ap (λ r. hear sys dmx_universe capacity r a.picture) got
          ∙ hear-encode sys dmx_universe capacity m a.picture types protocol
          ∙ reacts in
        (
          record { picture = q; wire = a.wire; world = (sys.recv capacity a.world).1 },
          ap
              (λ p.
                let a' : Panel sys = record {
                  picture = p;
                  wire = a.wire;
                  world = (sys.recv capacity a.world).1;
                } in
                ok a')
              picture,
          (λ k c. rw (c) refl, refl, same),
        )

    transmit-Sent :
        (a : Panel sys)
        → After a
        → (a' : Panel sys) × (transmit sys dmx_universe capacity a ≡ ok a') × Sent a'
    transmit-Sent a (shown, new, same) = (
      record {
        picture = record (a.picture) { unsent = false };
        wire = a.wire ++ packet set_dmx_tx_mode (frame_of a.picture);
        world = a.world;
      },
      ap (λ b. ok (put_on_wire sys dmx_universe capacity b a)) new,
      (a.picture, shown, ap (λ bytes. bytes ++ packet set_dmx_tx_mode (frame_of a.picture)) same),
    )

    -- The seven timers, of which the overlay server's poll and the sender are due
    pub panel-Turns :
        (now : ℕ) (slots : Slots) (a : Panel sys)
        → Before a
        → 0 < now - slots.overlay_poll.last_call
        → 15000000 < now - slots.sender.last_call
        → Turns Sent now (panel_loop sys dmx_universe capacity slots).timers a
    unfolding add_timer add_poller
    panel-Turns now slots a before polled flushed =
        any_turn Sent now Before 0 slots.artnet_poll.last_call slots.artnet_poll.address _ _ a
          hear_artnet-Keeps before
          (λ a1 b1.
            any_turn Sent now Before 1000000000 slots.artnet_reply.last_call
              slots.artnet_reply.address _ _ a1 answer-Keeps b1
              (λ a2 b2.
                any_turn Sent now Before 5000000000 slots.artnet_metrics.last_call
                  slots.artnet_metrics.address _ _ a2 (rest-Keeps Before) b2
                  (λ a3 b3. given (heard-After a3 b3) (λ (a4, e4, after4).
                    due_turn Sent now 0 slots.overlay_poll.last_call slots.overlay_poll.address _ _
                      a3 a4 polled e4
                      (any_turn Sent now After 5000000000 slots.overlay_metrics.last_call
                        slots.overlay_metrics.address _ _ a4 (rest-Keeps After) after4
                        (λ a5 after5. given (transmit-Sent a5 after5) (λ (a6, e6, sent6).
                          due_turn Sent now 15000000 slots.sender.last_call slots.sender.address _ _
                            a5 a6 flushed e6
                            (any_turn Sent now Sent 5000000000 slots.client_metrics.last_call
                              slots.client_metrics.address _ _ a6 (rest-Keeps Sent) sent6
                              (λ a7 sent7. no_turn Sent now a7 sent7)))))))))
