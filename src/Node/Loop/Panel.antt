-- ===== src/Node/Loop/Panel.antt =====
-- What the running node promises, without its buffers, counters and copies: a picture of the
-- channels, and the bytes that have gone to the PRO, by the same timers.
use dmx_enttec_node.Prelude.{
  ℕ, zero, suc, List, [], ◌∷◌, ◌++◌, ◌==◌, Bool, true, false, if◌then◌else◌, ok, ◌≡◌, refl, sym, ap,
  ◌∙◌, append-nil, u32_at, arith,
}
use dmx_enttec_node.Proto.{OverlayMessage, overlay_protocol_id, decode}
use dmx_enttec_node.Proto.Layout.{encode, HasTypes, decode-encode}
use dmx_enttec_node.Core.Timer.{Callback}
use dmx_enttec_node.Core.EventLoop.{EventLoop, add_timer}
use dmx_enttec_node.Network.UdpServer.{Recv, socket_error, received}
use dmx_enttec_node.Enttec.UsbPro.Framing.{packet}
use dmx_enttec_node.Enttec.Client.Defs.{set_dmx_tx_mode}
use dmx_enttec_node.Node.Handlers.{dmx_message, overlay_message}
use dmx_enttec_node.Node.Spec.{Picture, react}
use dmx_enttec_node.Node.Loop.{System, Slots}

pub record Panel (sys : System) : Type 0 where
  pub picture : Picture
  pub wire : List ℕ
  pub world : System.World sys

-- The values of `n` channels from the `k`-th on
unfoldable pub levels : ℕ → ℕ → (ℕ → ℕ) → List ℕ
levels zero k shows = []
levels (suc n) k shows = shows k ∷ levels n (suc k) shows

-- The start code and the 512 channels
unfoldable pub frame_of : Picture → List ℕ
unfolding levels
frame_of p = 0 ∷ levels 512 0 p.shows

module _ (sys : System) (dmx_universe capacity : ℕ) where
  open sys use {recv, select, artnet_read, send_poll_reply}

  abbrev pub react_all : List (List ℕ × ℕ) → Picture → Picture
  react_all [] p = p
  react_all ((frame, universe) ∷ messages) p =
      react_all messages (react dmx_universe (dmx_message frame universe) p)

  abbrev pub hear : Recv → Picture → Picture
  hear (socket_error bytes) p = p
  hear (received bytes) p =
      if (decode bytes).protocol_id == overlay_protocol_id
      then react dmx_universe (overlay_message (decode bytes)) p
      else p

  -- Whether there is something to read
  abbrev pub heard : Bool → Panel sys → Panel sys
  heard true a = record a {
    picture = react_all (artnet_read a.world).0 a.picture;
    world = (artnet_read a.world).1;
  }
  heard false a = a

  abbrev pub hear_artnet : Callback (Panel sys)
  hear_artnet a = ok (heard ((select a.world).0 == 1) (record a { world = (select a.world).1 }))

  abbrev pub answer : Callback (Panel sys)
  answer a = ok (record a { world = send_poll_reply a.world })

  abbrev pub hear_overlay : Callback (Panel sys)
  hear_overlay a = ok (record a {
    picture = hear (recv capacity a.world).0 a.picture;
    world = (recv capacity a.world).1;
  })

  -- Whether there is something that the PRO has not been given
  abbrev pub put_on_wire : Bool → Panel sys → Panel sys
  put_on_wire true a = record a {
    picture = record a.picture { unsent = false };
    wire = a.wire ++ packet set_dmx_tx_mode (frame_of a.picture);
  }
  put_on_wire false a = a

  abbrev pub transmit : Callback (Panel sys)
  transmit a = ok (put_on_wire a.picture.unsent a)

  abbrev pub rest : Callback (Panel sys)
  rest a = ok a

  -- Seven timers, with the intervals of the node's
  abbrev pub panel_loop : Slots → EventLoop (Panel sys)
  panel_loop slots =
      add_timer slots.client_metrics.last_call 5000000000 rest slots.client_metrics.address (
        add_timer slots.sender.last_call 15000000 transmit slots.sender.address (
          add_timer slots.overlay_metrics.last_call 5000000000 rest slots.overlay_metrics.address (
            add_timer slots.overlay_poll.last_call 0 hear_overlay slots.overlay_poll.address (
              add_timer slots.artnet_metrics.last_call 5000000000 rest slots.artnet_metrics.address
                (add_timer slots.artnet_reply.last_call 1000000000 answer slots.artnet_reply.address
                  (add_timer slots.artnet_poll.last_call 0 hear_artnet slots.artnet_poll.address
                    (record { callbacks = []; timers = [] })))))))

  -- A message that is heard is reacted to.
  pub hear-encode :
      (msg : OverlayMessage) (p : Picture)
      → HasTypes msg
      → msg.protocol_id ≡ overlay_protocol_id
      → hear (received (encode msg)) p ≡ react dmx_universe (overlay_message msg) p
  hear-encode msg p types protocol =
      let read : decode (encode msg) ≡ msg =
        ap decode (sym (append-nil (encode msg))) ∙ decode-encode msg [] types in
      let same : (msg.protocol_id == overlay_protocol_id) ≡ true = ground (arith, protocol) in
      rw (read) (rw (same) refl)

  pub hear-other :
      (bytes : List ℕ) (p : Picture)
      → (u32_at bytes 0 == overlay_protocol_id) ≡ false
      → hear (received bytes) p ≡ p
  unfolding decode
  hear-other bytes p other = rw (other) refl
