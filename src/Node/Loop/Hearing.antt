-- ===== src/Node/Loop/Hearing.antt =====
-- The polls of the two sockets, and what the node's picture comes to.
use dmx_enttec_node.Prelude.{
  ℕ, ◌+◌, ◌≤◌, ◌≡◌, refl, sym, ap, subst, ◌∙◌, given, List, [], ◌∷◌, length, overwrite,
  length-overwrite, ◌==◌, true, ok, ◌>>=◌, Bool-cases, inl, inr, arith,
}
use dmx_enttec_node.Proto.{OverlayMessage, overlay_protocol_id, dmx_frame_size}
use dmx_enttec_node.Proto.Layout.{encode, HasTypes}
use dmx_enttec_node.Network.UdpServer.{UdpServer, Recv, socket_error, received, poll_socket, count}
use dmx_enttec_node.Overlay.Server.{on_data}
use dmx_enttec_node.Overlay.Replay.{poll_socket-encode}
use dmx_enttec_node.Overlay.Ignored.{poll_socket-other, poll_socket-error}
use dmx_enttec_node.Artnet.{poll_artnet, dmx_handler}
use dmx_enttec_node.Enttec.UsbPro.Driver.{Driver, IsWire}
use dmx_enttec_node.Enttec.Client.Defs.{UsbClient}
use dmx_enttec_node.Node.Handlers.{dmx_message, overlay_message, on_overlay_message}
use dmx_enttec_node.Node.Spec.{Picture, react}
use dmx_enttec_node.Node.Refine.{on_dmx_message-Holds, on_overlay_message-Holds}
use dmx_enttec_node.Node.Loop.{
  System, Running, dmx_messages, poll_artnet_socket, poll_overlay_socket,
}
use dmx_enttec_node.Node.Loop.Sound.{IsSoundRecv, written, AreFrames, IsSoundSystem}
use dmx_enttec_node.Node.Loop.Panel.{
  Panel, react_all, hear, hear_artnet, hear_overlay, hear-encode, hear-other,
}
use dmx_enttec_node.Node.Loop.Matches.{panel, Shows, Matches}

module _ (sys : System) (v : Driver) (w : IsWire v) (h dmx_universe capacity : ℕ) where
  -- The messages that `artnet_read` hands over, one after the other
  messages-Matches :
      (messages : List (List ℕ × ℕ)) (s : Running sys v) (p : Picture)
      → AreFrames messages
      → Shows sys v w h dmx_universe capacity s p
      → (s' : Running sys v) × (dmx_messages sys v h dmx_universe messages s ≡ ok s')
        × (panel sys v w h dmx_universe capacity s' (react_all sys dmx_universe capacity messages p)
            ≡ panel sys v w h dmx_universe capacity s
                (react_all sys dmx_universe capacity messages p))
        × Shows sys v w h dmx_universe capacity s' (react_all sys dmx_universe capacity messages p)
  unfolding dmx_messages
  messages-Matches [] s p frames shows = (s, refl, refl, shows)
  messages-Matches ((frame, universe) ∷ messages) s p (size, frames) shows =
      let sized : (length frame == dmx_frame_size) ≡ true = ground (arith, size) in
      given (on_dmx_message-Holds dmx_universe s.client p frame universe shows.held size)
        (λ (c, e, held, same).
          let s1 : Running sys v = record s {
            client = c;
            packets_received_counter = s.packets_received_counter + 1;
          } in
          given
            (messages-Matches messages s1 (react dmx_universe (dmx_message frame universe) p) frames
              (record {
                held = held;
                connected = rw (same) shows.connected;
                capacity_kept = shows.capacity_kept;
              }))
            (λ (s2, e2, panels, shows2). (s2, rw (sized, e, dmx_handler) e2, panels, shows2)))

  pub poll_artnet_socket-Matches :
      IsSoundSystem sys
      → Matches sys v w h dmx_universe capacity
          (poll_artnet_socket sys v h dmx_universe)
          (hear_artnet sys dmx_universe capacity)
  unfolding poll_artnet_socket poll_artnet
  poll_artnet_socket-Matches sound s p shows =
      let w1 = (sys.select s.world).1 in
      let messages = (sys.artnet_read w1).0 in
      elim (Bool-cases ((sys.select s.world).0 == 1)) [
        | inr nothing ↦ record {
          s' = record s { world = w1 };
          p' = p;
          returns = rw (nothing) refl;
          panel_returns = rw (nothing) refl;
          shows = record {
            held = shows.held;
            connected = shows.connected;
            capacity_kept = shows.capacity_kept;
          };
        }
        | inl readable ↦
            let s1 : Running sys v = record s { world = (sys.artnet_read w1).1 } in
            given
              (messages-Matches messages s1 p (sound.frames w1) (record {
                held = shows.held;
                connected = shows.connected;
                capacity_kept = shows.capacity_kept;
              }))
              (λ (s', e, panels, shows'). record {
                s' = s';
                p' = react_all sys dmx_universe capacity messages p;
                returns = rw (readable) e;
                panel_returns = rw (readable) (ap ok (sym panels));
                shows = shows';
              })
      ]

  -- What the poll of the overlay socket leaves, with the server and the client
  abbrev pub polled : Running sys v → UdpServer → UsbClient → Running sys v
  polled s u c = record s {
    client = c;
    server = u;
    world = (sys.recv (length s.server.recv_buffer) s.world).1;
  }

  abbrev pub socket : Running sys v → ℕ → Recv
  socket s n = (sys.recv n s.world).0

  pub poll_overlay_socket-ok :
      (s : Running sys v) (u : UdpServer) (c : UsbClient)
      → poll_socket (on_data (on_overlay_message dmx_universe)) (socket s) s.server s.client
        ≡ ok (u, c)
      → poll_overlay_socket sys v h dmx_universe s ≡ ok (polled s u c)
  unfolding poll_overlay_socket
  poll_overlay_socket-ok s u c e = rw (e, ◌>>=◌) refl

  pub received-ok :
      (s : Running sys v) (msg : OverlayMessage) (c : UsbClient)
      → socket s (length s.server.recv_buffer) ≡ received (encode msg)
      → HasTypes msg
      → msg.protocol_id ≡ overlay_protocol_id
      → on_overlay_message dmx_universe msg s.client ≡ ok c
      → poll_overlay_socket sys v h dmx_universe s ≡ ok (polled s (count s.server (encode msg)) c)
  received-ok s msg c r types protocol e =
      poll_overlay_socket-ok s (count s.server (encode msg)) c (
        poll_socket-encode (on_overlay_message dmx_universe) s.server s.client (socket s) msg types
          protocol r
        ∙ rw (e, ◌>>=◌) refl)

  kept_size :
      (s : Running sys v) (p : Picture) (bytes : List ℕ)
      → Shows sys v w h dmx_universe capacity s p
      → length bytes ≤ length s.server.recv_buffer
      → length (overwrite s.server.recv_buffer 0 bytes) ≡ capacity
  kept_size s p bytes shows le =
      length-overwrite s.server.recv_buffer bytes 0 (omega arith) ∙ shows.capacity_kept

  counted_size :
      (s : Running sys v) (p : Picture) (bytes : List ℕ)
      → Shows sys v w h dmx_universe capacity s p
      → length bytes ≤ length s.server.recv_buffer
      → length (count s.server bytes).recv_buffer ≡ capacity
  unfolding count
  counted_size s p bytes shows le = kept_size s p bytes shows le

  received-Matches :
      (s : Running sys v) (p : Picture) (got : Recv)
      → socket s (length s.server.recv_buffer) ≡ got
      → IsSoundRecv got
      → length (written got) ≤ length s.server.recv_buffer
      → Shows sys v w h dmx_universe capacity s p
      → (u : UdpServer) × (c : UsbClient) × (p' : Picture) × (poll_overlay_socket sys v h
            dmx_universe s
          ≡ ok (polled s u c))
        × (hear sys dmx_universe capacity got p ≡ p')
        × Shows sys v w h dmx_universe capacity (polled s u c) p'
  received-Matches s p (socket_error bytes) r sound le shows =
      let u : UdpServer = record (s.server) {
        recv_buffer = overwrite s.server.recv_buffer 0 bytes;
      } in
      (
        u,
        s.client,
        p,
        poll_overlay_socket-ok s u s.client (
            poll_socket-error (on_overlay_message dmx_universe) s.server s.client (socket s) bytes
              r),
        refl,
        record {
          held = shows.held;
          connected = shows.connected;
          capacity_kept = kept_size s p bytes shows le;
        },
      )
  received-Matches s p (received bytes) r (inr (long, other)) le shows = (
    count s.server bytes,
    s.client,
    p,
    poll_overlay_socket-ok s (count s.server bytes) s.client (
        poll_socket-other (on_overlay_message dmx_universe) s.server s.client (socket s) bytes long
          other r),
    hear-other sys dmx_universe capacity bytes p other,
    record {
      held = shows.held;
      connected = shows.connected;
      capacity_kept = counted_size s p bytes shows le;
    },
  )
  received-Matches s p (received bytes) r (inl m) le shows =
      let msg = m.message in
      given
        (on_overlay_message-Holds dmx_universe s.client p msg shows.held (m.types.all_data, m.fit))
        (λ (c, e, held, same). (
          count s.server (encode msg),
          c,
          react dmx_universe (overlay_message msg) p,
          received-ok s msg c (r ∙ ap (λ bs. received bs) m.encoded) m.types m.protocol e,
          ap (λ bs. hear sys dmx_universe capacity (received bs) p) m.encoded
              ∙ hear-encode sys dmx_universe capacity msg p m.types m.protocol,
          record {
            held = held;
            connected = rw (same) shows.connected;
            capacity_kept =
                counted_size s p (encode msg) shows
                  (subst (λ bs. length bs ≤ length s.server.recv_buffer) m.encoded le);
          },
        ))

  pub poll_overlay_socket-Matches :
      IsSoundSystem sys
      → Matches sys v w h dmx_universe capacity
          (poll_overlay_socket sys v h dmx_universe)
          (hear_overlay sys dmx_universe capacity)
  poll_overlay_socket-Matches sound s p shows =
      let n = length s.server.recv_buffer in
      given
        (received-Matches s p (socket s n) refl (sound.datagrams n s.world) (sound.within n s.world)
          shows)
        (λ (u, c, p', e, hears, shows'). record {
          s' = polled s u c;
          p' = p';
          returns = e;
          panel_returns =
              ap
                (λ k.
                  let a : Panel sys = record {
                    picture = hear sys dmx_universe capacity (sys.recv k s.world).0 p;
                    wire = w.sent s.device;
                    world = (sys.recv k s.world).1;
                  } in
                  ok a)
                (sym shows.capacity_kept)
              ∙ ap
                  (λ q.
                    let a : Panel sys = record {
                      picture = q;
                      wire = w.sent s.device;
                      world = (sys.recv n s.world).1;
                    } in
                    ok a)
                  hears;
          shows = shows';
        })
