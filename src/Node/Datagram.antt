-- ===== src/Node/Datagram.antt =====
-- A datagram on its way from the socket to the frame of the USB client.
use dmx_enttec_node.Prelude.{
  ℕ, ◌≡◌, refl, ◌∙◌, ap, length, get_or, true, false, if◌then◌else◌, some, ok, fault, ◌>>=◌, arith,
}
use dmx_enttec_node.Proto.{OverlayMessage, overlay_protocol_id, dmx_frame_size}
use dmx_enttec_node.Proto.Layout.{encode, HasTypes}
use dmx_enttec_node.Network.UdpServer.{UdpServer, Recv, received, poll_socket, count}
use dmx_enttec_node.Overlay.Server.{on_data}
use dmx_enttec_node.Overlay.Replay.{poll_socket-encode}
use dmx_enttec_node.Enttec.Client.Defs.{UsbClient, apply_overlay}
use dmx_enttec_node.Enttec.Client.Bounds.{fits, copy_overlays-misfit}
use dmx_enttec_node.Enttec.Client.Channels.{IsValid, channel, covers, apply_overlay-channel}
use dmx_enttec_node.Node.Handlers.{on_overlay_message}

apply_overlay-misfit :
    (c : UsbClient) (m : OverlayMessage)
    → IsValid c
    → length m.dmx_data ≡ dmx_frame_size
    → fits m ≡ false
    → apply_overlay c m true ≡ fault
unfolding apply_overlay
apply_overlay-misfit c m v ld f =
    rw
      (
        copy_overlays-misfit m m.num_overlays 0 c.serialized_frame
            (record { data_size = ld; frame_size = v.frame_size }) f,
        ◌>>=◌,
      )
      refl

module _ (dmx_universe : ℕ) where
  ours :
      (m : OverlayMessage) (c : UsbClient)
      → m.universe ≡ dmx_universe
      → on_overlay_message dmx_universe m c ≡ apply_overlay c m true
  unfolding on_overlay_message
  ours m c same = ground arith

  -- A datagram of the node's universe with an overlay that is not there or reaches beyond the
  -- channels makes the node leave one of its arrays, whatever the state of the server.
  pub poll_socket-misfit :
      (u : UdpServer) (c : UsbClient) (recv : ℕ → Recv) (m : OverlayMessage)
      → IsValid c
      → HasTypes m
      → m.protocol_id ≡ overlay_protocol_id
      → m.universe ≡ dmx_universe
      → fits m ≡ false
      → recv (length u.recv_buffer) ≡ received (encode m)
      → poll_socket (on_data (on_overlay_message dmx_universe)) recv u c ≡ fault
  poll_socket-misfit u c recv m v h id same f r =
      poll_socket-encode (on_overlay_message dmx_universe) u c recv m h id r
      ∙ rw (ours m c same, apply_overlay-misfit c m v h.all_data f, ◌>>=◌) refl

  -- A datagram of the node's universe that fits sets exactly the channels that it covers to its
  -- data, is buffered, and leaves the client valid with a new frame.
  pub poll_socket-channel :
      (u : UdpServer) (c : UsbClient) (recv : ℕ → Recv) (m : OverlayMessage)
      → IsValid c
      → HasTypes m
      → m.protocol_id ≡ overlay_protocol_id
      → m.universe ≡ dmx_universe
      → fits m ≡ true
      → recv (length u.recv_buffer) ≡ received (encode m)
      → (c' : UsbClient) × (poll_socket (on_data (on_overlay_message dmx_universe)) recv u c
          ≡ ok (count u (encode m), c'))
        × IsValid c'
        × ((k : ℕ) → channel c' k ≡ (if covers m k then get_or m.dmx_data k 0 else channel c k))
        × (c'.last_overlay_msg ≡ some m)
        × (c'.is_new_frame ≡ true)
  poll_socket-channel u c recv m v h id same f r =
      let (c', e, v', ch, rest) = apply_overlay-channel c m true v h.all_data f in
      (
        c',
        poll_socket-encode (on_overlay_message dmx_universe) u c recv m h id r
            ∙ rw (ours m c same, e, ◌>>=◌) refl,
        v',
        ch,
        ap UsbClient.last_overlay_msg rest,
        ap UsbClient.is_new_frame rest,
      )
