-- ===== src/Overlay/Replay.antt =====
-- The overlay server behind the UDP server, which hands it the whole receive buffer and not the
-- bytes that came in.
use dmx_enttec_node.Prelude.{
  ℕ, ◌≡◌, List, ◌++◌, length, take, drop, overwrite, length-take, take-append-drop, take-append_le,
  Result, ok, ◌>>=◌, arith, ◌≤◌,
}
use dmx_enttec_node.Proto.{OverlayMessage, overlay_message_size, overlay_protocol_id}
use dmx_enttec_node.Proto.Layout.{encode, HasTypes, length-encode}
use dmx_enttec_node.Network.UdpServer.{UdpServer, Recv, received, poll_socket, count}
use dmx_enttec_node.Overlay.Server.{on_data}
use dmx_enttec_node.Overlay.Accept.{on_data-encode}

-- Writing a prefix of what the buffer starts with leaves the buffer as it was.
overwrite-take :
    (xs rest : List ℕ) (k : ℕ) → k ≤ length xs → overwrite (xs ++ rest) 0 (take k xs) ≡ xs ++ rest
overwrite-take xs rest k h =
    ground (arith, length-take k xs, take-append_le k xs rest h, take-append-drop k (xs ++ rest))

module _ {S : Type 0} (handler : OverlayMessage → S → Result S) where
  -- A datagram with a message in the wire format is handled as that message, whatever the buffer
  -- held before; both counters go up.
  pub poll_socket-encode :
      (u : UdpServer) (s : S) (recv : ℕ → Recv) (m : OverlayMessage)
      → HasTypes m
      → m.protocol_id ≡ overlay_protocol_id
      → recv (length u.recv_buffer) ≡ received (encode m)
      → poll_socket (on_data handler) recv u s ≡ (handler m s >>= λ s'. ok (count u (encode m), s'))
  unfolding poll_socket
  poll_socket-encode u s recv m h e r =
      ground (arith, r, on_data-encode handler m (drop (length (encode m)) u.recv_buffer) s h e)

  -- Once a message stands in the receive buffer, every datagram that is a prefix of it has the
  -- message handled once more, the empty datagram included.
  pub poll_socket-replay :
      (u : UdpServer) (s : S) (recv : ℕ → Recv) (m : OverlayMessage) (rest : List ℕ) (k : ℕ)
      → HasTypes m
      → m.protocol_id ≡ overlay_protocol_id
      → u.recv_buffer ≡ encode m ++ rest
      → k ≤ overlay_message_size
      → recv (length u.recv_buffer) ≡ received (take k (encode m))
      → poll_socket (on_data handler) recv u s
        ≡ (handler m s >>= λ s'. ok (count u (take k (encode m)), s'))
  unfolding poll_socket
  poll_socket-replay u s recv m rest k h e b le r = ground (
    arith,
    r,
    b,
    overwrite-take (encode m) rest k (omega (arith, length-encode m h)),
    on_data-encode handler m rest s h e,
  )
