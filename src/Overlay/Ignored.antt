-- ===== src/Overlay/Ignored.antt =====
-- What the overlay server behind the UDP server does not pass on.
use dmx_enttec_node.Prelude.{
  ℕ, ◌≤◌, ◌≡◌, refl, List, [], ◌∷◌, ◌++◌, length, drop, overwrite, u32_at, ltb, ◌==◌, false,
  Bool-cases, inl, inr, Result, ok, arith, ◌∙◌, ap,
}
use dmx_enttec_node.Proto.{OverlayMessage, overlay_message_size, overlay_protocol_id}
use dmx_enttec_node.Network.UdpServer.{UdpServer, Recv, socket_error, received, poll_socket, count}
use dmx_enttec_node.Overlay.Server.{on_data}

u32_at-append : (xs ys : List ℕ) → 4 ≤ length xs → u32_at (xs ++ ys) 0 ≡ u32_at xs 0
u32_at-append [] ys h = absurd (omega arith)
u32_at-append (a ∷ []) ys h = absurd (omega arith)
u32_at-append (a ∷ b ∷ []) ys h = absurd (omega arith)
u32_at-append (a ∷ b ∷ c ∷ []) ys h = absurd (omega arith)
u32_at-append (a ∷ b ∷ c ∷ d ∷ xs) ys h = refl

module _ {S : Type 0} (handler : OverlayMessage → S → Result S) where
  on_data-other :
      (bytes : List ℕ) (s : S)
      → (u32_at bytes 0 == overlay_protocol_id) ≡ false
      → on_data handler bytes s ≡ ok s
  unfolding on_data
  on_data-other bytes s other = elim (Bool-cases (ltb (length bytes) overlay_message_size)) [
    | inl short ↦ rw (short) refl
    | inr long ↦ rw (long, other) refl
  ]

  -- A datagram that starts with another identifier only goes to the counters.
  pub poll_socket-other :
      (u : UdpServer) (s : S) (recv : ℕ → Recv) (bytes : List ℕ)
      → 4 ≤ length bytes
      → (u32_at bytes 0 == overlay_protocol_id) ≡ false
      → recv (length u.recv_buffer) ≡ received bytes
      → poll_socket (on_data handler) recv u s ≡ ok (count u bytes, s)
  unfolding poll_socket
  poll_socket-other u s recv bytes h other r =
      let rest = drop (length bytes) u.recv_buffer in
      rw
        (
          r,
          on_data-other (bytes ++ rest) s
              (ap (λ n. n == overlay_protocol_id) (u32_at-append bytes rest h) ∙ other),
          poll_socket,
        )
        refl

  -- Where the socket has nothing, nothing but the buffer changes.
  pub poll_socket-error :
      (u : UdpServer) (s : S) (recv : ℕ → Recv) (bytes : List ℕ)
      → recv (length u.recv_buffer) ≡ socket_error bytes
      → poll_socket (on_data handler) recv u s
        ≡ ok (record u { recv_buffer = overwrite u.recv_buffer 0 bytes }, s)
  unfolding poll_socket
  poll_socket-error u s recv bytes r = rw (r, poll_socket) refl
