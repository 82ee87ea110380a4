-- ===== src/Network/UdpServer.antt =====
-- libs/network/udp_server.cc: the receive buffer, and the poll of the socket.
use dmx_enttec_node.Prelude.{
  ℕ, ◌+◌, ◌%◌, ◌^◌, List, length, replicate, overwrite, Result, ok, ◌>>=◌,
}

-- What `recvfrom` does with the buffer: it fails, maybe after writing to it (a datagram that is too
-- long), or it writes a datagram to its front.
pub data Recv : Type 0 where
  socket_error : List ℕ → Recv
  received : List ℕ → Recv

-- The buffer is the whole capacity of the vector, of which `reserve` gives at least what it is
-- asked for. The two counters are unsigned and wrap.
pub record UdpServer : Type 0 where
  pub recv_buffer : List ℕ
  pub received_packets_counter : ℕ
  pub received_bytes_counter : ℕ

-- `storage` is what `reserve` allocates; its front is cleared.
unfoldable pub create : List ℕ → ℕ → UdpServer
create storage recv_buffer_size = record {
  recv_buffer = overwrite storage 0 (replicate recv_buffer_size 0);
  received_packets_counter = 0;
  received_bytes_counter = 0;
}

-- The server once a datagram has been received: the counters, too, take the whole capacity.
unfoldable pub count : UdpServer → List ℕ → UdpServer
count u bytes = record u {
  recv_buffer = overwrite u.recv_buffer 0 bytes;
  received_packets_counter = (u.received_packets_counter + 1) % 2 ^ 32;
  received_bytes_counter = (u.received_bytes_counter + length u.recv_buffer) % 2 ^ 64;
}

module _ {S : Type 0} (on_data : List ℕ → S → Result S) where
  -- `recv` is the socket: it is told the capacity. The handler gets the whole buffer.
  unfoldable pub poll_socket : (ℕ → Recv) → UdpServer → S → Result (UdpServer × S)
  unfolding count
  poll_socket recv u s = elim (recv (length u.recv_buffer)) [
    | socket_error bytes ↦ ok (record u { recv_buffer = overwrite u.recv_buffer 0 bytes }, s)
    | received bytes ↦
        let u' = count u bytes in on_data (overwrite u.recv_buffer 0 bytes) s >>= λ s'. ok (u', s')
  ]

unfoldable pub report_metrics : UdpServer → (ℕ × ℕ) × UdpServer
report_metrics u = (
  (u.received_packets_counter, u.received_bytes_counter),
  record u { received_packets_counter = 0; received_bytes_counter = 0 },
)
