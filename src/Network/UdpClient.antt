-- ===== src/Network/UdpClient.antt =====
-- libs/network/udp_client.cc: what SendData counts and sends, and the report of the counters.
use dmx_enttec_node.Prelude.{ℕ, ◌+◌, ◌%◌, ◌^◌, List, length}

-- The two counters are unsigned and wrap.
pub record UdpClient : Type 0 where
  pub sent_packets_counter : ℕ
  pub sent_bytes_counter : ℕ

-- The datagram that `sendto` is given, and the client after the call; what `sendto` returns is
-- ignored.
unfoldable pub send_data : UdpClient → List ℕ → List ℕ × UdpClient
send_data c data' = (
  data',
  record {
    sent_packets_counter = (c.sent_packets_counter + 1) % 2 ^ 32;
    sent_bytes_counter = (c.sent_bytes_counter + length data') % 2 ^ 64;
  },
)

-- The two numbers that are logged, and the client after it
unfoldable pub report_metrics : UdpClient → (ℕ × ℕ) × UdpClient
report_metrics c = (
  (c.sent_packets_counter, c.sent_bytes_counter),
  record { sent_packets_counter = 0; sent_bytes_counter = 0 },
)
