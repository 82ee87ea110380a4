-- ===== src/Tests/Overlays.antt =====
-- The wire format, and the overlay server behind the UDP server.
use dmx_enttec_node.Prelude.{
  ℕ, zero, suc, ◌≡◌, refl, List, [], ◌∷◌, ◌++◌, replicate, length-replicate, Result, ok,
  if◌then◌else◌, ltb, ◌==◌, ◌&&◌, not, arith,
}
use dmx_enttec_node.Proto.{
  OverlayMessage, DmxOverlay, decode, overlay_message_size, overlay_protocol_id,
}
use dmx_enttec_node.Proto.Layout.{encode, HasTypes, AreShorts, decode-encode}
use dmx_enttec_node.Network.UdpServer.{UdpServer, received, poll_socket, count}
use dmx_enttec_node.Overlay.Server.{on_data}
use dmx_enttec_node.Overlay.Accept.{on_data_lem}
use dmx_enttec_node.Overlay.Replay.{poll_socket-replay}
use dmx_enttec_node.Tests.Data.{message, wild_message}

abbrev no_overlay : DmxOverlay
no_overlay = record { start = 0; length = 0 }

short : (n : ℕ) → AreShorts (replicate n no_overlay)
short zero = tt
short (suc n) = (omega arith, omega arith, short n)

pub message-HasTypes : HasTypes message
message-HasTypes = record {
  id_fits = omega arith;
  universe_fits = omega arith;
  num_fits = omega arith;
  all_overlays = omega (arith, length-replicate 99 no_overlay);
  overlays_fit = (omega arith, omega arith, short 99);
  all_data = length-replicate {A = ℕ} 512 200;
}

pub wild_message-HasTypes : HasTypes wild_message
wild_message-HasTypes = record {
  id_fits = omega arith;
  universe_fits = omega arith;
  num_fits = omega arith;
  all_overlays = omega (arith, length-replicate 99 no_overlay);
  overlays_fit = (omega arith, omega arith, short 99);
  all_data = length-replicate {A = ℕ} 512 200;
}

decode-encode_example : decode (encode message ++ 1 ∷ 2 ∷ []) ≡ message
decode-encode_example = decode-encode message (1 ∷ 2 ∷ []) message-HasTypes

-- A handler that keeps what it is given
abbrev keep : OverlayMessage → List OverlayMessage → Result (List OverlayMessage)
keep m ms = ok (m ∷ ms)

on_data_lem_example : on_data keep (1 ∷ 2 ∷ []) [] ≡ (
    if not (ltb 2 overlay_message_size) && (decode (1 ∷ 2 ∷ [])).protocol_id == overlay_protocol_id
    then ok (decode (1 ∷ 2 ∷ []) ∷ [])
    else ok [])
on_data_lem_example = on_data_lem keep (1 ∷ 2 ∷ []) []

abbrev pub server : List ℕ → UdpServer
server buffer = record {
  recv_buffer = buffer;
  received_packets_counter = 0;
  received_bytes_counter = 0;
}

abbrev pub fresh : UdpServer
fresh = server (replicate 4096 0)

abbrev used : UdpServer
used = server (encode message ++ replicate 3177 0)

-- The empty datagram
poll_socket-replay_example :
    poll_socket (on_data keep) (λ capacity. received []) used [] ≡ ok (count used [], message ∷ [])
poll_socket-replay_example =
    poll_socket-replay keep used [] (λ capacity. received []) message (replicate 3177 0) 0
      message-HasTypes refl refl (omega arith) refl
