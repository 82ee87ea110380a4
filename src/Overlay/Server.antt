-- ===== src/Overlay/Server.antt =====
-- OverlayServer::OnData.
use dmx_enttec_node.Prelude.{
  ℕ, List, length, ltb, ◌==◌, not, if◌then◌else◌, u32_at, Result, ok, wrong_protocol_id, throw_if,
  ◌>>◌,
}
use dmx_enttec_node.Proto.{OverlayMessage, overlay_message_size, overlay_protocol_id, decode}

abbrev pub overlay_recv_buffer_size : ℕ
overlay_recv_buffer_size = 4096

-- `handler` is IOverlayHandler::OnOverlayMessage over the state that it changes. The identifier is
-- compared as an `int`, of which 0x7799 has one bit pattern.
module _ {S : Type 0} (handler : OverlayMessage → S → Result S) where
  unfoldable pub on_data : List ℕ → S → Result S
  on_data bytes s =
      if ltb (length bytes) overlay_message_size
      then ok s
      else if not (u32_at bytes 0 == overlay_protocol_id)
      then ok s
      else do
        let message = decode bytes
        throw_if (not (message.protocol_id == overlay_protocol_id)) wrong_protocol_id
        handler message s
