-- ===== src/Overlay/Accept.antt =====
-- Which datagrams reach the handler, and as what.
use dmx_enttec_node.Prelude.{
  ℕ, ◌≡◌, List, ◌++◌, length, ltb, ◌==◌, ◌&&◌, not, if◌then◌else◌, Result, ok, arith, length-append,
}
use dmx_enttec_node.Proto.{OverlayMessage, overlay_message_size, overlay_protocol_id, decode}
use dmx_enttec_node.Proto.Layout.{encode, HasTypes, decode-encode, length-encode}
use dmx_enttec_node.Overlay.Server.{on_data}

module _ {S : Type 0} (handler : OverlayMessage → S → Result S) where
  -- On every branch: the handler gets the message if the datagram is long enough and bears the
  -- protocol's identifier, and otherwise nothing happens. The exception is never raised.
  pub on_data_lem :
      (bytes : List ℕ) (s : S)
      → on_data handler bytes s ≡ (
          if not (ltb (length bytes) overlay_message_size)
            && (decode bytes).protocol_id == overlay_protocol_id
          then handler (decode bytes) s
          else ok s)
  unfolding on_data decode
  on_data_lem bytes s = ground arith

  -- A message that is sent in the wire format, with anything behind it, reaches the handler as it
  -- was sent.
  pub on_data-encode :
      (m : OverlayMessage) (rest : List ℕ) (s : S)
      → HasTypes m
      → m.protocol_id ≡ overlay_protocol_id
      → on_data handler (encode m ++ rest) s ≡ handler m s
  on_data-encode m rest s h e = ground (
    arith,
    on_data_lem (encode m ++ rest) s,
    decode-encode m rest h,
    length-append (encode m) rest,
    length-encode m h,
  )
