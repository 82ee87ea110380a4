-- ===== src/Proto.antt =====
-- libs/proto/overlay_proto.h: the datagram by which a client overlays DMX channels. The struct is
-- packed, and the program runs on little-endian machines.
pub mod Layout
pub mod Show
use dmx_enttec_node.Prelude.{
  ℕ, zero, suc, ◌+◌, ◌*◌, List, [], ◌∷◌, get_or, drop, slice, u16_at, u32_at,
}

abbrev pub overlay_protocol_id : ℕ
overlay_protocol_id = 0x7799

abbrev pub dmx_frame_size : ℕ
dmx_frame_size = 512

abbrev pub max_overlays : ℕ
max_overlays = 100

pub record DmxOverlay : Type 0 where
  pub start : ℕ
  pub length : ℕ

pub record OverlayMessage : Type 0 where
  pub protocol_id : ℕ
  pub universe : ℕ
  pub num_overlays : ℕ
  pub overlays : List DmxOverlay
  pub dmx_data : List ℕ

-- sizeof(OverlayMessage): 4 + 1 + 2 + 100 * (2 + 2) + 512
abbrev pub overlay_message_size : ℕ
overlay_message_size = 919

pub decode_overlays : ℕ → List ℕ → List DmxOverlay
decode_overlays zero bs = []
decode_overlays (suc n) bs =
    record { start = u16_at bs 0; length = u16_at bs 2 } ∷ decode_overlays n (drop 4 bs)

-- `memcpy(&message, data, sizeof(message))`, read through the fields of the packed struct
unfoldable pub decode : List ℕ → OverlayMessage
unfolding decode_overlays
decode bs = record {
  protocol_id = u32_at bs 0;
  universe = get_or bs 4 0;
  num_overlays = u16_at bs 5;
  overlays = decode_overlays max_overlays (drop 7 bs);
  dmx_data = slice bs 407 dmx_frame_size;
}
