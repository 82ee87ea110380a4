-- ===== src/Proto/Layout.antt =====
-- The wire layout of an overlay datagram, and that reading the struct inverts it.
use dmx_enttec_node.Prelude.{
  ℕ, zero, suc, ◌+◌, ◌*◌, ◌%◌, ◌/◌, ◌<◌, ◌≡◌, refl, ap, ◌∙◌, List, [], ◌∷◌, ◌++◌, arith, length,
  take, slice, le16, le32, append_assoc, drop-append, take-append, length-append,
}
use dmx_enttec_node.Proto.{
  DmxOverlay, OverlayMessage, decode_overlays, decode, dmx_frame_size, max_overlays,
  overlay_message_size,
}

abbrev pub encode_overlays : List DmxOverlay → List ℕ
encode_overlays [] = []
encode_overlays (o ∷ os) = le16 o.start ++ (le16 o.length ++ encode_overlays os)

-- The fields in order, each little-endian, with no padding
abbrev pub encode : OverlayMessage → List ℕ
encode m =
    le32 m.protocol_id
    ++ (m.universe ∷ (le16 m.num_overlays ++ (encode_overlays m.overlays ++ m.dmx_data)))

abbrev pub AreShorts : List DmxOverlay → Type 0
AreShorts [] = Unit {0}
AreShorts (o ∷ os) = (o.start < 65536) × (o.length < 65536) × AreShorts os

-- Every field fits its type.
pub record HasTypes (m : OverlayMessage) : Type 0 where
  pub id_fits : m.protocol_id < 65536 * 65536
  pub universe_fits : m.universe < 256
  pub num_fits : m.num_overlays < 65536
  pub all_overlays : length m.overlays ≡ max_overlays
  pub overlays_fit : AreShorts m.overlays
  pub all_data : length m.dmx_data ≡ dmx_frame_size

u16-le16 : (v : ℕ) → v < 65536 → v % 256 + 256 * (v / 256 % 256) ≡ v
u16-le16 v h = omega arith

decode_overlays-encode :
    (os : List DmxOverlay) (rest : List ℕ) (n : ℕ)
    → length os ≡ n
    → AreShorts os
    → decode_overlays n (encode_overlays os ++ rest) ≡ os
unfolding decode_overlays
decode_overlays-encode [] rest zero e h = refl
decode_overlays-encode [] rest (suc n) e h = absurd (omega arith)
decode_overlays-encode (o ∷ os) rest zero e h = absurd (omega arith)
decode_overlays-encode (o ∷ os) rest (suc n) e h = ground (
  arith,
  u16-le16 o.start h.0,
  u16-le16 o.length h.1,
  decode_overlays-encode os rest n (omega arith) h.2,
)

length-encode_overlays : (os : List DmxOverlay) → length (encode_overlays os) ≡ 4 * length os
length-encode_overlays [] = refl
length-encode_overlays (o ∷ os) = omega (arith, length-encode_overlays os)

pub id-le32 :
    (v : ℕ)
    → v < 65536 * 65536
    → v % 65536 % 256
        + 256 * (v % 65536 / 256 % 256)
        + 65536 * (v / 65536 % 256 + 256 * (v / 65536 / 256 % 256))
      ≡ v
id-le32 v h = omega arith

dmx_data-encode :
    (os : List DmxOverlay) (frame rest : List ℕ)
    → length os ≡ max_overlays
    → length frame ≡ dmx_frame_size
    → slice ((encode_overlays os ++ frame) ++ rest) 400 dmx_frame_size ≡ frame
dmx_data-encode os frame rest e f = rw (append_assoc (encode_overlays os) frame rest) (
    ap (take dmx_frame_size) (
      drop-append 400 (encode_overlays os) (frame ++ rest)
        (omega (arith, length-encode_overlays os)))
    ∙ take-append dmx_frame_size frame rest f)

overlays-encode :
    (os : List DmxOverlay) (frame rest : List ℕ)
    → length os ≡ max_overlays
    → AreShorts os
    → decode_overlays max_overlays ((encode_overlays os ++ frame) ++ rest) ≡ os
overlays-encode os frame rest e h =
    rw (append_assoc (encode_overlays os) frame rest)
      (decode_overlays-encode os (frame ++ rest) max_overlays e h)

-- Reading a datagram that has the fields of a message in wire order, and any bytes behind them,
-- gives that message.
pub decode-encode :
    (m : OverlayMessage) (rest : List ℕ) → HasTypes m → decode (encode m ++ rest) ≡ m
unfolding decode
decode-encode m rest h = λ i. record {
  protocol_id = id-le32 m.protocol_id h.id_fits i;
  universe = m.universe;
  num_overlays = u16-le16 m.num_overlays h.num_fits i;
  overlays = overlays-encode m.overlays m.dmx_data rest h.all_overlays h.overlays_fit i;
  dmx_data = dmx_data-encode m.overlays m.dmx_data rest h.all_overlays h.all_data i;
}

pub length-encode : (m : OverlayMessage) → HasTypes m → length (encode m) ≡ overlay_message_size
length-encode m h = omega (
  arith,
  length-append (encode_overlays m.overlays) m.dmx_data,
  length-encode_overlays m.overlays,
  h.all_overlays,
  h.all_data,
)
