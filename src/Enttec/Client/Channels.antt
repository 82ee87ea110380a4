-- ===== src/Enttec/Client/Channels.antt =====
-- What the operations of the client do to each of the 512 channels, of which channel `k` stands in
-- slot `1 + k` of the serialized frame.
use dmx_enttec_node.Prelude.{
  ℕ, zero, suc, ◌+◌, ◌-◌, ◌<◌, ◌≡◌, refl, ap, ◌∙◌, List, Bool, true, false, ◌&&◌, ◌||◌, leb, ltb,
  Option, none, some, Option-cases, inl, inr, length, get_elem?, get_or, slice, set, overwrite,
  length-overwrite, length-slice, get_or-overwrite, get_or-slice, arith, ok, ◌>>=◌, if◌then◌else◌,
  take-all, memset-some, memcpy-some, get_or-append, get_or-drop, drop, ◌∷◌, [],
}
use dmx_enttec_node.Proto.{OverlayMessage, DmxOverlay, dmx_frame_size}
use dmx_enttec_node.Enttec.Client.Defs.{
  UsbClient, copy_overlays, apply_overlay, update_frame, reapply,
}
use dmx_enttec_node.Enttec.Client.Bounds.{
  overlay_fits, overlays_fit, fits, HasArrays, overlaid, copy_overlay-fits,
}

-- The overlay covers channel `k`.
abbrev pub overlay_covers : Option DmxOverlay → ℕ → Bool
overlay_covers none k = false
overlay_covers (some o) k = leb o.start k && ltb k (o.start + o.length)

-- One of the overlays `i` to `i + n - 1` of the message covers channel `k`.
abbrev pub overlays_cover : OverlayMessage → ℕ → ℕ → ℕ → Bool
overlays_cover msg i zero k = false
overlays_cover msg i (suc n) k =
    overlay_covers (get_elem? msg.overlays i) k || overlays_cover msg (suc i) n k

abbrev pub covers : OverlayMessage → ℕ → Bool
covers msg k = overlays_cover msg 0 msg.num_overlays k

module _ (msg : OverlayMessage) where
  -- One copy sets the channels that the overlay covers, and leaves all else as it was.
  overlaid-channel :
      (o : DmxOverlay) (frame : List ℕ) (k : ℕ)
      → HasArrays msg frame
      → overlay_fits (some o) ≡ true
      → get_or (overlaid msg o frame) (suc k) 0
        ≡ (if overlay_covers (some o) k then get_or msg.dmx_data k 0 else get_or frame (suc k) 0)
  overlaid-channel o frame k a f = ground (
    arith,
    length-slice msg.dmx_data o.start o.length,
    get_or-overwrite frame (slice msg.dmx_data o.start o.length) (1 + o.start) (suc k) 0,
    get_or-slice msg.dmx_data o.start o.length (k - o.start) 0,
  )

  overlaid-start_code :
      (o : DmxOverlay) (frame : List ℕ)
      → HasArrays msg frame
      → overlay_fits (some o) ≡ true
      → get_or (overlaid msg o frame) 0 0 ≡ get_or frame 0 0
  overlaid-start_code o frame a f = ground (
    arith,
    length-slice msg.dmx_data o.start o.length,
    get_or-overwrite frame (slice msg.dmx_data o.start o.length) (1 + o.start) 0 0,
  )

-- `after` is `before` with those channels set that the overlays `i` to `i + n - 1` cover.
pub record IsOverlaid (msg : OverlayMessage) (i n : ℕ) (before after : List ℕ) : Type 0 where
  pub arrays : HasArrays msg after
  pub start_code : get_or after 0 0 ≡ get_or before 0 0
  pub channel :
      (k : ℕ)
      → get_or after (suc k) 0
        ≡ (if overlays_cover msg i n k then get_or msg.dmx_data k 0 else get_or before (suc k) 0)

module _ (msg : OverlayMessage) where
  pub copy_overlays-IsOverlaid :
      (n i : ℕ) (frame : List ℕ)
      → HasArrays msg frame
      → overlays_fit msg i n ≡ true
      → (frame' : List ℕ) × (copy_overlays msg i n frame ≡ ok frame')
        × IsOverlaid msg i n frame frame'
  unfolding copy_overlays
  copy_overlays-IsOverlaid zero i frame a f =
      (frame, refl, record { arrays = a; start_code = refl; channel = λ k. refl })
  copy_overlays-IsOverlaid (suc n) i frame a f = elim (Option-cases (get_elem? msg.overlays i)) [
    | inl e ↦ absurd (ground arith)
    | inr (o, e) ↦
        let fit : overlay_fits (some o) ≡ true = ground arith in
        let (e', a') = copy_overlay-fits msg i frame o a e fit in
        let (frame', e'', r) =
          copy_overlays-IsOverlaid n (suc i) (overlaid msg o frame) a' (ground arith) in
        (
          frame',
          rw (e', ◌>>=◌) e'',
          record {
            arrays = r.arrays;
            start_code = r.start_code ∙ overlaid-start_code msg o frame a fit;
            channel = λ k. ground (arith, r.channel k, overlaid-channel msg o frame k a fit);
          },
        )
  ]

abbrev pub IsBuffered : Option OverlayMessage → Type 0
IsBuffered none = Unit {0}
IsBuffered (some msg) = (length msg.dmx_data ≡ dmx_frame_size) × (fits msg ≡ true)

if-IsBuffered :
    (b : Bool) (m m' : Option OverlayMessage)
    → IsBuffered m
    → IsBuffered m'
    → IsBuffered (if b then m else m')
if-IsBuffered true m m' h h' = h
if-IsBuffered false m m' h h' = h'

-- The state of the client between calls: the frame keeps its size and its start code, and a
-- buffered message fits.
pub record IsValid (c : UsbClient) : Type 0 where
  pub frame_size : length c.serialized_frame ≡ dmx_frame_size + 1
  pub start_code : get_or c.serialized_frame 0 0 ≡ 0
  pub buffered : IsBuffered c.last_overlay_msg

-- The value of channel `k`
abbrev pub channel : UsbClient → ℕ → ℕ
channel c k = get_or c.serialized_frame (suc k) 0

-- Applying a message that fits sets the channels that it covers to its data and leaves the others,
-- marks the frame as new, buffers the message if asked to, touches nothing else, and keeps the
-- state valid.
pub apply_overlay-channel :
    (c : UsbClient) (msg : OverlayMessage) (buffer_overlay : Bool)
    → IsValid c
    → length msg.dmx_data ≡ dmx_frame_size
    → fits msg ≡ true
    → (c' : UsbClient) × (apply_overlay c msg buffer_overlay ≡ ok c')
      × IsValid c'
      × ((k : ℕ) → channel c' k ≡ (if covers msg k then get_or msg.dmx_data k 0 else channel c k))
      × (c' ≡ record c {
        serialized_frame = c'.serialized_frame;
        last_overlay_msg = if buffer_overlay then some msg else c.last_overlay_msg;
        is_new_frame = true;
      })
unfolding apply_overlay
apply_overlay-channel c msg b v ld f =
    let (frame', e, r) =
      copy_overlays-IsOverlaid msg msg.num_overlays 0 c.serialized_frame
        (record { data_size = ld; frame_size = v.frame_size }) f in
    (
      record c {
        serialized_frame = frame';
        last_overlay_msg = if b then some msg else c.last_overlay_msg;
        is_new_frame = true;
      },
      rw (e, ◌>>=◌),
      record {
        frame_size = r.arrays.frame_size;
        start_code = r.start_code ∙ v.start_code;
        buffered = if-IsBuffered b (some msg) c.last_overlay_msg (ld, f) v.buffered;
      },
      r.channel,
      refl,
    )

-- What channel `k` shows of a DMX frame under a buffered message
abbrev pub shown : Option OverlayMessage → List ℕ → ℕ → ℕ
shown none dmx_frame k = get_or dmx_frame k 0
shown (some msg) dmx_frame k =
    if covers msg k then get_or msg.dmx_data k 0 else get_or dmx_frame k 0

-- A DMX frame copied behind the start code
record IsShifted (dmx_frame after : List ℕ) : Type 0 where
  size : length after ≡ 513
  start_code : get_or after 0 0 ≡ 0
  channels : (k : ℕ) → k < 512 → get_or after (suc k) 0 ≡ get_or dmx_frame k 0

shift-IsShifted :
    (cleared dmx_frame : List ℕ)
    → length cleared ≡ 513
    → length dmx_frame ≡ 512
    → IsShifted dmx_frame (set (overwrite cleared 1 dmx_frame) 0 0)
shift-IsShifted [] dmx_frame e f = absurd (omega arith)
shift-IsShifted (x ∷ cs) dmx_frame e f = record {
  size = omega (arith, length-overwrite cs dmx_frame 0 (omega arith));
  start_code = refl;
  channels = λ k h. ground (arith, get_or-append dmx_frame (drop (length dmx_frame) cs) k 0);
}

-- The buffered message, if there is one, is shown over what the frame holds.
reapply-shown :
    (c : UsbClient) (last : Option OverlayMessage)
    → IsValid c
    → IsBuffered last
    → (c' : UsbClient) × (reapply c last ≡ ok c')
      × IsValid c'
      × ((k : ℕ) → channel c' k ≡ shown last (drop 1 c.serialized_frame) k)
      × (c' ≡ record c { serialized_frame = c'.serialized_frame; is_new_frame = c'.is_new_frame })
unfolding reapply
reapply-shown c none v b =
    (c, refl, v, (λ k. ground (arith, get_or-drop 1 c.serialized_frame k 0)), refl)
reapply-shown c (some msg) v b =
    let (c', e, v', ch, rest) = apply_overlay-channel c msg false v b.0 b.1 in
    (
      c',
      e,
      v',
      (λ k. ground (arith, ch k, get_or-drop 1 c.serialized_frame k 0)),
      ground (arith, rest),
    )

add-suc_one : (k : ℕ) → 1 + k ≡ suc k
add-suc_one k = omega arith

shown-eq :
    (last : Option OverlayMessage) (xs ys : List ℕ) (k : ℕ)
    → get_or xs k 0 ≡ get_or ys k 0
    → shown last xs k ≡ shown last ys k
shown-eq none xs ys k e = e
shown-eq (some msg) xs ys k e = rw e

-- A DMX frame sets every channel that the buffered message does not cover, the covered ones show
-- the message; the frame is new, and nothing else changes.
pub update_frame-shown :
    (c : UsbClient) (dmx_frame : List ℕ)
    → IsValid c
    → length dmx_frame ≡ dmx_frame_size
    → (c' : UsbClient) × (update_frame c dmx_frame ≡ ok c')
      × IsValid c'
      × ((k : ℕ) → k < dmx_frame_size → channel c' k ≡ shown c.last_overlay_msg dmx_frame k)
      × (c' ≡ record c { serialized_frame = c'.serialized_frame; is_new_frame = true })
unfolding update_frame
update_frame-shown c dmx v ld =
    let (cleared, e1, filled) = memset-some c.serialized_frame 0 513 (omega arith) in
    let e2 =
      memcpy-some cleared dmx 1 0 (length dmx) (omega (arith, filled.size)) (omega arith)
      ∙ ap (λ ys. some (overwrite cleared 1 ys)) (take-all (length dmx) dmx refl) in
    let frame = set (overwrite cleared 1 dmx) 0 0 in
    let shift = shift-IsShifted cleared dmx (filled.size ∙ v.frame_size) ld in
    let c1 : UsbClient = record c { serialized_frame = frame } in
    let (c', e3, v', ch, rest) =
      reapply-shown c1 c.last_overlay_msg
        (record { frame_size = shift.size; start_code = shift.start_code; buffered = v.buffered })
        v.buffered in
    (
      record c' { is_new_frame = true },
      ground (arith, e1, e2, e3),
      record { frame_size = v'.frame_size; start_code = v'.start_code; buffered = v'.buffered },
      (λ k h.
          ch k
          ∙ shown-eq c.last_overlay_msg (drop 1 frame) dmx k (
              get_or-drop 1 frame k 0
              ∙ ap (λ j. get_or frame j 0) (add-suc_one k)
              ∙ shift.channels k h)),
      ground (arith, rest),
    )
