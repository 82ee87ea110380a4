-- ===== src/Enttec/Client/Bounds.antt =====
-- When ApplyOverlay stays inside its arrays: the overlays of a message that fit.
use dmx_enttec_node.Prelude.{
  ℕ, zero, suc, ◌+◌, ◌≡◌, refl, List, Bool, true, false, ◌&&◌, leb, Option, none, some,
  Option-cases, inl, inr, length, get_elem?, slice, memcpy, overwrite, length-overwrite,
  length-slice, arith, ok, fault, ◌>>=◌, Bool-cases,
}
use dmx_enttec_node.Proto.{OverlayMessage, DmxOverlay, dmx_frame_size}
use dmx_enttec_node.Enttec.Client.Defs.{copy_overlay, copy_overlays}

-- The overlay lies inside the 512 channels.
abbrev pub overlay_fits : Option DmxOverlay → Bool
overlay_fits none = false
overlay_fits (some o) = leb (o.start + o.length) dmx_frame_size

-- Overlays `i` to `i + n - 1` of the message are there and fit.
abbrev pub overlays_fit : OverlayMessage → ℕ → ℕ → Bool
overlays_fit msg i zero = true
overlays_fit msg i (suc n) = overlay_fits (get_elem? msg.overlays i) && overlays_fit msg (suc i) n

abbrev pub fits : OverlayMessage → Bool
fits msg = overlays_fit msg 0 msg.num_overlays

-- What the two arrays are declared as
pub record HasArrays (msg : OverlayMessage) (frame : List ℕ) : Type 0 where
  pub data_size : length msg.dmx_data ≡ dmx_frame_size
  pub frame_size : length frame ≡ dmx_frame_size + 1

module _ (msg : OverlayMessage) where
  -- The frame after a copy of an overlay that fits
  abbrev pub overlaid : DmxOverlay → List ℕ → List ℕ
  overlaid o frame = overwrite frame (1 + o.start) (slice msg.dmx_data o.start o.length)

  pub copy_overlay-fits :
      (i : ℕ) (frame : List ℕ) (o : DmxOverlay)
      → HasArrays msg frame
      → get_elem? msg.overlays i ≡ some o
      → overlay_fits (some o) ≡ true
      → (copy_overlay msg i frame ≡ ok (overlaid o frame)) × HasArrays msg (overlaid o frame)
  unfolding copy_overlay memcpy
  copy_overlay-fits i frame o a e f = ground (
    arith,
    length-slice msg.dmx_data o.start o.length,
    length-overwrite frame (slice msg.dmx_data o.start o.length) (1 + o.start),
  )

  copy_overlay-misfit :
      (i : ℕ) (frame : List ℕ)
      → HasArrays msg frame
      → overlay_fits (get_elem? msg.overlays i) ≡ false
      → copy_overlay msg i frame ≡ fault
  unfolding copy_overlay memcpy
  copy_overlay-misfit i frame a f = ground arith

  -- If the overlays that the loop reads are there and lie inside the channels, it runs to its end,
  -- with a frame of the same size.
  pub copy_overlays-fits :
      (n i : ℕ) (frame : List ℕ)
      → HasArrays msg frame
      → overlays_fit msg i n ≡ true
      → (frame' : List ℕ) × (copy_overlays msg i n frame ≡ ok frame') × HasArrays msg frame'
  unfolding copy_overlays
  copy_overlays-fits zero i frame a f = (frame, refl, a)
  copy_overlays-fits (suc n) i frame a f = elim (Option-cases (get_elem? msg.overlays i)) [
    | inl e ↦ cc
    | inr (o, e) ↦
        let (e', a') = copy_overlay-fits i frame o a e (ground arith) in
        let (frame', e'', a'') =
          copy_overlays-fits n (suc i) (overlaid o frame) a' (ground arith) in
        (frame', rw (e', ◌>>=◌) e'', a'')
  ]

  -- If one of the overlays that the loop reads is not there or reaches beyond the channels, an
  -- access leaves one of the arrays.
  pub copy_overlays-misfit :
      (n i : ℕ) (frame : List ℕ)
      → HasArrays msg frame
      → overlays_fit msg i n ≡ false
      → copy_overlays msg i n frame ≡ fault
  unfolding copy_overlays
  copy_overlays-misfit zero i frame a f = cc
  copy_overlays-misfit (suc n) i frame a f =
      elim (Bool-cases (overlay_fits (get_elem? msg.overlays i))) [
        | inr no' ↦ rw (copy_overlay-misfit i frame a no', ◌>>=◌)
        | inl fit ↦ elim (Option-cases (get_elem? msg.overlays i)) [
          | inl e ↦ ground arith
          | inr (o, e) ↦
              let (e', a') = copy_overlay-fits i frame o a e (ground arith) in
              rw (e', ◌>>=◌) (copy_overlays-misfit n (suc i) (overlaid o frame) a' (ground arith))
        ]
      ]
