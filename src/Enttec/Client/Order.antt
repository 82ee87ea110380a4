-- ===== src/Enttec/Client/Order.antt =====
-- ApplyOverlay forgets the order of the overlays: they all copy from one frame of the message.
use mathlib.Core.List.{foldr, Perm}
use mathlib.Core.List.Perm.{foldr-eq}
use mathlib.Core.Bool.{Bool-set}
use dmx_enttec_node.Prelude.{
  ℕ, zero, suc, ◌≡◌, refl, ap, ap₂, sym, ◌∙◌, List, [], ◌∷◌, Bool, true, false, ◌&&◌, ◌||◌, Option,
  Bool-cases, inl, inr, length, get_elem?, get_or, Result, ok, >>=-assoc, ◌>>=◌, given, arith,
}
use dmx_enttec_node.Proto.{OverlayMessage, DmxOverlay, dmx_frame_size}
use dmx_enttec_node.Enttec.Client.Defs.{UsbClient, copy_overlays, apply_overlay}
use dmx_enttec_node.Enttec.Client.Bounds.{
  overlay_fits, overlays_fit, HasArrays, copy_overlays-misfit,
}
use dmx_enttec_node.Enttec.Client.Channels.{
  overlay_covers, overlays_cover, IsValid, IsOverlaid, copy_overlays-IsOverlaid,
}

-- What the loop reads: overlay `i` and the following, `n` in all, where they are there
abbrev pub overlays_read : OverlayMessage → ℕ → ℕ → List (Option DmxOverlay)
overlays_read msg i zero = []
overlays_read msg i (suc n) = get_elem? msg.overlays i ∷ overlays_read msg (suc i) n

module _ (test : Option DmxOverlay → Bool) where
  abbrev either : Option DmxOverlay → Bool → Bool
  either o b = test o || b

  abbrev both : Option DmxOverlay → Bool → Bool
  both o b = test o && b

  either_comm : (a b : Option DmxOverlay) (x : Bool) → either a (either b x) ≡ either b (either a x)
  either_comm a b x = ground arith

  both_comm : (a b : Option DmxOverlay) (x : Bool) → both a (both b x) ≡ both b (both a x)
  both_comm a b x = ground arith

  -- Whether one of them passes a test, and whether all do, whatever the order
  any-perm :
      {xs ys : List (Option DmxOverlay)}
      → Perm xs ys
      → foldr either false xs ≡ foldr either false ys
  any-perm p = foldr-eq Bool-set either either_comm p false

  all-perm :
      {xs ys : List (Option DmxOverlay)} → Perm xs ys → foldr both true xs ≡ foldr both true ys
  all-perm p = foldr-eq Bool-set both both_comm p true

overlays_cover-any :
    (msg : OverlayMessage) (n i k : ℕ)
    → overlays_cover msg i n k
      ≡ foldr (either (λ o. overlay_covers o k)) false (overlays_read msg i n)
overlays_cover-any msg zero i k = refl
overlays_cover-any msg (suc n) i k = rw (overlays_cover-any msg n (suc i) k)

overlays_fit-all :
    (msg : OverlayMessage) (n i : ℕ)
    → overlays_fit msg i n ≡ foldr (both overlay_fits) true (overlays_read msg i n)
overlays_fit-all msg zero i = refl
overlays_fit-all msg (suc n) i = rw (overlays_fit-all msg n (suc i))

-- Frames of one size with the same slots
eq_of_get_or :
    (xs ys : List ℕ) → length xs ≡ length ys → ((k : ℕ) → get_or xs k 0 ≡ get_or ys k 0) → xs ≡ ys
eq_of_get_or [] [] e same = refl
eq_of_get_or [] (y ∷ ys) e same = absurd (omega arith)
eq_of_get_or (x ∷ xs) [] e same = absurd (omega arith)
eq_of_get_or (x ∷ xs) (y ∷ ys) e same =
    ap₂ (λ a bs. a ∷ bs) (same 0) (eq_of_get_or xs ys (omega arith) (λ k. same (suc k)))

-- Two messages of the same data that read the same overlays in another order
module _ (msg msg' : OverlayMessage) (n n' : ℕ) (same_data : msg'.dmx_data ≡ msg.dmx_data)
    (reordered : Perm (overlays_read msg 0 n) (overlays_read msg' 0 n')) where
  same_fit : overlays_fit msg' 0 n' ≡ overlays_fit msg 0 n
  same_fit =
      overlays_fit-all msg' n' 0
      ∙ sym (all-perm overlay_fits reordered)
      ∙ sym (overlays_fit-all msg n 0)

  same_cover : (k : ℕ) → overlays_cover msg' 0 n' k ≡ overlays_cover msg 0 n k
  same_cover k =
      overlays_cover-any msg' n' 0 k
      ∙ sym (any-perm (λ o. overlay_covers o k) reordered)
      ∙ sym (overlays_cover-any msg n 0 k)

  same_arrays : {frame : List ℕ} → HasArrays msg frame → HasArrays msg' frame
  same_arrays a = record {
    data_size = ap length same_data ∙ a.data_size;
    frame_size = a.frame_size;
  }

  same_slot :
      (frame f f' : List ℕ)
      → IsOverlaid msg 0 n frame f
      → IsOverlaid msg' 0 n' frame f'
      → (k : ℕ) → get_or f k 0 ≡ get_or f' k 0
  same_slot frame f f' r r' zero = r.start_code ∙ sym r'.start_code
  same_slot frame f f' r r' (suc k) =
      r.channel k ∙ rw (← same_data, ← same_cover k) (sym (r'.channel k))

  pub copy_overlays-perm :
      (frame : List ℕ)
      → HasArrays msg frame
      → copy_overlays msg 0 n frame ≡ copy_overlays msg' 0 n' frame
  copy_overlays-perm frame a = elim (Bool-cases (overlays_fit msg 0 n)) [
    | inl fit ↦ given (copy_overlays-IsOverlaid msg n 0 frame a fit) λ (f, e, r).
        given (copy_overlays-IsOverlaid msg' n' 0 frame (same_arrays a) (same_fit ∙ fit))
          λ (f', e', r').
            e
            ∙ ap ok (
                eq_of_get_or f f' (r.arrays.frame_size ∙ sym r'.arrays.frame_size)
                  (same_slot frame f f' r r'))
            ∙ sym e'
    | inr misfit ↦
        copy_overlays-misfit msg n 0 frame a misfit
        ∙ sym (copy_overlays-misfit msg' n' 0 frame (same_arrays a) (same_fit ∙ misfit))
  ]

-- The frame of a client
abbrev pub frame_of : Result UsbClient → Result (List ℕ)
frame_of call = call >>= λ c. ok c.serialized_frame

-- Messages with the same data whose overlays, as far as the loop reads them, are the same in any
-- order have the same effect on the frame of a valid client: the same frame, or an access outside
-- the arrays for both.
pub apply_overlay-perm :
    (c : UsbClient) (msg msg' : OverlayMessage) (buffer_overlay : Bool)
    → IsValid c
    → length msg.dmx_data ≡ dmx_frame_size
    → msg'.dmx_data ≡ msg.dmx_data
    → Perm (overlays_read msg 0 msg.num_overlays) (overlays_read msg' 0 msg'.num_overlays)
    → frame_of (apply_overlay c msg buffer_overlay) ≡ frame_of (apply_overlay c msg' buffer_overlay)
unfolding apply_overlay
apply_overlay-perm c msg msg' b v size same_data reordered =
    >>=-assoc (copy_overlays msg 0 msg.num_overlays c.serialized_frame) _ _
    ∙ ap (λ call. call >>= ok)
        (copy_overlays-perm msg msg' msg.num_overlays msg'.num_overlays same_data reordered
          c.serialized_frame (record { data_size = size; frame_size = v.frame_size }))
    ∙ sym (>>=-assoc (copy_overlays msg' 0 msg'.num_overlays c.serialized_frame) _ _)
