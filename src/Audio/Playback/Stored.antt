-- ===== src/Audio/Playback/Stored.antt =====
-- The stores that the loops over frames and channels of WriteCallback make.
use dmx_enttec_node.Prelude.{
  ℕ, zero, suc, ◌+◌, ◌*◌, ◌≤◌, ◌<◌, List, [], ◌∷◌, ◌++◌, length, take, drop, replicate, ◌≡◌, refl,
  sym, ap, map, leb, true, subst, given, ◌∙◌, append_assoc, length-drop, drop-add, take-add,
  replicate-add, ok, arith,
}
use dmx_enttec_node.Audio.Playback.Areas.{
  at_frame, moved-at_frame, map-at_frame_zero, channel_addresses, frame_addresses, addresses,
  addresses-append, suc_mul, zero_mul,
}
use dmx_enttec_node.Audio.Playback.{
  SoundIoChannelArea, Store, SoundIoOutStream, write_channels, write_frames, zero_channels,
  zero_frames,
}

-- All bytes that are stored, in order
abbrev pub stored : List Store → List ℕ
stored [] = []
stored (store ∷ stores) = store.bytes ++ stored stores

pub stored-append : (s t : List Store) → stored (s ++ t) ≡ stored s ++ stored t
stored-append [] t = refl
stored-append (x ∷ s) t =
    ap (λ ys. x.bytes ++ ys) (stored-append s t) ∙ sym (append_assoc x.bytes (stored s) (stored t))

-- What libsoundio documents: a frame has one sample for each channel, no more frames are granted
-- than are asked for, and the areas are those of the channels.
pub record IsOutStream {Stream : Type 0} (os : SoundIoOutStream Stream) : Type 0 where
  pub frame_size : os.bytes_per_frame ≡ os.channel_count * os.bytes_per_sample
  pub frame_positive : 0 < os.bytes_per_frame
  pub granted : (n : ℕ) (s : Stream) → (os.begin_write n s).frame_count ≤ n
  pub areas : (n : ℕ) (s : Stream) → length (os.begin_write n s).areas ≡ os.channel_count

fits : (n : ℕ) (src : List ℕ) → n ≤ length src → leb n (length src) ≡ true
fits n src h = ground arith

module _ {Stream : Type 0} (os : SoundIoOutStream Stream) where
  write_channels-stored :
      (n f : ℕ) (areas : List SoundIoChannelArea) (src : List ℕ)
      → length areas ≡ n
      → n * os.bytes_per_sample ≤ length src
      → (stores : List Store) × (write_channels os n (map (at_frame f) areas) src
          ≡ ok (stores, map (at_frame (suc f)) areas, drop (n * os.bytes_per_sample) src))
        × (stored stores ≡ take (n * os.bytes_per_sample) src)
        × (addresses stores ≡ channel_addresses f areas)
  unfolding write_channels
  write_channels-stored zero f [] src ha hs =
      ([], rw (zero_mul os.bytes_per_sample) refl, rw (zero_mul os.bytes_per_sample) refl, refl)
  write_channels-stored zero f (area ∷ areas) src ha hs = absurd (omega arith)
  write_channels-stored (suc n) f [] src ha hs = absurd (omega arith)
  write_channels-stored (suc n) f (area ∷ areas) src ha hs =
      let bps = os.bytes_per_sample in
      let split = suc_mul n bps in
      given
        (write_channels-stored n f areas (drop bps src) (omega arith)
          (omega (arith, split, length-drop bps src)))
        (λ (stores, e, b, a). (
          record { address = area.ptr + f * area.step; bytes = take bps src } ∷ stores,
          rw (e, fits bps src (omega (arith, split)))
              (rw (moved-at_frame f area, split, drop-add bps (n * bps) (bps + n * bps) src refl)
                refl),
          ap (λ ys. take bps src ++ ys) b ∙ sym (take-add bps (n * bps) (suc n * bps) src split),
          ap (λ ys. (area.ptr + f * area.step) ∷ ys) a,
        ))

  module _ (io : IsOutStream os) where
    write_channels-frame :
        (f : ℕ) (areas : List SoundIoChannelArea) (src : List ℕ)
        → length areas ≡ os.channel_count
        → os.bytes_per_frame ≤ length src
        → (stores : List Store) × (write_channels os os.channel_count (map (at_frame f) areas) src
            ≡ ok (stores, map (at_frame (suc f)) areas, drop os.bytes_per_frame src))
          × (stored stores ≡ take os.bytes_per_frame src)
          × (addresses stores ≡ channel_addresses f areas)
    write_channels-frame f areas src ha hs =
        subst
          (λ size.
            (stores : List Store) × (write_channels os os.channel_count (map (at_frame f) areas) src
              ≡ ok (stores, map (at_frame (suc f)) areas, drop size src))
            × (stored stores ≡ take size src)
            × (addresses stores ≡ channel_addresses f areas))
          (sym io.frame_size)
          (write_channels-stored os.channel_count f areas src ha (omega (arith, io.frame_size)))

    frames-stored :
        (m f : ℕ) (areas : List SoundIoChannelArea) (src : List ℕ)
        → length areas ≡ os.channel_count
        → m * os.bytes_per_frame ≤ length src
        → (stores : List Store) × (write_frames os m (map (at_frame f) areas) src
            ≡ ok (stores, drop (m * os.bytes_per_frame) src))
          × (stored stores ≡ take (m * os.bytes_per_frame) src)
          × (addresses stores ≡ frame_addresses f m areas)
    unfolding write_frames
    frames-stored zero f areas src ha hs =
        ([], rw (zero_mul os.bytes_per_frame) refl, rw (zero_mul os.bytes_per_frame) refl, refl)
    frames-stored (suc m) f areas src ha hs =
        let bpf = os.bytes_per_frame in
        let split = suc_mul m bpf in
        given (write_channels-frame f areas src ha (omega (arith, split))) (λ (stores, e, b, a).
          given
            (frames-stored m (suc f) areas (drop bpf src) ha
              (omega (arith, split, length-drop bpf src)))
            (λ (stores', e', b', a'). (
              stores ++ stores',
              rw (e, e', split)
                  (ap (λ d. ok (stores ++ stores', d)) (sym (drop-add bpf (m * bpf) _ src refl))),
              stored-append stores stores'
                  ∙ rw (b, b', split) (sym (take-add bpf (m * bpf) _ src refl)),
              addresses-append stores stores' ∙ rw (a, a') refl,
            )))

    -- From the areas that a call has granted on
    pub write_frames-stored :
        (m : ℕ) (areas : List SoundIoChannelArea) (src : List ℕ)
        → length areas ≡ os.channel_count
        → m * os.bytes_per_frame ≤ length src
        → (stores : List Store) × (write_frames os m areas src
            ≡ ok (stores, drop (m * os.bytes_per_frame) src))
          × (stored stores ≡ take (m * os.bytes_per_frame) src)
          × (addresses stores ≡ frame_addresses 0 m areas)
    write_frames-stored m areas src ha hs =
        given (frames-stored m 0 areas src ha hs) (λ (stores, e, b, a). (
          stores,
          ap (λ start. write_frames os m start src) (sym (map-at_frame_zero areas)) ∙ e,
          b,
          a,
        ))

    zero_channels-stored :
        (n f : ℕ) (areas : List SoundIoChannelArea)
        → length areas ≡ n
        → (stores : List Store) × (zero_channels os n (map (at_frame f) areas)
            ≡ ok (stores, map (at_frame (suc f)) areas))
          × (stored stores ≡ replicate (n * os.bytes_per_sample) 0)
          × (addresses stores ≡ channel_addresses f areas)
    unfolding zero_channels
    zero_channels-stored zero f [] ha = ([], refl, rw (zero_mul os.bytes_per_sample) refl, refl)
    zero_channels-stored zero f (area ∷ areas) ha = absurd (omega arith)
    zero_channels-stored (suc n) f [] ha = absurd (omega arith)
    zero_channels-stored (suc n) f (area ∷ areas) ha =
        given (zero_channels-stored n f areas (omega arith)) (λ (stores, e, b, a). (
          record { address = area.ptr + f * area.step; bytes = replicate os.bytes_per_sample 0 }
              ∷ stores,
          rw (e) (rw (moved-at_frame f area) refl),
          rw (b, suc_mul n os.bytes_per_sample) (replicate-add os.bytes_per_sample _ 0),
          ap (λ ys. (area.ptr + f * area.step) ∷ ys) a,
        ))

    zeros-stored :
        (m f : ℕ) (areas : List SoundIoChannelArea)
        → length areas ≡ os.channel_count
        → (stores : List Store) × (zero_frames os m (map (at_frame f) areas) ≡ ok stores)
          × (stored stores ≡ replicate (m * os.bytes_per_frame) 0)
          × (addresses stores ≡ frame_addresses f m areas)
    unfolding zero_frames
    zeros-stored zero f areas ha = ([], refl, rw (zero_mul os.bytes_per_frame) refl, refl)
    zeros-stored (suc m) f areas ha =
        given (zero_channels-stored os.channel_count f areas ha) (λ (stores, e, b, a).
          given (zeros-stored m (suc f) areas ha) (λ (stores', e', b', a'). (
            stores ++ stores',
            rw (e, e') refl,
            stored-append stores stores'
                ∙ rw (b, b', suc_mul m os.bytes_per_frame, sym io.frame_size)
                    (replicate-add os.bytes_per_frame _ 0),
            addresses-append stores stores' ∙ rw (a, a') refl,
          )))

    pub zero_frames-stored :
        (m : ℕ) (areas : List SoundIoChannelArea)
        → length areas ≡ os.channel_count
        → (stores : List Store) × (zero_frames os m areas ≡ ok stores)
          × (stored stores ≡ replicate (m * os.bytes_per_frame) 0)
          × (addresses stores ≡ frame_addresses 0 m areas)
    zero_frames-stored m areas ha = given (zeros-stored m 0 areas ha) (λ (stores, e, b, a).
        (stores, ap (zero_frames os m) (sym (map-at_frame_zero areas)) ∙ e, b, a))
