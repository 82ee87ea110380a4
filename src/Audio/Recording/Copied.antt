-- ===== src/Audio/Recording/Copied.antt =====
-- What the loops over frames and channels of ReadCallback copy into the buffer.
use dmx_enttec_node.Prelude.{
  ℕ, zero, suc, ◌+◌, ◌*◌, ◌^◌, ◌≤◌, ◌<◌, List, [], ◌∷◌, ◌++◌, map, length, drop, replicate,
  overwrite, ◌≡◌, refl, sym, ap, ◌∙◌, append_assoc, append-nil, length-append, length-drop,
  length-replicate, drop-add, take-all, memcpy, memcpy-some, Option, none, some, ok, arith,
}
use dmx_enttec_node.Audio.Playback.{SoundIoChannelArea}
use dmx_enttec_node.Audio.Playback.Callback.{int_mul-ok}
use dmx_enttec_node.Audio.Playback.Areas.{
  at_frame, moved-at_frame, map-at_frame_zero, suc_mul, zero_mul,
}
use dmx_enttec_node.Audio.Recording.{
  SoundIoInStream, Recorder, read_channels, read_frames, read_block,
}

overwrite-append :
    (xs ys src : List ℕ)
    → overwrite (xs ++ ys) (length xs) src ≡ xs ++ (src ++ drop (length src) ys)
overwrite-append [] ys src = refl
overwrite-append (x ∷ xs) ys src = ap (λ zs. x ∷ zs) (overwrite-append xs ys src)

memcpy_next :
    (xs ys src : List ℕ) (n : ℕ)
    → length src ≡ n
    → n ≤ length ys
    → memcpy (xs ++ ys) (length xs) src 0 n ≡ some ((xs ++ src) ++ drop n ys)
memcpy_next xs ys src n e h =
    memcpy-some (xs ++ ys) src (length xs) 0 n (omega (arith, length-append xs ys))
      (omega (arith, e))
    ∙ ap some (
        rw (take-all n src e)
          (overwrite-append xs ys src ∙ rw (e) (sym (append_assoc xs src (drop n ys)))))

module _ {Stream : Type 0} (is : SoundIoInStream Stream) where
  -- The samples of the `f`-th frame, one of each channel
  abbrev pub sample_bytes : ℕ → List SoundIoChannelArea → Stream → List ℕ
  sample_bytes f [] s = []
  sample_bytes f (area ∷ areas) s =
      is.load s (area.ptr + f * area.step) is.bytes_per_sample ++ sample_bytes f areas s

  -- The samples of `m` frames from the `f`-th on
  abbrev pub frame_bytes : ℕ → ℕ → List SoundIoChannelArea → Stream → List ℕ
  frame_bytes f zero areas s = []
  frame_bytes f (suc m) areas s = sample_bytes f areas s ++ frame_bytes (suc f) m areas s

  -- The bytes that are recorded for a block of `m` frames: its samples, or silence for a hole
  abbrev pub block_bytes : ℕ → Option (List SoundIoChannelArea) → Stream → List ℕ
  block_bytes m none s = replicate (m * is.bytes_per_frame) 0
  block_bytes m (some areas) s = frame_bytes 0 m areas s

  -- What libsoundio documents: a frame has one sample for each channel, no more frames are granted
  -- than are asked for, and the areas are those of the channels.
  pub record IsInStream : Type 0 where
    pub frame_size : is.bytes_per_frame ≡ is.channel_count * is.bytes_per_sample
    pub granted : (n : ℕ) (s : Stream) → (is.begin_read n s).frame_count ≤ n
    pub areas :
        (n : ℕ) (s : Stream) (areas : List SoundIoChannelArea)
        → (is.begin_read n s).areas ≡ some areas
        → length areas ≡ is.channel_count
    pub loaded : (s : Stream) (address n : ℕ) → length (is.load s address n) ≡ n

  -- The recorder after `xs` has been copied to the front of the buffer, with `ys` behind it
  abbrev pub filled : Stream → List ℕ → List ℕ → Recorder Stream
  filled s xs ys = record { stream = s; frames_buffer = xs ++ ys; frames_buffer_index = length xs }

  module _ (ii : IsInStream) where
    read_channels-filled :
        (n f : ℕ) (areas : List SoundIoChannelArea) (s : Stream) (xs ys : List ℕ)
        → length areas ≡ n
        → n * is.bytes_per_sample ≤ length ys
        → read_channels is n (map (at_frame f) areas) (filled s xs ys)
          ≡ ok (
            map (at_frame (suc f)) areas,
            filled s (xs ++ sample_bytes f areas s) (drop (n * is.bytes_per_sample) ys),
          )
    unfolding read_channels
    read_channels-filled zero f [] s xs ys e h =
        rw (zero_mul is.bytes_per_sample, append-nil xs) refl
    read_channels-filled zero f (area ∷ areas) s xs ys e h = absurd (omega arith)
    read_channels-filled (suc n) f [] s xs ys e h = absurd (omega arith)
    read_channels-filled (suc n) f (area ∷ areas) s xs ys e h =
        let bps = is.bytes_per_sample in
        let src = is.load s (area.ptr + f * area.step) bps in
        let src_size = ii.loaded s (area.ptr + f * area.step) bps in
        let idx : length xs + bps ≡ length (xs ++ src) =
          omega (arith, length-append xs src, src_size) in
        rw (memcpy_next xs ys src bps src_size (omega (arith, suc_mul n bps))) (
          rw
            (
              idx,
              read_channels-filled n f areas s (xs ++ src) (drop bps ys) (omega arith)
                  (omega (arith, suc_mul n bps, length-drop bps ys)),
            )
            (rw
              (
                moved-at_frame f area,
                append_assoc xs src (sample_bytes f areas s),
                suc_mul n bps,
                drop-add bps (n * bps) (bps + n * bps) ys refl,
              )
              refl))

    length-sample_bytes :
        (f : ℕ) (areas : List SoundIoChannelArea) (s : Stream)
        → length (sample_bytes f areas s) ≡ length areas * is.bytes_per_sample
    length-sample_bytes f [] s = sym (zero_mul is.bytes_per_sample)
    length-sample_bytes f (area ∷ areas) s =
        let bps = is.bytes_per_sample in
        omega (
          arith,
          suc_mul (length areas) bps,
          ii.loaded s (area.ptr + f * area.step) bps,
          length-append (is.load s (area.ptr + f * area.step) bps) (sample_bytes f areas s),
          length-sample_bytes f areas s,
        )

    read_frames-filled :
        (m f : ℕ) (areas : List SoundIoChannelArea) (s : Stream) (xs ys : List ℕ)
        → length areas ≡ is.channel_count
        → m * is.bytes_per_frame ≤ length ys
        → read_frames is m (map (at_frame f) areas) (filled s xs ys)
          ≡ ok (filled s (xs ++ frame_bytes f m areas s) (drop (m * is.bytes_per_frame) ys))
    unfolding read_frames
    read_frames-filled zero f areas s xs ys e h =
        rw (zero_mul is.bytes_per_frame, append-nil xs) refl
    read_frames-filled (suc m) f areas s xs ys e h =
        let bpf = is.bytes_per_frame in
        let split = suc_mul m bpf in
        rw
          (
            read_channels-filled is.channel_count f areas s xs ys e
                (omega (arith, split, ii.frame_size)),
            sym ii.frame_size,
            read_frames-filled m (suc f) areas s (xs ++ sample_bytes f areas s) (drop bpf ys) e
                (omega (arith, split, length-drop bpf ys)),
          )
          (rw
            (
              append_assoc xs (sample_bytes f areas s) (frame_bytes (suc f) m areas s),
              split,
              drop-add bpf (m * bpf) (bpf + m * bpf) ys refl,
            )
            refl)

    length-frame_bytes :
        (m f : ℕ) (areas : List SoundIoChannelArea) (s : Stream)
        → length areas ≡ is.channel_count
        → length (frame_bytes f m areas s) ≡ m * is.bytes_per_frame
    length-frame_bytes zero f areas s e = sym (zero_mul is.bytes_per_frame)
    length-frame_bytes (suc m) f areas s e = omega (
      arith,
      suc_mul m is.bytes_per_frame,
      ii.frame_size,
      length-append (sample_bytes f areas s) (frame_bytes (suc f) m areas s),
      length-sample_bytes f areas s ∙ ap (λ n. n * is.bytes_per_sample) e,
      length-frame_bytes m (suc f) areas s e,
    )

    pub length-block_bytes :
        (m : ℕ) (areas : Option (List SoundIoChannelArea)) (s : Stream)
        → ((present : List SoundIoChannelArea)
            → areas ≡ some present
            → length present ≡ is.channel_count)
        → length (block_bytes m areas s) ≡ m * is.bytes_per_frame
    length-block_bytes m none s e = length-replicate (m * is.bytes_per_frame) 0
    length-block_bytes m (some areas) s e = length-frame_bytes m 0 areas s (e areas refl)

    -- A block is copied behind what has been copied so far.
    pub read_block-filled :
        (m : ℕ) (areas : Option (List SoundIoChannelArea)) (s : Stream) (xs ys : List ℕ)
        → ((present : List SoundIoChannelArea)
            → areas ≡ some present
            → length present ≡ is.channel_count)
        → m * is.bytes_per_frame ≤ length ys
        → m * is.bytes_per_frame < 2 ^ 31
        → read_block is m areas (filled s xs ys)
          ≡ ok (filled s (xs ++ block_bytes m areas s) (drop (m * is.bytes_per_frame) ys))
    unfolding read_block
    read_block-filled m none s xs ys e h small =
        let size = m * is.bytes_per_frame in
        let silence = length-replicate {A = ℕ} size 0 in
        rw
          (
            int_mul-ok m is.bytes_per_frame small,
            memcpy_next xs ys (replicate size 0) size silence h,
          )
          (ap
            (λ i. ok (record {
              stream = s;
              frames_buffer = (xs ++ replicate size 0) ++ drop size ys;
              frames_buffer_index = i;
            }))
            (omega (arith, silence, length-append xs (replicate size 0))))
    read_block-filled m (some areas) s xs ys e h small =
        ap (λ start. read_frames is m start (filled s xs ys)) (sym (map-at_frame_zero areas))
        ∙ read_frames-filled m 0 areas s xs ys (e areas refl) h
