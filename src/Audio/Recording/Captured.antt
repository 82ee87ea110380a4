-- ===== src/Audio/Recording/Captured.antt =====
-- What ReadCallback records.
use native.Mathlib.Nat.{mul-le-mul_right}
use dmx_enttec_node.Prelude.{
  ℕ, zero, suc, ◌+◌, ◌-◌, ◌*◌, ◌^◌, ◌≤◌, ◌<◌, List, [], ◌++◌, length, drop, ◌≡◌, refl, sym, ap,
  given, ◌∙◌, append_assoc, append-nil, length-append, length-drop, drop-add, ◌==◌, some, after,
  Result, ok, throw, fault, begin_read_failed, end_read_failed, Bool-cases, inl, inr, ◌⊎◌, arith,
}
use dmx_enttec_node.Audio.Playback.Played.{sub_mul, is_positive}
use dmx_enttec_node.Audio.Recording.{SoundIoInStream, Recorder, read_loop}
use dmx_enttec_node.Audio.Recording.Copied.{
  block_bytes, IsInStream, filled, length-block_bytes, read_block-filled,
}

module _ {Stream : Type 0} (is : SoundIoInStream Stream) where
  -- `Captures left s bytes s'`: asked for `left` frames, the stream hands over these bytes, block by
  -- block, and ends as `s'`.
  pub data Captures : ℕ → Stream → List ℕ → Stream → Type 0 where
    dry :
        (left : ℕ) (s : Stream)
        → (is.begin_read left s).frame_count ≡ 0
        → Captures left s [] (is.begin_read left s).stream
    last :
        (left : ℕ) (s : Stream)
        → left - (is.begin_read left s).frame_count ≡ 0
        → Captures left s
            (block_bytes is
              (is.begin_read left s).frame_count
              (is.begin_read left s).areas
              (is.begin_read left s).stream)
            (is.end_read (is.begin_read left s).stream).1
    more :
        (left : ℕ) (s s' : Stream) (bytes : List ℕ)
        → 0 < (is.begin_read left s).frame_count
        → Captures
            (left - (is.begin_read left s).frame_count)
            (is.end_read (is.begin_read left s).stream).1
            bytes
            s'
        → Captures left s
            (block_bytes is
                (is.begin_read left s).frame_count
                (is.begin_read left s).areas
                (is.begin_read left s).stream
              ++ bytes)
            s'

  -- The loop has copied the bytes that the stream has handed over, or an exception has ended it.
  pub record IsRecorded (left : ℕ) (s : Stream) (xs ys : List ℕ) (r : Recorder Stream)
      : Type 0 where
    pub bytes : List ℕ
    pub captured : Captures left s bytes r.stream
    pub copied : r ≡ filled is r.stream (xs ++ bytes) (drop (length bytes) ys)
    pub bytes_le : length bytes ≤ left * is.bytes_per_frame

  abbrev pub Records : ℕ → Stream → List ℕ → List ℕ → Result (Recorder Stream) → Type 0
  Records left s xs ys fault = ⊥
  Records left s xs ys (throw e) = (e ≡ begin_read_failed) ⊎ (e ≡ end_read_failed)
  Records left s xs ys (ok r) = IsRecorded left s xs ys r

  module _ (ii : IsInStream is) where
    Records-more :
        (left : ℕ) (s : Stream) (xs ys : List ℕ) (r : Result (Recorder Stream))
        → let begun = is.begin_read left s in
          let block = block_bytes is begun.frame_count begun.areas begun.stream in
          0 < begun.frame_count
          → length block + (left - begun.frame_count) * is.bytes_per_frame
            ≤ left * is.bytes_per_frame
          → Records
              (left - begun.frame_count)
              (is.end_read begun.stream).1
              (xs ++ block)
              (drop (length block) ys)
              r
          → Records left s xs ys r
    Records-more left s xs ys fault pos_ le h = h
    Records-more left s xs ys (throw e) pos_ le h = h
    Records-more left s xs ys (ok r) pos_ le h =
        let begun = is.begin_read left s in
        let block = block_bytes is begun.frame_count begun.areas begun.stream in
        record {
          bytes = block ++ h.bytes;
          captured = more left s r.stream h.bytes pos_ h.captured;
          copied =
              h.copied
              ∙ rw
                  (
                    append_assoc xs block h.bytes,
                    length-append block h.bytes,
                    drop-add (length block) (length h.bytes) _ ys refl,
                  )
                  refl;
          bytes_le = omega (arith, h.bytes_le, length-append block h.bytes);
        }

    pub read_loop-Records :
        (fuel left : ℕ) (s : Stream) (xs ys : List ℕ)
        → left < fuel
        → left * is.bytes_per_frame ≤ length ys
        → left * is.bytes_per_frame < 2 ^ 31
        → (r : Result (Recorder Stream)) × (read_loop is fuel left (filled is s xs ys) ≡ some r)
          × Records left s xs ys r
    unfolding read_loop
    read_loop-Records zero left s xs ys hf hs small = absurd (omega arith)
    read_loop-Records (suc fuel) left s xs ys hf hs small =
        let begun = is.begin_read left s in
        let m = begun.frame_count in
        let block = block_bytes is m begun.areas begun.stream in
        let granted = ii.granted left s in
        let room = mul-le-mul_right is.bytes_per_frame granted in
        let size = length-block_bytes is ii m begun.areas begun.stream (ii.areas left s) in
        let copied =
          read_block-filled is ii m begun.areas begun.stream xs ys (ii.areas left s)
            (omega (arith, room)) (omega (arith, room)) in
        let used : length block + (left - m) * is.bytes_per_frame ≡ left * is.bytes_per_frame =
          ap (λ n. n + (left - m) * is.bytes_per_frame) size
          ∙ sub_mul m left is.bytes_per_frame granted in
        elim (Bool-cases (begun.err == 0)) [
          | inl e1 ↦ elim (Bool-cases (m == 0)) [
            | inl e2 ↦ (
              ok (filled is begun.stream xs ys),
              rw (e1, e2, read_loop) refl,
              record {
                bytes = [];
                captured = dry left s (ground (arith, e2));
                copied = rw (append-nil xs) refl;
                bytes_le = omega arith;
              },
            )
            | inr e2 ↦ elim (Bool-cases ((is.end_read begun.stream).0 == 0)) [
              | inl e3 ↦ elim (Bool-cases (left - m == 0)) [
                | inl e4 ↦ (
                  ok (
                      filled is (is.end_read begun.stream).1 (xs ++ block)
                        (drop (m * is.bytes_per_frame) ys)),
                  rw (e1, e2, copied, read_loop) (rw (after, e3, e4) refl),
                  record {
                    bytes = block;
                    captured = last left s (ground (arith, e4));
                    copied = rw (size) refl;
                    bytes_le = omega (arith, size, room);
                  },
                )
                | inr e4 ↦
                    given
                      (read_loop-Records fuel (left - m) (is.end_read begun.stream).1 (xs ++ block)
                        (drop (length block) ys) (omega (arith, is_positive m e2, hf))
                        (omega (arith, used, length-drop (length block) ys)) (omega (arith, used)))
                      (λ (r, e5, h). (
                        r,
                        rw (e1, e2, copied, read_loop) (rw (after, e3, e4, sym size) e5),
                        Records-more left s xs ys r (is_positive m e2) (omega (arith, used)) h,
                      ))
              ]
              | inr e3 ↦ (
                throw end_read_failed,
                rw (e1, e2, copied, read_loop) (rw (after, e3) refl),
                inr refl,
              )
            ]
          ]
          | inr e1 ↦ (throw begin_read_failed, rw (e1, read_loop) refl, inl refl)
        ]
