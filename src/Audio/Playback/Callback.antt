-- ===== src/Audio/Playback/Callback.antt =====
-- The two branches of WriteCallback: audio from the ring buffer, and silence.
use native.Mathlib.Nat.{mul-le-mul_right, div-mul-le_self}
use dmx_enttec_node.Prelude.{
  ℕ, ◌*◌, ◌^◌, ◌≤◌, ◌<◌, min, List, length, take, replicate, ◌≡◌, refl, false, ltb, ◌==◌, some,
  Result, ok, throw, fault, begin_write_failed, end_write_failed, ◌>>=◌, given, ◌⊎◌, arith, lt→ltb,
}
use dmx_enttec_node.Audio.Playback.{SoundIoOutStream, Player, write_callback, fill_count, int_mul}
use dmx_enttec_node.Audio.Playback.Stored.{IsOutStream}
use dmx_enttec_node.Audio.Playback.Played.{IsPlayed, Plays, write_loop-Plays, zero_loop-Plays}

pub not_ltb : (a b : ℕ) → b ≤ a → ltb a b ≡ false
not_ltb a b h = ground arith

pub int_mul-ok : (a b : ℕ) → a * b < 2 ^ 31 → int_mul a b ≡ ok (a * b)
int_mul-ok a b h = ground arith

module _ {Stream RingBuffer : Type 0} (os : SoundIoOutStream Stream) (unread : RingBuffer → List ℕ)
    (advance_read : ℕ → RingBuffer → RingBuffer) where
  -- The callback has played from `left` frames with these bytes and left the ring buffer as `ring'`,
  -- or an exception of the stream has left it.
  abbrev pub Leaves :
      ℕ → (ℕ → List ℕ) → RingBuffer → Player Stream → Result (Player Stream × RingBuffer) → Type 0
  Leaves left bytes ring' p fault = ⊥
  Leaves left bytes ring' p (throw e) = (e ≡ begin_write_failed) ⊎ (e ≡ end_write_failed)
  Leaves left bytes ring' p (ok (p', r)) = IsPlayed os left bytes p p' × (r ≡ ring')

  Leaves-from :
      (left : ℕ) (bytes : ℕ → List ℕ) (ring' : RingBuffer) (p : Player Stream)
      (r : Result (Player Stream)) (finish : Player Stream → Result (Player Stream × RingBuffer))
      → Plays os left bytes p r
      → ((p' : Player Stream) → finish p' ≡ ok (p', ring'))
      → Leaves left bytes ring' p (r >>= finish)
  Leaves-from left bytes ring' p fault finish h e = h
  Leaves-from left bytes ring' p (throw x) finish h e = h
  Leaves-from left bytes ring' p (ok p') finish h e = rw (e p') (h, refl)

  module _ (io : IsOutStream os) where
    read_count_le :
        (frame_count_max : ℕ) (ring : RingBuffer)
        → min frame_count_max (fill_count os unread advance_read ring) * os.bytes_per_frame
          ≤ length (unread ring)
    read_count_le n ring = omega (
      arith,
      div-mul-le_self (length (unread ring)) os.bytes_per_frame,
      mul-le-mul_right {m = min n (fill_count os unread advance_read ring)}
          {n = fill_count os unread advance_read ring} os.bytes_per_frame (omega arith),
    )

    has_frames : (os.bytes_per_frame == 0) ≡ false
    has_frames = ground (arith, io.frame_positive)

    -- If the ring buffer holds at least the frames that must be played, the callback ends, without
    -- an access out of bounds or an overflow: with an exception of the stream, or having played
    -- bytes of the ring buffer from its read pointer on, in order, at the addresses that the areas
    -- give the samples of the granted frames, for the smaller of the frames that it may play and
    -- those that it has (for fewer only if the stream grants no frame to a call), and it takes all
    -- of that smaller number of frames from the ring buffer.
    pub write_callback-audio :
        (frame_count_min frame_count_max : ℕ) (ring : RingBuffer) (p : Player Stream)
        → length (unread ring) < 2 ^ 31
        → frame_count_min ≤ fill_count os unread advance_read ring
        → let read_count = min frame_count_max (fill_count os unread advance_read ring) in
          (r : Result (Player Stream × RingBuffer)) × (write_callback os unread advance_read
              frame_count_min frame_count_max ring p
            ≡ some r)
          × Leaves read_count
              (λ k. take (k * os.bytes_per_frame) (unread ring))
              (advance_read (read_count * os.bytes_per_frame) ring)
              p
              r
    unfolding write_callback
    write_callback-audio least most ring p small enough =
        let count = min most (fill_count os unread advance_read ring) in
        let finish : Player Stream → Result (Player Stream × RingBuffer) =
          λ p'. int_mul count os.bytes_per_frame >>= λ n. ok (p', advance_read n ring) in
        given
          (write_loop-Plays os io count count (unread ring) p (omega arith)
            (read_count_le most ring))
          (λ (r, e, played). (
            r >>= finish,
            rw
                (
                  has_frames,
                  not_ltb (fill_count os unread advance_read ring) least enough,
                  e,
                  write_callback,
                )
                refl,
            Leaves-from count _ _ p r finish played (λ p'.
                rw
                  (int_mul-ok count os.bytes_per_frame
                    (omega (arith, read_count_le most ring, small)))
                  refl),
          ))

    -- If the ring buffer holds fewer frames than must be played, the callback ends, without an
    -- access out of bounds: with an exception of the stream, or having played as much silence (less
    -- only if the stream grants no frame to a call), at the addresses that the areas give the
    -- samples of the granted frames, and the ring buffer stays as it was.
    pub write_callback-silence :
        (frame_count_min frame_count_max : ℕ) (ring : RingBuffer) (p : Player Stream)
        → fill_count os unread advance_read ring < frame_count_min
        → (r : Result (Player Stream × RingBuffer)) × (write_callback os unread advance_read
              frame_count_min frame_count_max ring p
            ≡ some r)
          × Leaves frame_count_min (λ k. replicate (k * os.bytes_per_frame) 0) ring p r
    unfolding write_callback
    write_callback-silence least most ring p short =
        given (zero_loop-Plays os io least least p (omega arith)) (λ (r, e, played). (
          _,
          rw
              (
                has_frames,
                lt→ltb (fill_count os unread advance_read ring) least short,
                e,
                write_callback,
              )
              refl,
          Leaves-from least _ _ p r _ played (λ p'. refl),
        ))
