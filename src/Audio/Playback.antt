-- ===== src/Audio/Playback.antt =====
-- libs/soundio/audio_receiver.cc: WriteCallback, in which libsoundio asks for the frames to play.
pub mod Areas
pub mod Stored
pub mod Played
pub mod Callback
use dmx_enttec_node.Prelude.{
  ℕ, zero, suc, ◌+◌, ◌-◌, ◌*◌, ◌/◌, ◌^◌, min, List, [], ◌∷◌, ◌++◌, length, take, drop, replicate,
  Bool, true, false, ltb, leb, ◌==◌, if◌then◌else◌, Option, none, some, after, Result, ok, throw,
  fault, begin_write_failed, end_write_failed, ◌>>=◌,
}

-- Where the next sample of a channel is, and how far behind it the one after that is.
pub record SoundIoChannelArea : Type 0 where
  pub ptr : ℕ
  pub step : ℕ

abbrev pub moved : SoundIoChannelArea → SoundIoChannelArea
moved area = record area { ptr = area.ptr + area.step }

-- What the function stores in the memory of the device
pub record Store : Type 0 where
  pub address : ℕ
  pub bytes : List ℕ

-- What a call of `begin_write` or `begin_read` gives: the error, the areas, the frames that are
-- granted, and the stream after it.
pub record Begun (Stream : Type 0) : Type 0 where
  pub err : ℕ
  pub areas : List SoundIoChannelArea
  pub frame_count : ℕ
  pub stream : Stream

-- An open output stream of libsoundio is a parameter. Numbers of frames are not negative.
pub record SoundIoOutStream (Stream : Type 0) : Type 0 where
  pub bytes_per_frame : ℕ
  pub bytes_per_sample : ℕ
  pub channel_count : ℕ
  pub begin_write : ℕ → Stream → Begun Stream
  pub end_write : Stream → ℕ × Stream

-- A product of two `int`s
abbrev pub int_mul : ℕ → ℕ → Result ℕ
int_mul a b = if ltb (a * b) (2 ^ 31) then ok (a * b) else fault

-- The stream, with all that has been stored in the memory that it has given out
pub record Player (Stream : Type 0) : Type 0 where
  pub stream : Stream
  pub stores : List Store

module _ {Stream : Type 0} (os : SoundIoOutStream Stream) where
  open os use {bytes_per_frame, bytes_per_sample, channel_count, begin_write, end_write}

  -- The loop over `n` channels, from the ring buffer's bytes at `readPtr`: the stores, the areas
  -- and the bytes at the pointer after it. Only the unread bytes of the ring buffer are known.
  unfoldable pub write_channels :
      ℕ → List SoundIoChannelArea → List ℕ → Result (List Store × List SoundIoChannelArea × List ℕ)
  write_channels zero areas src = ok ([], areas, src)
  write_channels (suc n) [] src = fault
  write_channels (suc n) (area ∷ areas) src =
      let rest = write_channels n areas (drop bytes_per_sample src) in
      let store : Store = record { address = area.ptr; bytes = take bytes_per_sample src } in
      if leb bytes_per_sample (length src)
      then (rest >>= λ (stores, areas', src'). ok (store ∷ stores, moved area ∷ areas', src'))
      else fault

  unfoldable pub write_frames : ℕ → List SoundIoChannelArea → List ℕ → Result (List Store × List ℕ)
  unfolding write_channels
  write_frames zero areas src = ok ([], src)
  write_frames (suc n) areas src =
      write_channels channel_count areas src >>= λ (stores, areas', src').
      write_frames n areas' src' >>= λ (stores', src''). ok (stores ++ stores', src'')

  -- The same loops in the branch that writes silence
  unfoldable pub zero_channels :
      ℕ → List SoundIoChannelArea → Result (List Store × List SoundIoChannelArea)
  zero_channels zero areas = ok ([], areas)
  zero_channels (suc n) [] = fault
  zero_channels (suc n) (area ∷ areas) =
      let store : Store = record { address = area.ptr; bytes = replicate bytes_per_sample 0 } in
      zero_channels n areas >>= λ (stores, areas'). ok (store ∷ stores, moved area ∷ areas')

  unfoldable pub zero_frames : ℕ → List SoundIoChannelArea → Result (List Store)
  unfolding zero_channels
  zero_frames zero areas = ok []
  zero_frames (suc n) areas = zero_channels channel_count areas >>= λ (stores, areas').
      zero_frames n areas' >>= λ stores'. ok (stores ++ stores')

  -- `while (framesLeft > 0)`, on fuel
  unfoldable pub write_loop : ℕ → ℕ → List ℕ → Player Stream → Option (Result (Player Stream))
  unfolding write_frames
  write_loop fuel zero src p = some (ok p)
  write_loop zero (suc left) src p = none
  write_loop (suc fuel) (suc left) src p =
      let begun = begin_write (suc left) p.stream in
      let ended = end_write begun.stream in
      elim (begun.err == 0) [
        | false ↦ some (throw begin_write_failed)
        | true ↦ elim (begun.frame_count == 0) [
          | true ↦ some (ok (record p { stream = begun.stream }))
          | false ↦ after (write_frames begun.frame_count begun.areas src) (λ (stores, src').
              elim (ended.0 == 0) [
                | false ↦ some (throw end_write_failed)
                | true ↦
                    write_loop fuel (suc left - begun.frame_count) src'
                      (record { stream = ended.1; stores = p.stores ++ stores })
              ])
        ]
      ]

  -- `for (;;)` of the branch that writes silence, on fuel
  unfoldable pub zero_loop : ℕ → ℕ → Player Stream → Option (Result (Player Stream))
  unfolding zero_frames
  zero_loop fuel zero p = some (ok p)
  zero_loop zero (suc left) p = none
  zero_loop (suc fuel) (suc left) p =
      let begun = begin_write (suc left) p.stream in
      let ended = end_write begun.stream in
      elim (begun.err == 0) [
        | false ↦ some (throw begin_write_failed)
        | true ↦ elim (begun.frame_count == 0) [
          | true ↦ some (ok (record p { stream = begun.stream }))
          | false ↦ after (zero_frames begun.frame_count begun.areas) (λ stores.
              elim (ended.0 == 0) [
                | false ↦ some (throw end_write_failed)
                | true ↦
                    zero_loop fuel (suc left - begun.frame_count)
                      (record { stream = ended.1; stores = p.stores ++ stores })
              ])
        ]
      ]

  -- The ring buffer is a parameter too: its unread bytes, and moving its read pointer. The fuel of
  -- each loop is the number of frames that it starts with.
  module _ {RingBuffer : Type 0} (unread : RingBuffer → List ℕ)
      (advance_read : ℕ → RingBuffer → RingBuffer) where
    abbrev pub fill_count : RingBuffer → ℕ
    fill_count ring = length (unread ring) / bytes_per_frame

    unfoldable pub write_callback :
        ℕ → ℕ → RingBuffer → Player Stream → Option (Result (Player Stream × RingBuffer))
    unfolding write_loop zero_loop
    write_callback frame_count_min frame_count_max ring p =
        let read_count = min frame_count_max (fill_count ring) in
        if bytes_per_frame == 0
        then some fault
        else if ltb (fill_count ring) frame_count_min
        then elim (zero_loop frame_count_min frame_count_min p) [
          | none ↦ none
          | some played ↦ some (played >>= λ p'. ok (p', ring))
        ]
        else elim (write_loop read_count read_count (unread ring) p) [
          | none ↦ none
          | some played ↦ some (
              played >>= λ p'.
              int_mul read_count bytes_per_frame >>= λ n. ok (p', advance_read n ring))
        ]
