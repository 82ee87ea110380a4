-- ===== src/Audio/Recording.antt =====
-- libs/soundio/audio_sender.cc: ReadCallback, in which libsoundio hands over recorded frames.
pub mod Copied
pub mod Captured
pub mod Sent
pub mod Received
use dmx_enttec_node.Prelude.{
  ℕ, zero, suc, ◌+◌, ◌-◌, ◌*◌, List, [], ◌∷◌, length, replicate, Bool, true, false, ltb, ◌==◌,
  if◌then◌else◌, Option, none, some, after, memcpy, memset, Result, ok, throw, fault, throw_if,
  or_fault, begin_read_failed, end_read_failed, copied_too_much, ◌>>=◌, ◌>>◌,
}
use dmx_enttec_node.Audio.Packet.{AudioSender, send_audio_bytes}
use dmx_enttec_node.Audio.Playback.{SoundIoChannelArea, moved, int_mul}

-- What `begin_read` gives; `areas` is NULL for a hole in the recording.
pub record BegunRead (Stream : Type 0) : Type 0 where
  pub err : ℕ
  pub areas : Option (List SoundIoChannelArea)
  pub frame_count : ℕ
  pub stream : Stream

-- An open input stream of libsoundio is a parameter; `load stream address n` are the `n` bytes at
-- an address of the memory that a read has given out.
pub record SoundIoInStream (Stream : Type 0) : Type 0 where
  pub bytes_per_frame : ℕ
  pub bytes_per_sample : ℕ
  pub channel_count : ℕ
  pub begin_read : ℕ → Stream → BegunRead Stream
  pub load : Stream → ℕ → ℕ → List ℕ
  pub end_read : Stream → ℕ × Stream

-- `frames_buffer` is the memory of the static vector, as far as its capacity goes.
pub record Recorder (Stream : Type 0) : Type 0 where
  pub stream : Stream
  pub frames_buffer : List ℕ
  pub frames_buffer_index : ℕ

-- `reserve` gives new memory, whose contents are unknown: `allocate size`.
abbrev pub reserved : (ℕ → List ℕ) → ℕ → List ℕ → Result (List ℕ)
reserved allocate size buffer =
    if ltb (length buffer) size
    then (int_mul size 16 >>= λ capacity. ok (allocate capacity))
    else ok buffer

module _ {Stream : Type 0} (is : SoundIoInStream Stream) where
  open is use {bytes_per_frame, bytes_per_sample, channel_count, begin_read, load, end_read}

  -- The loop over `n` channels: the areas, the buffer and the index after it
  unfoldable pub read_channels :
      ℕ
      → List SoundIoChannelArea
      → Recorder Stream
      → Result (List SoundIoChannelArea × Recorder Stream)
  read_channels zero areas r = ok (areas, r)
  read_channels (suc n) [] r = fault
  read_channels (suc n) (area ∷ areas) r = do
    buffer ← or_fault (
        memcpy r.frames_buffer r.frames_buffer_index (load r.stream area.ptr bytes_per_sample) 0
          bytes_per_sample)
    (areas', r') ← read_channels n areas (record r {
      frames_buffer = buffer;
      frames_buffer_index = r.frames_buffer_index + bytes_per_sample;
    })
    ok (moved area ∷ areas', r')

  unfoldable pub read_frames :
      ℕ → List SoundIoChannelArea → Recorder Stream → Result (Recorder Stream)
  unfolding read_channels
  read_frames zero areas r = ok r
  read_frames (suc n) areas r = do
    (areas', r') ← read_channels channel_count areas r
    read_frames n areas' r'

  -- The two branches on `areas`; the hole is filled with silence.
  unfoldable pub read_block :
      ℕ → Option (List SoundIoChannelArea) → Recorder Stream → Result (Recorder Stream)
  unfolding read_frames
  read_block n none r = do
    size ← int_mul n bytes_per_frame
    buffer ← or_fault (memcpy r.frames_buffer r.frames_buffer_index (replicate size 0) 0 size)
    ok (record r { frames_buffer = buffer; frames_buffer_index = r.frames_buffer_index + size })
  read_block n (some areas) r = read_frames n areas r

  -- `for (;;)`, on fuel
  unfoldable pub read_loop : ℕ → ℕ → Recorder Stream → Option (Result (Recorder Stream))
  unfolding read_block
  read_loop zero left r = none
  read_loop (suc fuel) left r =
      let begun = begin_read left r.stream in
      elim (begun.err == 0) [
        | false ↦ some (throw begin_read_failed)
        | true ↦ elim (begun.frame_count == 0) [
          | true ↦ some (ok (record r { stream = begun.stream }))
          | false ↦
              after (read_block begun.frame_count begun.areas (record r { stream = begun.stream }))
                (λ r'.
                  let ended = end_read r'.stream in
                  elim (ended.0 == 0) [
                    | false ↦ some (throw end_read_failed)
                    | true ↦ elim (left - begun.frame_count == 0) [
                      | true ↦ some (ok (record r' { stream = ended.1 }))
                      | false ↦
                          read_loop fuel (left - begun.frame_count) (record r' { stream = ended.1 })
                    ]
                  ])
        ]
      ]

  -- The datagrams that are sent, the sender, and what the next call finds. The fuel is one more
  -- than the number of frames.
  unfoldable pub read_callback :
      (ℕ → List ℕ)
      → ℕ
      → AudioSender
      → Stream
      → List ℕ
      → Option (Result ((List (List ℕ) × AudioSender) × Recorder Stream))
  unfolding read_loop send_audio_bytes memset
  read_callback allocate frame_count_max s stream buffer =
      after (int_mul frame_count_max bytes_per_frame) (λ max_read_size.
        after (reserved allocate max_read_size buffer) (λ buffer'.
          after (or_fault (memset buffer' 0 max_read_size)) (λ buffer''.
            elim (read_loop (suc frame_count_max) frame_count_max
              (record { stream = stream; frames_buffer = buffer''; frames_buffer_index = 0 })) [
                | none ↦ none
                | some recorded ↦ some (
                    recorded >>= λ r.
                    throw_if (ltb max_read_size r.frames_buffer_index) copied_too_much
                    >> (send_audio_bytes s r.frames_buffer max_read_size >>= λ sent. ok (sent, r)))
              ])))
