-- ===== src/Tests/Streams.antt =====
-- The callbacks of the audio streams.
use dmx_enttec_node.Prelude.{
  ℕ, zero, suc, sym, ap, ◌+◌, ◌-◌, ◌*◌, min, ◌≡◌, refl, List, [], ◌∷◌, ◌++◌, length, drop, take,
  replicate, length-replicate, memcpy, memset, ◌>>=◌, Option, none, some, Result, ok, arith,
}
use dmx_enttec_node.Audio.Packet.{SoundIoData, AudioSender, create_sender, packed, on_data}
use dmx_enttec_node.Audio.Delivery.{next_packet, send_next_packet}
use dmx_enttec_node.Network.UdpClient.{send_data}
use dmx_enttec_node.Audio.Playback.{
  SoundIoChannelArea, SoundIoOutStream, Player, write_callback, write_loop,
}
use dmx_enttec_node.Audio.Playback.Stored.{IsOutStream}
use dmx_enttec_node.Audio.Playback.Callback.{Leaves, write_callback-audio, write_callback-silence}
use dmx_enttec_node.Audio.Recording.{
  SoundIoInStream, Recorder, read_callback, read_loop, read_block, read_frames, read_channels,
}
use dmx_enttec_node.Audio.Recording.Copied.{IsInStream}
use dmx_enttec_node.Audio.Recording.Captured.{Captures}
use dmx_enttec_node.Audio.Recording.Sent.{Sends, read_callback-Sends}
use dmx_enttec_node.Audio.Recording.Received.{on_data-read_callback}
use dmx_enttec_node.Tests.Audios.{udp_client, ready, capacity, write, receiver}

-- Two channels, interleaved, of one byte per sample
abbrev areas : List SoundIoChannelArea
areas = record { ptr = 100; step = 2 } ∷ record { ptr = 101; step = 2 } ∷ []

-- It grants two frames at a time; its state counts the blocks that are written.
abbrev speaker_stream : SoundIoOutStream ℕ
speaker_stream = record {
  bytes_per_frame = 2;
  bytes_per_sample = 1;
  channel_count = 2;
  begin_write = λ n s. record { err = 0; areas = areas; frame_count = min n 2; stream = s };
  end_write = λ s. (0, s + 1);
}

speaker_stream-IsOutStream : IsOutStream speaker_stream
speaker_stream-IsOutStream = record {
  frame_size = refl;
  frame_positive = omega arith;
  granted = λ n s. omega arith;
  areas = λ n s. refl;
}

abbrev player : Player ℕ
player = record { stream = 0; stores = [] }

-- A ring buffer as its unread bytes
abbrev unread : List ℕ → List ℕ
unread ring = ring

abbrev advance_read : ℕ → List ℕ → List ℕ
advance_read n ring = drop n ring

abbrev ring : List ℕ
ring = 1 ∷ 2 ∷ 3 ∷ 4 ∷ 5 ∷ 6 ∷ 7 ∷ 8 ∷ []

write_callback-audio_example :
    (r : Result (Player ℕ × List ℕ)) × (write_callback speaker_stream unread advance_read 1 3 ring
        player
      ≡ some r)
    × Leaves speaker_stream unread advance_read 3 (λ k. take (k * 2) ring) (7 ∷ 8 ∷ []) player r
write_callback-audio_example =
    write_callback-audio speaker_stream unread advance_read speaker_stream-IsOutStream 1 3 ring
      player (omega arith) (omega arith)

write_callback-silence_example :
    (r : Result (Player ℕ × List ℕ)) × (write_callback speaker_stream unread advance_read 5 9 ring
        player
      ≡ some r)
    × Leaves speaker_stream unread advance_read 5 (λ k. replicate (k * 2) 0) ring player r
write_callback-silence_example =
    write_callback-silence speaker_stream unread advance_read speaker_stream-IsOutStream 5 9 ring
      player (omega arith)

-- It hands over one frame at a time, of which every other one is a hole; its state counts them.
abbrev microphone_areas : ℕ → Option (List SoundIoChannelArea)
microphone_areas zero = some areas
microphone_areas (suc n) = none

abbrev microphone_stream : SoundIoInStream ℕ
microphone_stream = record {
  bytes_per_frame = 2;
  bytes_per_sample = 1;
  channel_count = 2;
  begin_read =
      λ n s. record { err = 0; areas = microphone_areas s; frame_count = min n 1; stream = s };
  load = λ s address n. replicate n (address + s);
  end_read = λ s. (0, s + 1);
}

abbrev count : Option (List SoundIoChannelArea) → ℕ
count none = 0
count (some present) = length present

microphone_areas-length :
    (s : ℕ) (present : List SoundIoChannelArea)
    → microphone_areas s ≡ some present
    → length present ≡ 2
microphone_areas-length zero present e = sym (ap count e)
microphone_areas-length (suc n) present e = cc

microphone_stream-IsInStream : IsInStream microphone_stream
microphone_stream-IsInStream = record {
  frame_size = refl;
  granted = λ n s. omega arith;
  areas = λ n s present e. microphone_areas-length s present e;
  loaded = λ s address n. length-replicate n (address + s);
}

abbrev allocate : ℕ → List ℕ
allocate n = replicate n 7

read_callback-Sends_example :
    (r : Result ((List (List ℕ) × AudioSender) × Recorder ℕ)) × (read_callback microphone_stream
        allocate 3
        (create_sender udp_client)
        0
        []
      ≡ some r)
    × Sends microphone_stream 3 (create_sender udp_client) 0 r
read_callback-Sends_example =
    read_callback-Sends microphone_stream microphone_stream-IsInStream allocate 3
      (create_sender udp_client) 0 [] ready (λ n. omega (arith, length-replicate {A = ℕ} n 7))
      (omega arith)

abbrev recorded_bytes : List ℕ
recorded_bytes = 100 ∷ 101 ∷ 0 ∷ 0 ∷ 0 ∷ 0 ∷ []

abbrev recorder : Recorder ℕ
recorder = record {
  stream = 3;
  frames_buffer = recorded_bytes ++ replicate 90 7;
  frames_buffer_index = 6;
}

abbrev packet : SoundIoData
packet = next_packet (create_sender udp_client) recorder.frames_buffer 6

abbrev sent : List (List ℕ) × AudioSender
sent = (
  packed packet ∷ [],
  record {
    udp_client = (send_data udp_client (packed packet)).1;
    seq_num = 1;
    soundio_data = packet;
  },
)

recorded :
    read_callback microphone_stream allocate 3 (create_sender udp_client) 0 []
    ≡ some (ok (sent, recorder))
unfolding read_callback read_loop read_block read_frames read_channels memcpy memset create_sender
recorded =
    ap (λ result. some (result >>= λ sent'. ok (sent', recorder)))
      (send_next_packet (create_sender udp_client) recorder.frames_buffer 6 ready (omega arith)
        (omega arith))

on_data-read_callback_example :
    (datagram bytes : List ℕ) × Captures microphone_stream 3 0 bytes 3
    × (sent.0 ≡ datagram ∷ [])
    × (on_data capacity write (datagram ++ 0 ∷ []) (receiver (1 ∷ []))
        ≡ ok (receiver (1 ∷ bytes ++ replicate (6 - length bytes) 0)))
on_data-read_callback_example =
    on_data-read_callback capacity write microphone_stream microphone_stream-IsInStream allocate 3
      (create_sender udp_client) 0 [] sent recorder (receiver (1 ∷ [])) (0 ∷ []) ready
      (λ n. omega (arith, length-replicate {A = ℕ} n 7)) (omega arith) refl (omega arith) recorded

-- The device grants no frame at first: nothing is played, and two frames are taken nevertheless.
abbrev busy_stream : SoundIoOutStream ℕ
busy_stream = record speaker_stream {
  begin_write = λ n s. record { err = 0; areas = areas; frame_count = 0; stream = s };
}

write_callback_busy :
    write_callback busy_stream unread advance_read 1 2 ring player
    ≡ some (ok (player, 5 ∷ 6 ∷ 7 ∷ 8 ∷ []))
unfolding write_callback write_loop
write_callback_busy = refl
