-- ===== src/Audio/Packet.antt =====
-- The audio datagram: libs/proto/soundio_proto.h, AudioSender::SendAudioBytes, and
-- AudioReceiver::OnData with PlayAudioBytes.
use dmx_enttec_node.Prelude.{
  ℕ, ◌+◌, ◌%◌, ◌^◌, List, [], ◌∷◌, ◌++◌, length, replicate, slice, Bool, not, ltb, leb, ◌==◌,
  if◌then◌else◌, le32, u32_at, memcpy, Result, ok, fault, throw_if, or_fault, wrong_protocol_id,
  ◌>>=◌, ◌>>◌,
}
use dmx_enttec_node.Network.UdpClient.{UdpClient, send_data}

abbrev pub soundio_protocol_id : ℕ
soundio_protocol_id = 0x7798

-- SOUNDIO_MAX_DATA_SIZE: 1024 * 20
abbrev pub soundio_max_data_size : ℕ
soundio_max_data_size = 20480

pub record SoundIoData : Type 0 where
  pub protocol_id : ℕ
  pub seq_num : ℕ
  pub size : ℕ
  pub data_ : List ℕ

-- sizeof(SoundIoData): 4 + 4 + 4 + 20480
abbrev pub soundio_data_size : ℕ
soundio_data_size = 20492

-- The bytes of the packed struct
abbrev pub packed : SoundIoData → List ℕ
packed p = le32 p.protocol_id ++ (le32 p.seq_num ++ (le32 p.size ++ p.data_))

-- `soundio_data` is the static packet of SendAudioBytes, which keeps what it held.
pub record AudioSender : Type 0 where
  pub udp_client : UdpClient
  pub seq_num : ℕ
  pub soundio_data : SoundIoData

unfoldable pub create_sender : UdpClient → AudioSender
create_sender udp_client = record {
  udp_client = udp_client;
  seq_num = 0;
  soundio_data = record {
    protocol_id = soundio_protocol_id;
    seq_num = 0;
    size = 0;
    data_ = replicate soundio_max_data_size 0;
  };
}

-- The datagrams that are sent, and the sender after the call. `data'` is the memory at the pointer.
unfoldable pub send_audio_bytes : AudioSender → List ℕ → ℕ → Result (List (List ℕ) × AudioSender)
unfolding send_data
send_audio_bytes s data' size = if ltb soundio_max_data_size size then ok ([], s) else do
  let seq_num = (s.seq_num + 1) % 2 ^ 64
  bytes ← or_fault (memcpy s.soundio_data.data_ 0 data' 0 size)
  let packet : SoundIoData = record s.soundio_data {
    seq_num = seq_num % 2 ^ 32;
    size = size % 2 ^ 32;
    data_ = bytes;
  }
  let (datagram, udp_client) = send_data s.udp_client (packed packet)
  ok (datagram ∷ [], record { udp_client = udp_client; seq_num = seq_num; soundio_data = packet })

-- The ring buffer of libsoundio is a parameter: its capacity, and what copying bytes to its write
-- pointer and moving the pointer by their number makes of it.
module _ {RingBuffer : Type 0} (capacity : RingBuffer → ℕ)
    (write : List ℕ → RingBuffer → RingBuffer) where
  pub record AudioReceiver : Type 0 where
    pub ring_buffer : RingBuffer
    pub audio_player_is_running : Bool

  -- `data` points to byte `offset` of the memory `bytes`; a copy from beyond its end faults.
  unfoldable pub play_audio_bytes : List ℕ → ℕ → ℕ → AudioReceiver → Result AudioReceiver
  play_audio_bytes bytes offset size r =
      if not r.audio_player_is_running
      then ok r
      else if ltb (capacity r.ring_buffer) size
      then ok r
      else if leb (offset + size) (length bytes)
      then ok (record r { ring_buffer = write (slice bytes offset size) r.ring_buffer })
      else fault

  -- The identifier is compared as an `int`, of which 0x7798 has one bit pattern.
  unfoldable pub on_data : List ℕ → AudioReceiver → Result AudioReceiver
  unfolding play_audio_bytes
  on_data bytes r =
      if ltb (length bytes) soundio_data_size
      then ok r
      else if not (u32_at bytes 0 == soundio_protocol_id)
      then ok r
      else do
        throw_if (not (u32_at bytes 0 == soundio_protocol_id)) wrong_protocol_id
        play_audio_bytes bytes 12 (u32_at bytes 8) r
