-- ===== src/Audio/Delivery.antt =====
-- From the sender's memory to the receiver's ring buffer.
use dmx_enttec_node.Prelude.{
  ℕ, ◌+◌, ◌*◌, ◌%◌, ◌^◌, ◌≤◌, ◌<◌, ◌≡◌, ap, ◌∙◌, List, [], ◌∷◌, ◌++◌, length, take, drop, slice,
  true, length-append, length-take, length-drop, take-append_le, u32_at, memcpy_front, take-append,
  ok, arith,
}
use dmx_enttec_node.Proto.Layout.{id-le32}
use dmx_enttec_node.Network.UdpClient.{send_data}
use dmx_enttec_node.Audio.Packet.{
  SoundIoData, AudioSender, AudioReceiver, packed, send_audio_bytes, on_data, play_audio_bytes,
  soundio_protocol_id, soundio_max_data_size,
}

-- The sender between calls
pub record IsReady (s : AudioSender) : Type 0 where
  pub protocol_id : s.soundio_data.protocol_id ≡ soundio_protocol_id
  pub data_size : length s.soundio_data.data_ ≡ soundio_max_data_size

-- The packet that a call forms
abbrev pub next_packet : AudioSender → List ℕ → ℕ → SoundIoData
next_packet s data' size = record s.soundio_data {
  seq_num = (s.seq_num + 1) % 2 ^ 64 % 2 ^ 32;
  size = size % 2 ^ 32;
  data_ = take size data' ++ drop size s.soundio_data.data_;
}

pub length-next_packet :
    (s : AudioSender) (data' : List ℕ) (size : ℕ)
    → IsReady s
    → size ≤ length data'
    → size ≤ soundio_max_data_size
    → length (take size data' ++ drop size s.soundio_data.data_) ≡ soundio_max_data_size
length-next_packet s data' size ready le fits = omega (
  arith,
  ready.data_size,
  length-append (take size data') (drop size s.soundio_data.data_),
  length-take size data',
  length-drop size s.soundio_data.data_,
)

pub send_next_packet :
    (s : AudioSender) (data' : List ℕ) (size : ℕ)
    → IsReady s
    → size ≤ length data'
    → size ≤ soundio_max_data_size
    → send_audio_bytes s data' size
      ≡ ok (
        packed (next_packet s data' size) ∷ [],
        record {
          udp_client = (send_data s.udp_client (packed (next_packet s data' size))).1;
          seq_num = (s.seq_num + 1) % 2 ^ 64;
          soundio_data = next_packet s data' size;
        },
      )
unfolding send_audio_bytes send_data
send_next_packet s data' size ready le fits = ground (
  arith,
  ready.data_size,
  memcpy_front s.soundio_data.data_ data' size (omega (arith, ready.data_size)) le,
)

pub size_field : (size : ℕ) → size ≤ soundio_max_data_size → size % 2 ^ 32 ≡ size
size_field size fits = omega arith

-- The fields of a packet, read from its bytes with anything behind them
packed_size :
    (p : SoundIoData) (rest : List ℕ)
    → p.size < 65536 * 65536
    → u32_at (packed p ++ rest) 8 ≡ p.size
packed_size p rest h = id-le32 p.size h

packed_id :
    (p : SoundIoData) (rest : List ℕ)
    → p.protocol_id < 65536 * 65536
    → u32_at (packed p ++ rest) 0 ≡ p.protocol_id
packed_id p rest h = id-le32 p.protocol_id h

packed_data :
    (p : SoundIoData) (rest : List ℕ) (n : ℕ)
    → n ≤ length p.data_
    → slice (packed p ++ rest) 12 n ≡ take n p.data_
packed_data p rest n h = take-append_le n p.data_ rest h

pub length-packed : (p : SoundIoData) → length (packed p) ≡ 12 + length p.data_
length-packed p = omega arith

module _ {RingBuffer : Type 0} (capacity : RingBuffer → ℕ)
    (write : List ℕ → RingBuffer → RingBuffer) where
  pub receive_packet :
      (p : SoundIoData) (rest : List ℕ) (r : AudioReceiver capacity write)
      → p.protocol_id ≡ soundio_protocol_id
      → length p.data_ ≡ soundio_max_data_size
      → p.size ≤ soundio_max_data_size
      → r.audio_player_is_running ≡ true
      → p.size ≤ capacity r.ring_buffer
      → on_data capacity write (packed p ++ rest) r
        ≡ ok (record r { ring_buffer = write (take p.size p.data_) r.ring_buffer })
  unfolding on_data play_audio_bytes
  receive_packet p rest r id size fits running room = ground (
    arith,
    packed_size p rest (omega arith),
    packed_id p rest (omega arith),
    packed_data p rest p.size (omega arith),
    length-packed p,
    length-append (packed p) rest,
  )

  pub payload :
      (data' tail : List ℕ) (size : ℕ)
      → size ≤ length data'
      → size ≤ soundio_max_data_size
      → take (size % 2 ^ 32) (take size data' ++ tail) ≡ take size data'
  payload data' tail size le fits =
      ap (λ n. take n (take size data' ++ tail)) (size_field size fits)
      ∙ take-append size (take size data') tail (omega (arith, length-take size data'))

  -- Audio of at most 20480 bytes is sent as one datagram, which, with anything behind it, makes a
  -- running receiver with a large enough ring buffer write exactly those bytes to it; the sender
  -- stays ready, so this holds of every call in a row.
  pub on_data-send_audio_bytes :
      (s : AudioSender) (r : AudioReceiver capacity write) (data' rest : List ℕ) (size : ℕ)
      → IsReady s
      → size ≤ length data'
      → size ≤ soundio_max_data_size
      → r.audio_player_is_running ≡ true
      → size ≤ capacity r.ring_buffer
      → (datagram : List ℕ) × (s' : AudioSender) × (send_audio_bytes s data' size
          ≡ ok (datagram ∷ [], s'))
        × IsReady s'
        × (on_data capacity write (datagram ++ rest) r
            ≡ ok (record r { ring_buffer = write (take size data') r.ring_buffer }))
  on_data-send_audio_bytes s r data' rest size ready le fits running room =
      let p = next_packet s data' size in
      let full = length-next_packet s data' size ready le fits in
      (
        packed p,
        record {
          udp_client = (send_data s.udp_client (packed p)).1;
          seq_num = (s.seq_num + 1) % 2 ^ 64;
          soundio_data = p;
        },
        send_next_packet s data' size ready le fits,
        record { protocol_id = ready.protocol_id; data_size = full },
        receive_packet p rest r ready.protocol_id full (omega arith) running (omega arith)
            ∙ ap (λ ys. ok (record r { ring_buffer = write ys r.ring_buffer }))
                (payload data' (drop size s.soundio_data.data_) size le fits),
      )
