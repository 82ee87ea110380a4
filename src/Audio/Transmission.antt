-- ===== src/Audio/Transmission.antt =====
-- A stream of audio: what AudioSender sends over UDP, of which datagrams may be lost, to the UDP
-- server of AudioReceiver and on to its ring buffer.
pub mod Arrives
use dmx_enttec_node.Prelude.{
  ℕ, ◌+◌, ◌%◌, ◌^◌, ◌≤◌, ◌≡◌, refl, ap, sym, subst, ◌∙◌, List, [], ◌∷◌, length, take, drop, Bool,
  true, false, leb, le→leb, length-overwrite, length-append, length-drop, take-all, if◌then◌else◌,
  Result, ok, ◌>>=◌, given, arith,
}
use dmx_enttec_node.Network.UdpClient.{send_data}
use dmx_enttec_node.Network.UdpServer.{UdpServer, Recv, received, socket_error, poll_socket, count}
use dmx_enttec_node.Audio.Packet.{
  SoundIoData, soundio_protocol_id, AudioSender, AudioReceiver, packed, send_audio_bytes, on_data,
  soundio_max_data_size, soundio_data_size,
}
use dmx_enttec_node.Audio.Delivery.{
  IsReady, next_packet, send_next_packet, length-next_packet, length-packed, receive_packet,
  payload,
}

-- Blocks of audio, and whether the datagram of each arrives
abbrev pub Transmission : Type 0
Transmission = List (Bool × List ℕ)

abbrev pub arrived : Transmission → List (List ℕ)
arrived [] = []
arrived ((true, block) ∷ rest) = block ∷ arrived rest
arrived ((false, block) ∷ rest) = arrived rest

-- A socket in which one datagram waits: one that is too long for the buffer is an error, and what
-- fits of it is written.
abbrev pub waiting : List ℕ → ℕ → Recv
waiting datagram size =
    if leb (length datagram) size then received datagram else socket_error (take size datagram)

module _ {RingBuffer : Type 0} (capacity : RingBuffer → ℕ)
    (write : List ℕ → RingBuffer → RingBuffer) where
  -- Every block fits a packet and the ring buffer.
  abbrev pub Fits : ℕ → Transmission → Type 0
  Fits room [] = Unit
  Fits room ((arrives, block) ∷ rest) =
      (length block ≤ soundio_max_data_size) × (length block ≤ room) × Fits room rest

  abbrev pub played : List (List ℕ) → RingBuffer → RingBuffer
  played [] ring = ring
  played (block ∷ blocks) ring = played blocks (write block ring)

  -- The polls that take datagrams out of the socket
  abbrev pub receive_all :
      List (List ℕ)
      → UdpServer
      → AudioReceiver capacity write
      → Result (UdpServer × AudioReceiver capacity write)
  receive_all [] u r = ok (u, r)
  receive_all (datagram ∷ datagrams) u r =
      poll_socket (on_data capacity write) (waiting datagram) u r >>= λ (u', r').
      receive_all datagrams u' r'

  abbrev pub deliver :
      Bool
      → List (List ℕ)
      → UdpServer
      → AudioReceiver capacity write
      → Result (UdpServer × AudioReceiver capacity write)
  deliver true datagrams u r = receive_all datagrams u r
  deliver false datagrams u r = ok (u, r)

  abbrev pub transmit :
      Transmission
      → AudioSender
      → UdpServer
      → AudioReceiver capacity write
      → Result (AudioSender × UdpServer × AudioReceiver capacity write)
  transmit [] s u r = ok (s, u, r)
  transmit ((arrives, block) ∷ rest) s u r =
      send_audio_bytes s block (length block) >>= λ (datagrams, s').
      deliver arrives datagrams u r >>= λ (u', r'). transmit rest s' u' r'

  after_handler :
      UdpServer
      → Result (AudioReceiver capacity write)
      → Result (UdpServer × AudioReceiver capacity write)
  after_handler u call = call >>= λ r. ok (u, r)

  receive_one :
      (p : SoundIoData) (u : UdpServer) (r : AudioReceiver capacity write)
      → p.protocol_id ≡ soundio_protocol_id
      → length p.data_ ≡ soundio_max_data_size
      → p.size ≤ soundio_max_data_size
      → r.audio_player_is_running ≡ true
      → p.size ≤ capacity r.ring_buffer
      → soundio_data_size ≤ length u.recv_buffer
      → poll_socket (on_data capacity write) (waiting (packed p)) u r
        ≡ ok (
          count u (packed p),
          record r { ring_buffer = write (take p.size p.data_) r.ring_buffer },
        )
  unfolding poll_socket after_handler
  receive_one p u r id size fits running room buffer =
      rw
        (
          le→leb (length (packed p)) (length u.recv_buffer) (omega (arith, length-packed p)),
          poll_socket,
        )
        (ap (after_handler (count u (packed p))) (
          receive_packet capacity write p (drop (length (packed p)) u.recv_buffer) r id size fits
            running room))

  -- The sender after a call, and the packet
  abbrev pub packet_of : AudioSender → List ℕ → SoundIoData
  packet_of s block = next_packet s block (length block)

  abbrev pub sent : AudioSender → List ℕ → AudioSender
  sent s block = record {
    udp_client = (send_data s.udp_client (packed (packet_of s block))).1;
    seq_num = (s.seq_num + 1) % 2 ^ 64;
    soundio_data = packet_of s block;
  }

  pub sent-IsReady :
      (s : AudioSender) (block : List ℕ)
      → IsReady s
      → length block ≤ soundio_max_data_size
      → IsReady (sent s block)
  sent-IsReady s block ready fits = record {
    protocol_id = ready.protocol_id;
    data_size = length-next_packet s block (length block) ready (omega arith) fits;
  }

  pub buffer_kept :
      (s : AudioSender) (u : UdpServer) (block : List ℕ)
      → IsReady s
      → length block ≤ soundio_max_data_size
      → soundio_data_size ≤ length u.recv_buffer
      → soundio_data_size ≤ length (count u (packed (packet_of s block))).recv_buffer
  unfolding count
  buffer_kept s u block ready fits buffer = omega (
    arith,
    length-overwrite u.recv_buffer (packed (packet_of s block)) 0,
    length-packed (packet_of s block),
    length-next_packet s block (length block) ready (omega arith) fits,
  )

  -- The receiver with a block that has been played
  abbrev pub with_block : AudioReceiver capacity write → List ℕ → AudioReceiver capacity write
  with_block r block = record r { ring_buffer = write block r.ring_buffer }

  pub receive_next_packet :
      (s : AudioSender) (u : UdpServer) (r : AudioReceiver capacity write) (block : List ℕ)
      → IsReady s
      → length block ≤ soundio_max_data_size
      → r.audio_player_is_running ≡ true
      → length block ≤ capacity r.ring_buffer
      → soundio_data_size ≤ length u.recv_buffer
      → poll_socket (on_data capacity write) (waiting (packed (packet_of s block))) u r
        ≡ ok (count u (packed (packet_of s block)), with_block r block)
  receive_next_packet s u r block ready fits running room buffer =
      receive_one (packet_of s block) u r ready.protocol_id
        (length-next_packet s block (length block) ready (omega arith) fits) (omega arith) running
        (omega arith) buffer
      ∙ ap (λ bytes. ok (count u (packed (packet_of s block)), with_block r bytes))
          (payload capacity write block (drop (length block) s.soundio_data.data_) (length block)
              (omega arith) fits
            ∙ take-all (length block) block refl)
