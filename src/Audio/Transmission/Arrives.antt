-- ===== src/Audio/Transmission/Arrives.antt =====
-- A stream of audio, of which datagrams may be lost, from the sender to the ring buffer.
use dmx_enttec_node.Prelude.{
  ℕ, ◌+◌, ◌%◌, ◌^◌, ◌≤◌, ◌≡◌, refl, sym, subst, List, [], ◌∷◌, length, true, false, ok, arith,
}
use dmx_enttec_node.Network.UdpServer.{UdpServer, count}
use dmx_enttec_node.Audio.Packet.{AudioSender, AudioReceiver, packed, soundio_data_size}
use dmx_enttec_node.Audio.Delivery.{IsReady, send_next_packet}
use dmx_enttec_node.Audio.Transmission.{
  Transmission, arrived, Fits, buffer_kept, packet_of, played, receive_next_packet, sent,
  sent-IsReady, transmit, with_block,
}

module _ {RingBuffer : Type 0} (capacity : RingBuffer → ℕ)
    (write : List ℕ → RingBuffer → RingBuffer) where
  -- How a transmission ends: the blocks that have arrived are in the ring buffer, in order, the
  -- sender is ready for more, and both count what they have handled.
  pub record Ends (blocks : Transmission) (s : AudioSender) (u : UdpServer)
      (r : AudioReceiver capacity write) : Type 0 where
    pub sender : AudioSender
    pub server : UdpServer
    pub plays :
        transmit capacity write blocks s u r
        ≡ ok (
          sender,
          server,
          record r { ring_buffer = played capacity write (arrived blocks) r.ring_buffer },
        )
    pub is_ready : IsReady sender
    pub seq_num : sender.seq_num % 2 ^ 64 ≡ (s.seq_num + length blocks) % 2 ^ 64
    pub packets :
        server.received_packets_counter % 2 ^ 32
        ≡ (u.received_packets_counter + length (arrived blocks)) % 2 ^ 32

  Fits-room :
      (a b : ℕ) (blocks : Transmission)
      → a ≡ b
      → Fits capacity write a blocks
      → Fits capacity write b blocks
  Fits-room a b blocks e fits = subst (λ room. Fits capacity write room blocks) e fits

  -- Blocks of at most 20480 bytes that the ring buffer has room for are sent one after the other by
  -- a ready sender, and any of the datagrams may be lost: with a receive buffer that a packet fits
  -- and a ring buffer whose capacity stays, a running receiver writes exactly the blocks that arrive
  -- to its ring buffer, in order, and each as a whole; neither side throws or leaves an array, the
  -- sender is ready for more, and the numbers that both count, up to their width, are those of the
  -- blocks.
  pub transmit-Ends :
      (blocks : Transmission) (s : AudioSender) (u : UdpServer) (r : AudioReceiver capacity write)
      → ((block : List ℕ) (ring : RingBuffer) → capacity (write block ring) ≡ capacity ring)
      → IsReady s
      → r.audio_player_is_running ≡ true
      → Fits capacity write (capacity r.ring_buffer) blocks
      → soundio_data_size ≤ length u.recv_buffer
      → Ends blocks s u r
  unfolding count
  transmit-Ends [] s u r fixed ready running fits buffer = record {
    sender = s;
    server = u;
    plays = refl;
    is_ready = ready;
    seq_num = omega arith;
    packets = omega arith;
  }
  transmit-Ends ((false, block) ∷ rest) s u r fixed ready running fits buffer =
      let ends =
        transmit-Ends rest (sent capacity write s block) u r fixed
          (sent-IsReady capacity write s block ready (fits.0)) running (fits.2) buffer in
      record {
        sender = ends.sender;
        server = ends.server;
        plays =
            rw (send_next_packet s block (length block) ready (omega arith) (fits.0)) ends.plays;
        is_ready = ends.is_ready;
        seq_num = omega (arith, ends.seq_num);
        packets = ends.packets;
      }
  transmit-Ends ((true, block) ∷ rest) s u r fixed ready running fits buffer =
      let u' : UdpServer = count u (packed (packet_of capacity write s block)) in
      let ends =
        transmit-Ends rest (sent capacity write s block) u' (with_block capacity write r block)
          fixed (sent-IsReady capacity write s block ready (fits.0)) running
          (Fits-room (capacity r.ring_buffer) (capacity (write block r.ring_buffer)) rest
            (sym (fixed block r.ring_buffer)) (fits.2))
          (buffer_kept capacity write s u block ready (fits.0) buffer) in
      record {
        sender = ends.sender;
        server = ends.server;
        plays =
            rw
              (
                send_next_packet s block (length block) ready (omega arith) (fits.0),
                receive_next_packet capacity write s u r block ready (fits.0) running (fits.1)
                    buffer,
              )
              ends.plays;
        is_ready = ends.is_ready;
        seq_num = omega (arith, ends.seq_num);
        packets = omega (arith, ends.packets);
      }
