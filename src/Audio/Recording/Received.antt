-- ===== src/Audio/Recording/Received.antt =====
-- From ReadCallback of the sender to the ring buffer of the receiver.
use dmx_enttec_node.Prelude.{
  ℕ, ◌-◌, ◌*◌, ◌≤◌, List, [], ◌∷◌, ◌++◌, length, take, replicate, ◌≡◌, sym, ap, ◌∙◌, true, some, ok,
  given, subst, length-take, length-append, length-replicate, arith,
}
use dmx_enttec_node.Audio.Packet.{AudioSender, AudioReceiver, on_data, soundio_max_data_size}
use dmx_enttec_node.Audio.Delivery.{IsReady, on_data-send_audio_bytes}
use dmx_enttec_node.Audio.Recording.{SoundIoInStream, Recorder, read_callback}
use dmx_enttec_node.Audio.Recording.Copied.{IsInStream}
use dmx_enttec_node.Audio.Recording.Captured.{Captures}
use dmx_enttec_node.Audio.Recording.Sent.{Sends, read_callback-Sends}

abbrev first : List (List ℕ) × AudioSender → List (List ℕ)
first sent = sent.0

ok_injective : {A : Type 0} {x y : A} → ok x ≡ ok y → x ≡ y
ok_injective e = cc

some_injective : {A : Type 0} {x y : A} → some x ≡ some y → x ≡ y
some_injective e = cc

-- The size of the buffer, from what stands at its front
front_size :
    (size : ℕ) (buffer bytes : List ℕ)
    → length bytes ≤ size
    → take size buffer ≡ bytes ++ replicate (size - length bytes) 0
    → size ≤ length buffer
front_size size buffer bytes le e = omega (
  arith,
  ap length e,
  length-take size buffer,
  length-append bytes (replicate (size - length bytes) 0),
  length-replicate {A = ℕ} (size - length bytes) 0,
)

module _ {RingBuffer : Type 0} (capacity : RingBuffer → ℕ)
    (write : List ℕ → RingBuffer → RingBuffer) {Stream : Type 0} (is : SoundIoInStream Stream)
    (ii : IsInStream is) where
  -- If ReadCallback with at most 20480 bytes to read returns, it has sent one datagram; a running
  -- receiver with a large enough ring buffer that gets it writes to the ring buffer the bytes of the
  -- frames that the stream has handed over, with silence behind them up to the size that could be
  -- read. The sender is ready, memory that the buffer is enlarged to is of the size asked for.
  pub on_data-read_callback :
      (allocate : ℕ → List ℕ) (frame_count_max : ℕ) (s : AudioSender) (stream : Stream)
      (buffer : List ℕ) (sent : List (List ℕ) × AudioSender) (r : Recorder Stream)
      (receiver : AudioReceiver capacity write) (rest : List ℕ)
      → let size = frame_count_max * is.bytes_per_frame in
        IsReady s
        → ((n : ℕ) → n ≤ length (allocate n))
        → size ≤ soundio_max_data_size
        → receiver.audio_player_is_running ≡ true
        → size ≤ capacity receiver.ring_buffer
        → read_callback is allocate frame_count_max s stream buffer ≡ some (ok (sent, r))
        → (datagram bytes : List ℕ) × Captures is frame_count_max stream bytes r.stream
          × (sent.0 ≡ datagram ∷ [])
          × (on_data capacity write (datagram ++ rest) receiver
              ≡ ok (record receiver {
                ring_buffer =
                    write (bytes ++ replicate (size - length bytes) 0) receiver.ring_buffer;
              }))
  on_data-read_callback allocate most s stream buffer sent r receiver rest ready enough fits running
        room e =
      let size = most * is.bytes_per_frame in
      given
        (read_callback-Sends is ii allocate most s stream buffer ready enough (omega (arith, fits)))
        (λ (recorded, e', h).
          given (subst (Sends is most s stream) (some_injective (sym e' ∙ e)) h)
            (λ (bytes, captured, le, sending, front, content).
              given
                (on_data-send_audio_bytes capacity write s receiver r.frames_buffer rest size ready
                  (front_size size r.frames_buffer bytes le front) fits running room)
                (λ (datagram, s', sending', ready', heard). (
                  datagram,
                  bytes,
                  captured,
                  ap first (ok_injective (sym sending ∙ sending')),
                  heard
                      ∙ ap
                          (λ ys.
                            ok (record receiver { ring_buffer = write ys receiver.ring_buffer }))
                          front,
                ))))
