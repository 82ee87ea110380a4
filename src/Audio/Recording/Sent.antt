-- ===== src/Audio/Recording/Sent.antt =====
-- What ReadCallback sends.
use dmx_enttec_node.Prelude.{
  ℕ, zero, suc, ◌+◌, ◌-◌, ◌*◌, ◌%◌, if◌then◌else◌, ◌^◌, ◌≤◌, ◌<◌, List, [], ◌∷◌, ◌++◌, length, take,
  drop, replicate, ◌≡◌, refl, sym, ap, subst, given, ◌∙◌, length-append, length-drop,
  length-replicate, take-append, ltb, true, false, some, after, memset, Result, ok, throw, fault,
  throw_if, begin_read_failed, end_read_failed, copied_too_much, ◌>>=◌, ◌>>◌, Bool-cases, inl, inr,
  ◌⊎◌, arith,
}
use dmx_enttec_node.Network.UdpClient.{send_data}
use dmx_enttec_node.Audio.Packet.{
  SoundIoData, AudioSender, packed, send_audio_bytes, soundio_max_data_size,
}
use dmx_enttec_node.Audio.Delivery.{IsReady, next_packet, send_next_packet, size_field}
use dmx_enttec_node.Audio.Playback.Callback.{int_mul-ok, not_ltb}
use dmx_enttec_node.Audio.Recording.{SoundIoInStream, Recorder, read_callback, reserved}
use dmx_enttec_node.Audio.Recording.Copied.{IsInStream}
use dmx_enttec_node.Audio.Recording.Captured.{Captures, Records, read_loop-Records}

-- What a call with `size` bytes of audio gives, and the sender after it: one datagram with the audio
-- under the next sequence number, or nothing where it is too long for a packet.
abbrev pub sent_packet : AudioSender → ℕ → List ℕ → SoundIoData
sent_packet s size audio = record s.soundio_data {
  seq_num = (s.seq_num + 1) % 2 ^ 64 % 2 ^ 32;
  size = size;
  data_ = audio ++ drop size s.soundio_data.data_;
}

abbrev sent_as : AudioSender → SoundIoData → List (List ℕ) × AudioSender
sent_as s packet = (
  packed packet ∷ [],
  record {
    udp_client = (send_data s.udp_client (packed packet)).1;
    seq_num = (s.seq_num + 1) % 2 ^ 64;
    soundio_data = packet;
  },
)

abbrev pub sent_or_dropped : AudioSender → ℕ → List ℕ → List (List ℕ) × AudioSender
sent_or_dropped s size audio =
    if ltb soundio_max_data_size size then ([], s) else sent_as s (sent_packet s size audio)

next_packet-sent :
    (s : AudioSender) (data' : List ℕ) (size : ℕ)
    → size ≤ soundio_max_data_size
    → next_packet s data' size ≡ sent_packet s size (take size data')
next_packet-sent s data' size fits =
    ap
      (λ (n : ℕ).
        let p : SoundIoData = record (sent_packet s size (take size data')) { size = n } in p)
      (size_field size fits)

too_long-dropped :
    (s : AudioSender) (data' : List ℕ) (size : ℕ)
    → ltb soundio_max_data_size size ≡ true
    → send_audio_bytes s data' size ≡ ok (sent_or_dropped s size (take size data'))
unfolding send_audio_bytes
too_long-dropped s data' size e = rw e

fitting-sent :
    (s : AudioSender) (size : ℕ) (audio : List ℕ)
    → ltb soundio_max_data_size size ≡ false
    → sent_as s (sent_packet s size audio) ≡ sent_or_dropped s size audio
fitting-sent s size audio e = rw e

-- A ready sender neither throws nor faults, whatever the size.
send_audio_bytes-sends :
    (s : AudioSender) (data' : List ℕ) (size : ℕ)
    → IsReady s
    → size ≤ length data'
    → send_audio_bytes s data' size ≡ ok (sent_or_dropped s size (take size data'))
send_audio_bytes-sends s data' size ready le = elim (Bool-cases (ltb soundio_max_data_size size)) [
  | inl e ↦ too_long-dropped s data' size e
  | inr e ↦
      let fits : size ≤ soundio_max_data_size = ground (arith, e) in
      send_next_packet s data' size ready le fits
      ∙ ap (λ packet. ok (sent_as s packet)) (next_packet-sent s data' size fits)
      ∙ ap ok (fitting-sent s size (take size data') e)
]

memset_front :
    (dst : List ℕ) (n : ℕ) → n ≤ length dst → memset dst 0 n ≡ some (replicate n 0 ++ drop n dst)
unfolding memset
memset_front dst n h = ground (arith, length-replicate {A = ℕ} n 0)

-- Copying over the front of a block of zeros leaves the rest of them.
take-overwritten :
    (xs ys : List ℕ) (n : ℕ)
    → length xs ≤ n
    → take n (xs ++ drop (length xs) (replicate n 0 ++ ys)) ≡ xs ++ replicate (n - length xs) 0
take-overwritten [] ys n h =
    take-append n (replicate n 0) ys (length-replicate {A = ℕ} n 0)
    ∙ ap (λ k. replicate k 0) (omega arith)
take-overwritten (x ∷ xs) ys zero h = absurd (omega arith)
take-overwritten (x ∷ xs) ys (suc n) h =
    ap (λ zs. x ∷ zs)
      (take-overwritten xs ys n (omega arith) ∙ ap (λ k. xs ++ replicate k 0) (omega arith))

reserved-ok :
    (allocate : ℕ → List ℕ) (size : ℕ) (buffer : List ℕ)
    → ((n : ℕ) → n ≤ length (allocate n))
    → size * 16 < 2 ^ 31
    → (buffer' : List ℕ) × (reserved allocate size buffer ≡ ok buffer') × (size ≤ length buffer')
reserved-ok allocate size buffer enough small = elim (Bool-cases (ltb (length buffer) size)) [
  | inl e ↦ (
    allocate (size * 16),
    rw (e, int_mul-ok size 16 small) refl,
    omega (arith, enough (size * 16)),
  )
  | inr e ↦ (buffer, rw (e) refl, ground (arith, e))
]

module _ {Stream : Type 0} (is : SoundIoInStream Stream) where
  -- The callback has recorded bytes of the stream, at most `size`, and sent them with silence behind
  -- them, `size` bytes in all, or dropped them where that is more than a packet holds; or an
  -- exception of the stream has ended it.
  abbrev pub Sends :
      ℕ → AudioSender → Stream → Result ((List (List ℕ) × AudioSender) × Recorder Stream) → Type 0
  Sends frame_count_max s stream fault = ⊥
  Sends frame_count_max s stream (throw e) = (e ≡ begin_read_failed) ⊎ (e ≡ end_read_failed)
  Sends frame_count_max s stream (ok (sent, r)) =
      let size = frame_count_max * is.bytes_per_frame in
      (bytes : List ℕ) × Captures is frame_count_max stream bytes r.stream
      × (length bytes ≤ size)
      × (send_audio_bytes s r.frames_buffer size ≡ ok sent)
      × (take size r.frames_buffer ≡ bytes ++ replicate (size - length bytes) 0)
      × (sent ≡ sent_or_dropped s size (bytes ++ replicate (size - length bytes) 0))

  module _ (ii : IsInStream is) where
    -- What the callback sends once the stream has been read
    sending :
        (frame_count_max : ℕ) (s : AudioSender) (bytes tail : List ℕ)
        → let size = frame_count_max * is.bytes_per_frame in
          let content = bytes ++ drop (length bytes) (replicate size 0 ++ tail) in
          IsReady s
          → length bytes ≤ size
          → send_audio_bytes s content size ≡ ok (sent_or_dropped s size (take size content))
    sending most s bytes tail ready le =
        let size = most * is.bytes_per_frame in
        send_audio_bytes-sends s (bytes ++ drop (length bytes) (replicate size 0 ++ tail)) size
          ready
          (omega (
            arith,
            length-replicate {A = ℕ} size 0,
            length-append bytes (drop (length bytes) (replicate size 0 ++ tail)),
            length-drop (length bytes) (replicate size 0 ++ tail),
            length-append (replicate size 0) tail,
          ))

    Sends-from :
        (frame_count_max : ℕ) (s : AudioSender) (stream : Stream) (tail : List ℕ)
        (r : Result (Recorder Stream))
        → let size = frame_count_max * is.bytes_per_frame in
          IsReady s
          → Records is frame_count_max stream [] (replicate size 0 ++ tail) r
          → Sends frame_count_max s stream (
              r >>= λ r'.
              throw_if (ltb size r'.frames_buffer_index) copied_too_much
              >> (send_audio_bytes s r'.frames_buffer size >>= λ sent. ok (sent, r')))
    Sends-from most s stream tail fault ready h = h
    Sends-from most s stream tail (throw e) ready h = h
    Sends-from most s stream tail (ok r) ready h =
        let size = most * is.bytes_per_frame in
        let rest = drop (length h.bytes) (replicate size 0 ++ tail) in
        let zeros = length-replicate {A = ℕ} size 0 in
        subst
          (λ q. Sends most s stream (
            throw_if (ltb size q.frames_buffer_index) copied_too_much
            >> (send_audio_bytes s q.frames_buffer size >>= λ sent. ok (sent, q))))
          (sym h.copied)
          (rw
            (not_ltb size (length h.bytes) h.bytes_le, sending most s h.bytes tail ready h.bytes_le)
            (
              h.bytes,
              h.captured,
              h.bytes_le,
              sending most s h.bytes tail ready h.bytes_le,
              take-overwritten h.bytes tail size h.bytes_le,
              ap (sent_or_dropped s size) (take-overwritten h.bytes tail size h.bytes_le),
            ))

    -- With a ready sender, memory of at least the size that is asked for where the buffer is
    -- enlarged, and sizes that an `int` holds, the callback ends, without an access out of bounds
    -- or an overflow, and its test for too many bytes never fires: with an exception of the stream,
    -- or having copied, in order, the bytes of the frames that the stream has handed over, with
    -- silence for the holes, padded with silence to the size of the frames that it may read. If that
    -- size is at most 20480 bytes, they have been sent in one packet with the next sequence number,
    -- and if it is more, nothing has been sent and the sender is as before.
    pub read_callback-Sends :
        (allocate : ℕ → List ℕ) (frame_count_max : ℕ) (s : AudioSender) (stream : Stream)
        (buffer : List ℕ)
        → IsReady s
        → ((n : ℕ) → n ≤ length (allocate n))
        → frame_count_max * is.bytes_per_frame * 16 < 2 ^ 31
        → (r : Result ((List (List ℕ) × AudioSender) × Recorder Stream)) × (read_callback is
              allocate frame_count_max s stream buffer
            ≡ some r)
          × Sends frame_count_max s stream r
    unfolding read_callback
    read_callback-Sends allocate most s stream buffer ready enough small =
        let size = most * is.bytes_per_frame in
        given (reserved-ok allocate size buffer enough small) (λ (buffer', e, room).
          given
            (read_loop-Records is ii (suc most) most stream []
              (replicate size 0 ++ drop size buffer') (omega arith)
              (omega (
                arith,
                length-replicate {A = ℕ} size 0,
                length-append (replicate size 0) (drop size buffer'),
              ))
              (omega arith))
            (λ (r, e', h). (
              _,
              rw
                  (
                    int_mul-ok most is.bytes_per_frame (omega arith),
                    e,
                    memset_front buffer' size room,
                    read_callback,
                  )
                  (rw (after, e') refl),
              Sends-from most s stream (drop size buffer') r ready h,
            )))
