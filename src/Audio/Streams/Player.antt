-- ===== src/Audio/Streams/Player.antt =====
-- libs/soundio/audio_receiver.cc: the life of an AudioReceiver.
use dmx_enttec_node.Prelude.{
  ℕ, length, leb, if◌then◌else◌, Bool, true, false, Option, none, some, ℤ, pos, negsuc, Result, ok,
  throw, fault, or_fault, throw_if, Error, already_active, out_of_memory,
}
use dmx_enttec_node.Core.Timer.{Callback}
use dmx_enttec_node.Core.EventLoop.{EventLoop, post}
use dmx_enttec_node.Network.Sockets.{WinSock, Endpoint, Ended, Handlers, poll_1ms, start_udp}
use dmx_enttec_node.Config.{Config}
use dmx_enttec_node.Audio.Supported.{log_supported_devices}
use dmx_enttec_node.Audio.Streams.{
  left, null, to, LibSoundio, Double, Members, M, ◌>>=◌, ◌>>◌, lift, target, destroy_stream, unref,
  destroy_soundio, destroy_ring_buffer, create_sound_io, open_stream, start_stream,
}

module _ (lib : LibSoundio) (double : Double) where
  open lib use {outputs, bytes_per_frame, ring_create, ring_capacity, ring_write_silence}
  open double use {latency_sec, of_int, mul, to_int}

  -- `sMicrophoneLatencySec * 64 * mConfig.mAudioSampleRate * mOutStream->bytes_per_frame`
  abbrev pub ring_size : ℤ → ℕ → Option ℤ
  ring_size sample_rate frame =
      to_int
        (mul (mul (mul latency_sec (of_int (pos 64))) (of_int sample_rate)) (of_int (pos frame)))

  -- `sMicrophoneLatencySec * mConfig.mAudioSampleRate * mOutStream->bytes_per_frame`
  abbrev pub silence_size : ℤ → ℕ → Option ℤ
  silence_size sample_rate frame =
      to_int (mul (mul latency_sec (of_int sample_rate)) (of_int (pos frame)))

  -- The ring buffer is assigned before it is tested for NULL.
  abbrev pub keep_ring : Option ℕ × LibSoundio.World lib → M lib ℕ
  keep_ring (none, w) m = (throw out_of_memory, record m { ring_buffer = null; world = w })
  keep_ring (some p, w) m = (ok p, record m { ring_buffer = to p; world = w })

  -- `memset` at the write pointer, whose size is converted to a `size_t`, and moving the pointer
  abbrev pub write_silence : ℕ → ℤ → M lib (Unit {0})
  write_silence ring (negsuc n) m = (fault, m)
  write_silence ring (pos n) m =
      if leb n (ring_capacity ring m.world)
      then (ok tt, record m { world = ring_write_silence ring n m.world })
      else (fault, m)

  -- From the opened stream on
  unfoldable pub play_stream : ℤ → ℕ → M lib (Unit {0})
  unfolding start_stream
  play_stream sample_rate p =
      ◌>>=◌ lib (λ m. lift lib (or_fault (ring_size sample_rate (bytes_per_frame p m.world))) m)
        (λ capacity.
          ◌>>=◌ lib (λ m. target lib m.soundio m)
            (λ soundio.
              ◌>>=◌ lib (λ m. keep_ring (ring_create soundio capacity m.world) m)
                (λ ring.
                  ◌>>=◌ lib
                    (λ m.
                      lift lib (or_fault (silence_size sample_rate (bytes_per_frame p m.world))) m)
                    (λ size. ◌>>◌ lib (write_silence ring size) (
                      ◌>>◌ lib (start_stream lib p) (λ m. (ok tt, record m { running = true })))))))

  unfoldable pub start_audio_player : Config → M lib (Unit {0})
  unfolding open_stream play_stream
  start_audio_player config =
      ◌>>=◌ lib
        (open_stream lib outputs config.audio_device_id config.audio_format
          config.audio_sample_rate)
        (play_stream config.audio_sample_rate)

  -- The constructor, with whether `sAudioReceiver` is set
  unfoldable pub init_receiver : Bool → M lib (Unit {0})
  unfolding create_sound_io
  init_receiver active = ◌>>◌ lib (lift lib (throw_if active already_active)) (create_sound_io lib)

  -- The destructor, and the same calls in the callback of ResetAudioStream
  unfoldable pub destroy_receiver : M lib (Unit {0})
  unfolding destroy_stream unref destroy_soundio destroy_ring_buffer
  destroy_receiver =
      ◌>>◌ lib (destroy_stream lib)
        (◌>>◌ lib (unref lib) (◌>>◌ lib (destroy_soundio lib) (destroy_ring_buffer lib)))

  -- The callback of ResetAudioStream
  unfoldable pub restart_player : Config → M lib (Unit {0})
  unfolding destroy_receiver create_sound_io start_audio_player
  restart_player config =
      ◌>>◌ lib destroy_receiver (◌>>◌ lib (create_sound_io lib) (start_audio_player config))

  -- ResetAudioStream, with the callback as an argument
  unfoldable pub reset_audio_stream :
      {S : Type 0} → ℕ → Callback S → Members lib × EventLoop S → Members lib × EventLoop S
  unfolding post
  reset_audio_stream now restart (m, loop) =
      (record m { running = false }, post now 2000000000 restart loop)

  -- ErrorCallback, on an object that has been constructed. The text of the error is only logged.
  unfoldable pub player_failed :
      Config → ℕ → Members lib × EventLoop (Members lib) → Members lib × EventLoop (Members lib)
  unfolding reset_audio_stream restart_player
  player_failed config now s = reset_audio_stream now (λ m. left (restart_player config m)) s

  -- LogSupportedDevices for the output devices
  unfoldable pub log_output_devices : M lib (Unit {0})
  unfolding log_supported_devices
  log_output_devices =
      ◌>>=◌ lib (λ m. target lib m.soundio m)
        (λ soundio m.
          let ins = LibSoundio.inputs lib soundio m.world in
          let outs = outputs soundio m.world in
          let (printed, refs, found) =
            log_supported_devices ins.default_index (length ins.devices) outs.default_index
              (length outs.devices) false true ((λ i. 0), m.refs) in
          (ok tt, record m { refs = refs.1 }))

  -- What follows the start of the UDP server
  abbrev pub with_server : Config → Option Error → M lib (Unit {0})
  with_server config (some e) m = (throw e, m)
  with_server config none m = start_audio_player config m

  -- What follows the log of the devices: the server has been started, or nothing has been done yet.
  abbrev pub start_logged_server :
      (ws : WinSock) {S : Type 0}
      → Config
      → EventLoop S × Ended ws
      → EventLoop S × Endpoint × WinSock.World ws
      → Result (Unit {0}) × Members lib
      → (Result (Unit {0}) × Members lib) × (EventLoop S × Endpoint × WinSock.World ws)
  start_logged_server ws config (loop, (error, e, w)) before (ok done, m) =
      (with_server config error m, (loop, e, w))
  start_logged_server ws config started before (throw x, m) = ((throw x, m), before)
  start_logged_server ws config started before (fault, m) = ((fault, m), before)

  -- Start: the members, and what the UDP server has done to the event loop, its own members and
  -- the system
  unfoldable pub start_receiver :
      (ws : WinSock) {S : Type 0}
      → Config
      → Handlers S
      → EventLoop S
      → Endpoint
      → WinSock.World ws
      → Members lib
      → (Result (Unit {0}) × Members lib) × (EventLoop S × Endpoint × WinSock.World ws)
  unfolding log_output_devices start_udp start_audio_player
  start_receiver ws config handlers loop e w m =
      start_logged_server ws config
        (start_udp ws config.audio_server_port poll_1ms handlers loop e w) (loop, e, w)
        (log_output_devices m)
