-- ===== src/Audio/Streams/Recorded.antt =====
-- What a start and a restart of the audio recorder open.
use dmx_enttec_node.Prelude.{
  given, ℕ, ◌≡◌, refl, ◌∙◌, true, false, length, Option, none, some, Error, Result, ok, arith,
  stream_start_failed, inl,
}
use dmx_enttec_node.Core.EventLoop.{EventLoop}
use dmx_enttec_node.Network.Sockets.{WinSock, Endpoint, Ended}
use dmx_enttec_node.Config.{Config}
use dmx_enttec_node.Audio.Devices.{Refs, unref_device}
use dmx_enttec_node.Audio.Supported.Logged.{log_supported_devices-refs}
use dmx_enttec_node.Audio.Streams.{
  dangling, LibSoundio, Members, destroy_stream, unref, destroy_soundio, start_stream,
}
use dmx_enttec_node.Audio.Streams.Capture.{
  start_audio_recorder, destroy_sender, restart_recorder, log_input_devices, with_client,
  start_logged_client,
}
use dmx_enttec_node.Audio.Streams.Connected.{create_sound_io-HasSoundio}
use dmx_enttec_node.Audio.Streams.Held.{
  Lost, Gives, gives, throws, faults, Gives-next, HasSoundio, HasStream, target-same,
  open_stream-HasStream, succeeds-same,
}

module _ (lib : LibSoundio) where
  -- All three objects are released, and with them the reference to the device. A sender has no ring
  -- buffer.
  pub record IsReleased (base : Refs) (m : Members lib) : Type 0 where
    pub soundio : m.soundio ≡ dangling
    pub device : m.device ≡ dangling
    pub stream : m.stream ≡ dangling
    pub ring_buffer : Lost lib m.ring_buffer
    pub refs : (j : ℕ) → m.refs j ≡ base j

  pub destroy_sender-HasStream :
      (base : Refs) (m : Members lib)
      → HasStream lib base m
      → (m' : Members lib) × (destroy_sender lib m ≡ (ok tt, m')) × IsReleased base m'
  unfolding destroy_sender destroy_stream unref destroy_soundio
  destroy_sender-HasStream base m (lost, ((p, soundio), (i, device, refs)), (q, stream)) = (
    record {
      soundio = dangling;
      device = dangling;
      stream = dangling;
      ring_buffer = m.ring_buffer;
      running = m.running;
      refs = unref_device i m.refs;
      world = lib.destroy p (lib.stream_destroy q m.world);
    },
    rw (stream, device, soundio) refl,
    record {
      soundio = refl;
      device = refl;
      stream = refl;
      ring_buffer = lost;
      refs = λ j. ground (arith, refs j);
    },
  )

  start_audio_recorder-HasStream :
      (base : Refs) (config : Config) (m : Members lib)
      → HasSoundio lib base m
      → Gives lib (λ done m'. HasStream lib base m') (start_audio_recorder lib config m)
  unfolding start_audio_recorder start_stream
  start_audio_recorder-HasStream base config m h =
      Gives-next lib
        (open_stream-HasStream lib base m lib.inputs config.audio_device_id config.audio_format
          config.audio_sample_rate h)
        (λ p m1 h1.
          succeeds-same lib (HasStream lib base) stream_start_failed (lib.stream_start p m1.world)
            m1 (h1.0) h1)

  pub restart_recorder-HasStream :
      (base : Refs) (config : Config) (m : Members lib)
      → HasStream lib base m
      → Gives lib (λ done m'. HasStream lib base m') (restart_recorder lib config m)
  unfolding restart_recorder
  restart_recorder-HasStream base config m h =
      given (destroy_sender-HasStream base m h) (λ (m', e, released). rw (e) (
        Gives-next lib (create_sound_io-HasSoundio lib base m' released.ring_buffer released.refs)
          (λ done m2 h2. start_audio_recorder-HasStream base config m2 h2)))

  pub log_input_devices-HasSoundio :
      (base : Refs) (m : Members lib)
      → HasSoundio lib base m
      → Gives lib (λ done m'. HasSoundio lib base m') (log_input_devices lib m)
  unfolding log_input_devices
  log_input_devices-HasSoundio base m h =
      Gives-next lib (target-same lib (HasSoundio lib base) m.soundio m h)
        (λ p m' (lost, soundio, refs).
          let ins = lib.inputs p m'.world in
          let outs = lib.outputs p m'.world in
          gives _ _ (
            lost,
            soundio,
            λ j.
                (log_supported_devices-refs ins.default_index outs.default_index
                  (length ins.devices) (length outs.devices) true false m'.refs (λ i. 0) j).0
                ∙ refs j,
          ))

  with_client-HasStream :
      (base : Refs) (config : Config) (error : Option Error) (m : Members lib)
      → HasSoundio lib base m
      → Gives lib (λ done m'. HasStream lib base m') (with_client lib config error m)
  with_client-HasStream base config (some e) m (lost, h, refs) = throws e m (inl lost)
  with_client-HasStream base config none m h = start_audio_recorder-HasStream base config m h

  pub start_logged_client-HasStream :
      (ws : WinSock) {S : Type 0} (base : Refs) (config : Config) (started : EventLoop S × Ended ws)
      (before : EventLoop S × Endpoint × WinSock.World ws)
      (logged : Result (Unit {0}) × Members lib)
      → Gives lib (λ done m'. HasSoundio lib base m') logged
      → Gives lib
          (λ done m'. HasStream lib base m')
          (start_logged_client lib ws config started before logged).0
  start_logged_client-HasStream ws base config started before logged (gives done m h) =
      with_client-HasStream base config (started.1.0) m h
  start_logged_client-HasStream ws base config started before logged (throws x m h) = throws x m h
  start_logged_client-HasStream ws base config started before logged (faults m) = faults m
