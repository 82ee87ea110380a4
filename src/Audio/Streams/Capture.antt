-- ===== src/Audio/Streams/Capture.antt =====
-- libs/soundio/audio_sender.cc: the life of an AudioSender.
use dmx_enttec_node.Prelude.{
  ℕ, length, Bool, true, false, Option, none, some, Result, ok, throw, fault, throw_if, Error,
  already_active,
}
use dmx_enttec_node.Core.Timer.{Callback}
use dmx_enttec_node.Core.EventLoop.{EventLoop, post}
use dmx_enttec_node.Network.Sockets.{WinSock, Endpoint, Ended, connect_udp}
use dmx_enttec_node.Config.{Config}
use dmx_enttec_node.Audio.Supported.{log_supported_devices}
use dmx_enttec_node.Audio.Streams.{
  left, LibSoundio, Members, M, ◌>>=◌, ◌>>◌, lift, target, destroy_stream, unref, destroy_soundio,
  create_sound_io, open_stream, start_stream,
}

module _ (lib : LibSoundio) where
  open lib use {inputs}

  unfoldable pub start_audio_recorder : Config → M lib (Unit {0})
  unfolding open_stream start_stream
  start_audio_recorder config =
      ◌>>=◌ lib
        (open_stream lib inputs config.audio_device_id config.audio_format config.audio_sample_rate)
        (start_stream lib)

  -- The constructor, with whether `sAudioSender` is set
  unfoldable pub init_sender : Bool → M lib (Unit {0})
  unfolding create_sound_io
  init_sender active = ◌>>◌ lib (lift lib (throw_if active already_active)) (create_sound_io lib)

  -- The destructor, and the same calls in the callback of ResetAudioStream
  unfoldable pub destroy_sender : M lib (Unit {0})
  unfolding destroy_stream unref destroy_soundio
  destroy_sender = ◌>>◌ lib (destroy_stream lib) (◌>>◌ lib (unref lib) (destroy_soundio lib))

  -- The callback of ResetAudioStream
  unfoldable pub restart_recorder : Config → M lib (Unit {0})
  unfolding destroy_sender create_sound_io start_audio_recorder
  restart_recorder config =
      ◌>>◌ lib destroy_sender (◌>>◌ lib (create_sound_io lib) (start_audio_recorder config))

  -- ResetAudioStream, with the callback as an argument
  unfoldable pub reset_recording : {S : Type 0} → ℕ → Callback S → EventLoop S → EventLoop S
  unfolding post
  reset_recording now restart loop = post now 2000000000 restart loop

  -- ErrorCallback, on an object that has been constructed. The text of the error is only logged.
  unfoldable pub recorder_failed : Config → ℕ → EventLoop (Members lib) → EventLoop (Members lib)
  unfolding reset_recording restart_recorder
  recorder_failed config now loop = reset_recording now (λ m. left (restart_recorder config m)) loop

  -- LogSupportedDevices for the input devices
  unfoldable pub log_input_devices : M lib (Unit {0})
  unfolding log_supported_devices
  log_input_devices =
      ◌>>=◌ lib (λ m. target lib m.soundio m)
        (λ soundio m.
          let ins = inputs soundio m.world in
          let outs = LibSoundio.outputs lib soundio m.world in
          let (printed, refs, found) =
            log_supported_devices ins.default_index (length ins.devices) outs.default_index
              (length outs.devices) true false (m.refs, (λ i. 0)) in
          (ok tt, record m { refs = refs.0 }))

  -- What follows the connection
  abbrev pub with_client : Config → Option Error → M lib (Unit {0})
  with_client config (some e) m = (throw e, m)
  with_client config none m = start_audio_recorder config m

  -- What follows the log of the devices: the client has been started, or nothing has been done yet.
  abbrev pub start_logged_client :
      (ws : WinSock) {S : Type 0}
      → Config
      → EventLoop S × Ended ws
      → EventLoop S × Endpoint × WinSock.World ws
      → Result (Unit {0}) × Members lib
      → (Result (Unit {0}) × Members lib) × (EventLoop S × Endpoint × WinSock.World ws)
  start_logged_client ws config (loop, (error, e, w)) before (ok done, m) =
      (with_client config error m, (loop, e, w))
  start_logged_client ws config started before (throw x, m) = ((throw x, m), before)
  start_logged_client ws config started before (fault, m) = ((fault, m), before)

  -- Start: the members, and what the UDP client has done to the event loop, its own members and
  -- the system
  unfoldable pub start_sender :
      (ws : WinSock) {S : Type 0}
      → Config
      → ℕ
      → Callback S
      → ℕ
      → EventLoop S
      → Endpoint
      → WinSock.World ws
      → Members lib
      → (Result (Unit {0}) × Members lib) × (EventLoop S × Endpoint × WinSock.World ws)
  unfolding log_input_devices connect_udp start_audio_recorder
  start_sender ws config now report_metrics address loop e w m =
      start_logged_client ws config (connect_udp ws now report_metrics address loop e w)
        (loop, e, w) (log_input_devices m)
