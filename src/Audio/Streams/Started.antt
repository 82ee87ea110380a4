-- ===== src/Audio/Streams/Started.antt =====
-- Start of the audio receiver, and the destructor after it.
use dmx_enttec_node.Prelude.{◌≡◌, ◌∙◌, length, true, false, Option, none, some, Error, Result, inl}
use dmx_enttec_node.Core.EventLoop.{EventLoop}
use dmx_enttec_node.Network.Sockets.{WinSock, Endpoint, Ended, Handlers, start_udp, poll_1ms}
use dmx_enttec_node.Config.{Config}
use dmx_enttec_node.Audio.Devices.{Refs}
use dmx_enttec_node.Audio.Supported.Logged.{log_supported_devices-refs}
use dmx_enttec_node.Audio.Streams.{LibSoundio, Double, Members}
use dmx_enttec_node.Audio.Streams.Player.{
  log_output_devices, with_server, start_logged_server, start_receiver,
}
use dmx_enttec_node.Audio.Streams.Held.{
  Gives, gives, throws, faults, Gives-next, HasSoundio, IsOpen, target-same,
}
use dmx_enttec_node.Audio.Streams.Opened.{start_audio_player-IsOpen}
use dmx_enttec_node.Audio.Streams.Restart.{Destroys, Destroys-Gives}

module _ (lib : LibSoundio) (double : Double) where
  log_output_devices-HasSoundio :
      (base : Refs) (m : Members lib)
      → HasSoundio lib base m
      → Gives lib (λ done m'. HasSoundio lib base m') (log_output_devices lib double m)
  unfolding log_output_devices
  log_output_devices-HasSoundio base m h =
      Gives-next lib (target-same lib (HasSoundio lib base) m.soundio m h)
        (λ p m' (lost, soundio, refs).
          let ins = lib.inputs p m'.world in
          let outs = lib.outputs p m'.world in
          gives _ _ (
            lost,
            soundio,
            λ j.
                (log_supported_devices-refs ins.default_index outs.default_index
                  (length ins.devices) (length outs.devices) false true (λ i. 0) m'.refs j).1
                ∙ refs j,
          ))

  with_server-Gives :
      (base : Refs) (config : Config) (error : Option Error) (m : Members lib)
      → HasSoundio lib base m
      → Gives lib
          (λ done m'. IsOpen lib base m' × (m'.running ≡ true))
          (with_server lib double config error m)
  with_server-Gives base config (some e) m (lost, h, refs) = throws e m (inl lost)
  with_server-Gives base config none m h = start_audio_player-IsOpen lib double base config m h

  start_logged_server-Gives :
      (ws : WinSock) {S : Type 0} (base : Refs) (config : Config) (started : EventLoop S × Ended ws)
      (before : EventLoop S × Endpoint × WinSock.World ws)
      (logged : Result (Unit {0}) × Members lib)
      → Gives lib (λ done m'. HasSoundio lib base m') logged
      → Gives lib
          (λ done m'. IsOpen lib base m' × (m'.running ≡ true))
          (start_logged_server lib double ws config started before logged).0
  start_logged_server-Gives ws base config started before logged (gives done m h) =
      with_server-Gives base config (started.1.0) m h
  start_logged_server-Gives ws base config started before logged (throws x m h) = throws x m h
  start_logged_server-Gives ws base config started before logged (faults m) = faults m

  -- After Start, when the constructor has connected to libsoundio, the destructor releases all four
  -- objects and the one reference to the device; but where Start has thrown anything but that
  -- memory is out or that the stream does not start, the destructor is undefined, since it
  -- releases what no member has been set to.
  pub start_receiver-Destroys :
      (ws : WinSock) {S : Type 0} (config : Config) (handlers : Handlers S) (base : Refs)
      (loop : EventLoop S) (e : Endpoint) (w : WinSock.World ws) (m : Members lib)
      → HasSoundio lib base m
      → Destroys lib double base (start_receiver lib double ws config handlers loop e w m).0
  unfolding start_receiver
  start_receiver-Destroys ws config handlers base loop e w m h = Destroys-Gives lib double base _ (
      start_logged_server-Gives ws base config
        (start_udp ws config.audio_server_port poll_1ms handlers loop e w) (loop, e, w)
        (log_output_devices lib double m) (log_output_devices-HasSoundio base m h))
