-- ===== src/Audio/Streams/Resumed.antt =====
-- A start and a restart of the audio recorder, and the destructor after them.
use dmx_enttec_node.Prelude.{
  ℕ, ◌≡◌, refl, ap, ◌∙◌, ◌==◌, sym, given, Bool-cases, inl, inr, Option, none, some, Error, Result,
  ok, throw, fault,
}
use dmx_enttec_node.Core.Timer.{Callback}
use dmx_enttec_node.Core.EventLoop.{EventLoop}
use dmx_enttec_node.Network.Sockets.{WinSock, Endpoint, connect_udp}
use dmx_enttec_node.Config.{Config}
use dmx_enttec_node.Audio.Devices.{Refs}
use dmx_enttec_node.Audio.Streams.{
  dangling, to, LibSoundio, Members, destroy_stream, next, create_sound_io, created,
  connect_sound_io,
}
use dmx_enttec_node.Audio.Streams.Capture.{
  destroy_sender, restart_recorder, log_input_devices, start_sender,
}
use dmx_enttec_node.Audio.Streams.Held.{Gives, gives, throws, faults, HasSoundio, HasStream}
use dmx_enttec_node.Audio.Streams.Recorded.{
  IsReleased, destroy_sender-HasStream, restart_recorder-HasStream, log_input_devices-HasSoundio,
  start_logged_client-HasStream,
}

module _ (lib : LibSoundio) where
  -- How the destructor ends after a call that has ended without an exception
  abbrev pub Releases : Refs → Result (Unit {0}) × Members lib → Type 0
  Releases base (ok done, m) =
      (m' : Members lib) × (destroy_sender lib m ≡ (ok tt, m')) × IsReleased lib base m'
  Releases base (throw e, m) = Unit {0}
  Releases base (fault, m) = Unit {0}

  Releases-Gives :
      (base : Refs) (r : Result (Unit {0}) × Members lib)
      → Gives lib (λ done m'. HasStream lib base m') r
      → Releases base r
  Releases-Gives base r (gives a m h) = destroy_sender-HasStream lib base m h
  Releases-Gives base r (throws e m h) = tt
  Releases-Gives base r (faults m) = tt

  -- The connection leaves the stream as it is.
  connect_sound_io-stream :
      (p : ℕ) (m : Members lib) → (connect_sound_io lib p m).1.stream ≡ m.stream
  connect_sound_io-stream p m = elim (Bool-cases ((lib.connect_backend p m.world).0 == 0)) [
    | inl fine ↦ rw (fine) refl
    | inr failed ↦ rw (failed) refl
  ]

  created-stream :
      (made : Option ℕ × LibSoundio.World lib) (m : Members lib)
      → (created lib made m).1.stream ≡ m.stream
  created-stream (none, w) m = refl
  created-stream (some p, w) m = connect_sound_io-stream p (record m { world = w })

  then-stream :
      (r : Result ℕ × Members lib)
      → (next lib r (λ p m'. (ok tt, record m' { soundio = to p }))).1.stream ≡ r.1.stream
  then-stream (ok p, m) = refl
  then-stream (throw e, m) = refl
  then-stream (fault, m) = refl

  create_sound_io-stream : (m : Members lib) → (create_sound_io lib m).1.stream ≡ m.stream
  unfolding create_sound_io
  create_sound_io-stream m =
      then-stream (created lib (lib.create m.world) m) ∙ created-stream (lib.create m.world) m

  destroy_sender-dangling :
      (m : Members lib) → m.stream ≡ dangling → (destroy_sender lib m).0 ≡ fault
  unfolding destroy_sender destroy_stream
  destroy_sender-dangling m e = rw (e) refl

  next-throws :
      {A B : Type 0} (r : Result A × Members lib) (f : A → Members lib → Result B × Members lib)
      (e : Error)
      → r.0 ≡ throw e
      → next lib r f ≡ (throw e, r.1)
  next-throws (ok a, m) f e h = cc
  next-throws (throw x, m) f e h = ap (λ y. (y, m)) (cc)
  next-throws (fault, m) f e h = cc

  -- After a start that has succeeded, when the constructor has connected to libsoundio, the
  -- destructor of the sender releases all three objects and the one reference to the device.
  start_sender-Releases :
      (ws : WinSock) {S : Type 0} (config : Config) (base : Refs) (now : ℕ)
      (report_metrics : Callback S) (address : ℕ) (loop : EventLoop S) (e : Endpoint)
      (w : WinSock.World ws) (m : Members lib)
      → HasSoundio lib base m
      → Releases base (start_sender lib ws config now report_metrics address loop e w m).0
  unfolding start_sender
  start_sender-Releases ws config base now report_metrics address loop e w m h =
      Releases-Gives base _ (
        start_logged_client-HasStream lib ws base config
          (connect_udp ws now report_metrics address loop e w) (loop, e, w)
          (log_input_devices lib m) (log_input_devices-HasSoundio lib base m h))

  restart_recorder-throws :
      (config : Config) (m m' : Members lib) (e : Error)
      → destroy_sender lib m ≡ (ok tt, m')
      → (create_sound_io lib m').0 ≡ throw e
      → restart_recorder lib config m ≡ (throw e, (create_sound_io lib m').1)
  unfolding restart_recorder
  restart_recorder-throws config m m' e d h = rw (d) (next-throws (create_sound_io lib m') _ e h)

  -- If the connection to libsoundio throws in a restart of the open audio recorder, so does the
  -- restart, and the destructor is undefined, since it releases the stream again.
  restart_recorder-disconnected :
      (base : Refs) (config : Config) (m : Members lib) (e : Error)
      → HasStream lib base m
      → (create_sound_io lib (destroy_sender lib m).1).0 ≡ throw e
      → ((restart_recorder lib config m).0 ≡ throw e)
        × ((destroy_sender lib (restart_recorder lib config m).1).0 ≡ fault)
  restart_recorder-disconnected base config m e h failed =
      given (destroy_sender-HasStream lib base m h) (λ (m', d, released).
        given
          (restart_recorder-throws config m m' e d
            (ap (λ r. (create_sound_io lib r.1).0) (sym d) ∙ failed))
          (λ ended. (
            ap (λ r. r.0) ended,
            ap (λ r. (destroy_sender lib r.1).0) ended
                ∙ destroy_sender-dangling (create_sound_io lib m').1
                    (create_sound_io-stream m' ∙ released.stream),
          )))

  -- What becomes of a restart after the connection has ended
  abbrev pub Disconnects : Config → Members lib → Result (Unit {0}) → Type 0
  Disconnects config m (throw e) =
      ((restart_recorder lib config m).0 ≡ throw e)
      × ((destroy_sender lib (restart_recorder lib config m).1).0 ≡ fault)
  Disconnects config m (ok done) = Unit {0}
  Disconnects config m fault = Unit {0}

  Disconnects-by :
      (base : Refs) (config : Config) (m : Members lib) (r : Result (Unit {0}))
      → HasStream lib base m
      → (create_sound_io lib (destroy_sender lib m).1).0 ≡ r
      → Disconnects config m r
  Disconnects-by base config m (throw e) h ended =
      restart_recorder-disconnected base config m e h ended
  Disconnects-by base config m (ok done) h ended = tt
  Disconnects-by base config m fault h ended = tt

  -- After a restart of the open audio recorder that has succeeded, the destructor of the sender
  -- releases all three objects and the one reference to the device; but if the connection to
  -- libsoundio throws in the restart, so does the restart, and the destructor is undefined, since
  -- it releases the stream again.
  pub restart_recorder-Releases :
      (base : Refs) (config : Config) (m : Members lib)
      → HasStream lib base m
      → Releases base (restart_recorder lib config m)
        × Disconnects config m (create_sound_io lib (destroy_sender lib m).1).0
  restart_recorder-Releases base config m h = (
    Releases-Gives base (restart_recorder lib config m)
        (restart_recorder-HasStream lib base config m h),
    Disconnects-by base config m _ h refl,
  )
