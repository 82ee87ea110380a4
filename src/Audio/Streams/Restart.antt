-- ===== src/Audio/Streams/Restart.antt =====
-- A restart of the audio player, and the destructor after it.
use dmx_enttec_node.Prelude.{
  subst, sym, given, ℕ, ◌≡◌, refl, true, stream_start_failed, Result, ok, throw, fault, arith, inl,
  inr, ◌⊎◌, out_of_memory,
}
use dmx_enttec_node.Config.{Config}
use dmx_enttec_node.Audio.Devices.{Refs, unref_device}
use dmx_enttec_node.Audio.Streams.{
  Pointer, unset, null, dangling, to, LibSoundio, Double, Members, M, next, release_object,
  destroy_stream, unref, destroy_soundio, destroy_ring_buffer,
}
use dmx_enttec_node.Audio.Streams.Player.{destroy_receiver, restart_player}
use dmx_enttec_node.Audio.Streams.Opened.{start_audio_player-IsOpen}
use dmx_enttec_node.Audio.Streams.Connected.{create_sound_io-HasSoundio}
use dmx_enttec_node.Audio.Streams.Held.{Lost, Gives, gives, throws, faults, Gives-next, IsOpen}

module _ (lib : LibSoundio) (double : Double) where
  -- All four objects are released, and with them the reference to the device.
  pub record IsReleased (base : Refs) (m : Members lib) : Type 0 where
    pub soundio : m.soundio ≡ dangling
    pub device : m.device ≡ dangling
    pub stream : m.stream ≡ dangling
    pub ring_buffer : m.ring_buffer ≡ dangling
    pub refs : (j : ℕ) → m.refs j ≡ base j

  pub destroy_receiver-IsOpen :
      (base : Refs) (m : Members lib)
      → IsOpen lib base m
      → (m' : Members lib) × (destroy_receiver lib double m ≡ (ok tt, m')) × IsReleased base m'
  unfolding destroy_receiver destroy_stream unref destroy_soundio destroy_ring_buffer
  destroy_receiver-IsOpen base m ((((p, soundio), (i, device, refs)), (q, stream)), (r, ring)) = (
    record {
      soundio = dangling;
      device = dangling;
      stream = dangling;
      ring_buffer = dangling;
      running = m.running;
      refs = unref_device i m.refs;
      world = lib.ring_destroy r (lib.destroy p (lib.stream_destroy q m.world));
    },
    rw (stream, device, soundio, ring) refl,
    record {
      soundio = refl;
      device = refl;
      stream = refl;
      ring_buffer = refl;
      refs = λ j. ground (arith, refs j);
    },
  )

  restart_player-IsOpen :
      (base : Refs) (config : Config) (m : Members lib)
      → IsOpen lib base m
      → Gives lib
          (λ done m'. IsOpen lib base m' × (m'.running ≡ true))
          (restart_player lib double config m)
  unfolding restart_player
  restart_player-IsOpen base config m h =
      given (destroy_receiver-IsOpen base m h) (λ (m', e, released). rw (e) (
        Gives-next lib
          (create_sound_io-HasSoundio lib base m' (subst (Lost lib) (sym released.ring_buffer) tt)
            released.refs)
          (λ done m2 h2. start_audio_player-IsOpen lib double base config m2 h2)))

  -- Without its ring buffer, the members cannot be released.
  release_object-Lost :
      (p : Pointer) (f : ℕ → Members lib → Members lib) (m : Members lib)
      → Lost lib p
      → (release_object lib p f m).0 ≡ fault
  release_object-Lost unset f m lost = refl
  release_object-Lost dangling f m lost = refl
  release_object-Lost null f m lost = absurd lost
  release_object-Lost (to p) f m lost = absurd lost

  released_then :
      (p : Pointer) (f : ℕ → Members lib → Members lib) (m : Members lib) (rest : M lib (Unit {0}))
      → ((q : ℕ) → (f q m).ring_buffer ≡ m.ring_buffer)
      → Lost lib m.ring_buffer
      → ((m' : Members lib) → Lost lib m'.ring_buffer → (rest m').0 ≡ fault)
      → (next lib (release_object lib p f m) (λ done. rest)).0 ≡ fault
  released_then unset f m rest same lost later = refl
  released_then dangling f m rest same lost later = refl
  released_then null f m rest same lost later = later m lost
  released_then (to p) f m rest same lost later =
      later (f p m) (subst (Lost lib) (sym (same p)) lost)

  destroy_receiver-Lost :
      (m : Members lib) → Lost lib m.ring_buffer → (destroy_receiver lib double m).0 ≡ fault
  unfolding destroy_receiver destroy_stream unref destroy_soundio destroy_ring_buffer
  destroy_receiver-Lost m lost =
      released_then m.stream _ m _ (λ q. refl) lost
        (λ m1 lost1.
          released_then m1.device _ m1 _ (λ q. refl) lost1
            (λ m2 lost2.
              released_then m2.soundio _ m2 _ (λ q. refl) lost2
                (λ m3 lost3. release_object-Lost m3.ring_buffer _ m3 lost3)))

  -- What the destructor does after a call has ended
  abbrev pub Destroys : Refs → Result (Unit {0}) × Members lib → Type 0
  Destroys base (ok done, m) =
      (m' : Members lib) × (destroy_receiver lib double m ≡ (ok tt, m')) × IsReleased base m'
  Destroys base (throw e, m) =
      ((destroy_receiver lib double m).0 ≡ fault)
      ⊎ ((e ≡ out_of_memory) ⊎ (e ≡ stream_start_failed))
  Destroys base (fault, m) = Unit {0}

  pub Destroys-Gives :
      (base : Refs) (r : Result (Unit {0}) × Members lib)
      → Gives lib (λ done m'. IsOpen lib base m' × (m'.running ≡ true)) r
      → Destroys base r
  Destroys-Gives base r (gives a m (h, running)) = destroy_receiver-IsOpen base m h
  Destroys-Gives base r (throws e m (inl lost)) = inl (destroy_receiver-Lost m lost)
  Destroys-Gives base r (throws e m (inr late)) = inr late
  Destroys-Gives base r (faults m) = tt

  -- After a restart of the open audio player the destructor releases all four objects and the one
  -- reference to the device; but where the restart has thrown anything but that memory is out or
  -- that the stream does not start, the destructor is undefined, since it releases objects again.
  pub restart_player-Destroys :
      (base : Refs) (config : Config) (m : Members lib)
      → IsOpen lib base m
      → Destroys base (restart_player lib double config m)
  restart_player-Destroys base config m h =
      Destroys-Gives base (restart_player lib double config m)
        (restart_player-IsOpen base config m h)
