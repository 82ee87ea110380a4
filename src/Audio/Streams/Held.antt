-- ===== src/Audio/Streams/Held.antt =====
-- What an audio receiver or sender holds between its start, its restarts and its destruction. The
-- sender makes no ring buffer, so that it has none to lose.
use Prim.Native.String.{String}
use dmx_enttec_node.Prelude.{
  List, ℕ, ◌+◌, ◌==◌, ◌≡◌, refl, ap, ◌∙◌, if◌then◌else◌, false, Option, none, some, ℤ, Error,
  stream_open_failed, stream_start_failed, Result, ok, throw, fault, inl, ◌⊎◌, out_of_memory,
}
use dmx_enttec_node.Audio.Devices.{SoundIo, Refs}
use dmx_enttec_node.Audio.Choice.{held_by, get_audio_device-refs}
use dmx_enttec_node.Audio.Supported.{log_supported_formats, log_supported_sample_rates}
use dmx_enttec_node.Audio.Formats.{SoundIoFormat, format_from_string}
use dmx_enttec_node.Audio.Streams.{
  ◌>>=◌, ◌>>◌, Pointer, unset, null, dangling, to, LibSoundio, Members, M, next, lift, target,
  open_stream, open_audio_device, keep_device, log_supported, keep_stream, succeeds,
}

module _ (lib : LibSoundio) where
  -- A ring buffer that the destructor must not be given
  abbrev pub Lost : Pointer → Type 0
  Lost unset = Unit {0}
  Lost dangling = Unit {0}
  Lost null = ⊥
  Lost (to p) = ⊥

  -- What holds of the members where an exception leaves a start of the player: the ring buffer is
  -- lost, unless making it or what follows has failed.
  abbrev pub Left : Error → Members lib → Type 0
  Left e m = Lost m.ring_buffer ⊎ ((e ≡ out_of_memory) ⊎ (e ≡ stream_start_failed))

  -- If the call gives a value, the members satisfy a predicate after it.
  pub data Gives {A : Type 0} (P : A → Members lib → Type 0) : Result A × Members lib → Type 0 where
    gives : (a : A) (m : Members lib) → P a m → Gives P (ok a, m)
    throws : (e : Error) (m : Members lib) → Left e m → Gives P (throw e, m)
    faults : (m : Members lib) → Gives P (fault, m)

  pub Gives-next :
      {A B : Type 0} {P : A → Members lib → Type 0} {Q : B → Members lib → Type 0}
      {r : Result A × Members lib} {f : A → M lib B}
      → Gives P r
      → ((a : A) (m : Members lib) → P a m → Gives Q (f a m))
      → Gives Q (next lib r f)
  Gives-next (gives a m h) more = more a m h
  Gives-next (throws e m h) more = throws e m h
  Gives-next (faults m) more = faults m

  -- What the members hold, beyond the references `base`
  abbrev pub HasSoundio : Refs → Members lib → Type 0
  HasSoundio base m =
      Lost m.ring_buffer × ((p : ℕ) × (m.soundio ≡ to p)) × ((j : ℕ) → m.refs j ≡ base j)

  abbrev pub Device : Refs → Members lib → Type 0
  Device base m =
      ((p : ℕ) × (m.soundio ≡ to p))
      × ((i : ℕ) × (m.device ≡ to i) × ((j : ℕ) → m.refs j ≡ base j + (if j == i then 1 else 0)))

  abbrev pub HasDevice : Refs → Members lib → Type 0
  HasDevice base m = Lost m.ring_buffer × Device base m

  abbrev pub HasStream : Refs → Members lib → Type 0
  HasStream base m = Lost m.ring_buffer × Device base m × ((p : ℕ) × (m.stream ≡ to p))

  -- All four objects, and one reference to the device more than before
  abbrev pub IsOpen : Refs → Members lib → Type 0
  IsOpen base m =
      (Device base m × ((p : ℕ) × (m.stream ≡ to p))) × ((p : ℕ) × (m.ring_buffer ≡ to p))

  keep_device-HasDevice :
      (base : Refs) (m : Members lib) (chosen : Result ℕ × Refs)
      → HasSoundio base m
      → ((j : ℕ) → chosen.1 j ≡ m.refs j + held_by chosen.0 j)
      → Gives (λ i m'. HasDevice base m') (keep_device lib chosen m)
  keep_device-HasDevice base m (ok i, refs) (lost, s, r) e =
      gives _ _ (lost, (s, (i, refl, λ j. e j ∙ ap (λ n. n + (if j == i then 1 else 0)) (r j))))
  keep_device-HasDevice base m (throw x, refs) (lost, s, r) e = throws _ _ (inl lost)
  keep_device-HasDevice base m (fault, refs) h e = faults _

  -- What holds of the members still holds after a call that leaves them alone.
  pub Gives-same :
      {A : Type 0} (P : Members lib → Type 0) (r : Result A) (m : Members lib)
      → Lost m.ring_buffer
      → P m
      → Gives (λ a m'. P m') (r, m)
  Gives-same P (ok a) m lost h = gives _ _ h
  Gives-same P (throw e) m lost h = throws _ _ (inl lost)
  Gives-same P fault m lost h = faults _

  pub target-same :
      (P : Members lib → Type 0) (p : Pointer) (m : Members lib)
      → P m
      → Gives (λ a m'. P m') (target lib p m)
  target-same P unset m h = faults _
  target-same P null m h = faults _
  target-same P dangling m h = faults _
  target-same P (to p) m h = gives _ _ h

  open_audio_device-HasDevice :
      (base : Refs) (m : Members lib) (devices : ℕ → LibSoundio.World lib → SoundIo) (id : String)
      → HasSoundio base m
      → Gives (λ i m'. HasDevice base m') (open_audio_device lib devices id m)
  open_audio_device-HasDevice base m devices id h =
      Gives-next {P = λ p m'. HasSoundio base m'} (target-same (HasSoundio base) m.soundio m h)
        (λ p m' h'.
          keep_device-HasDevice base m' _ h'
            (λ j. get_audio_device-refs (devices p m'.world) id false m'.refs j))

  pub succeeds-same :
      (P : Members lib → Type 0) (e : Error) (called : ℕ × LibSoundio.World lib) (m : Members lib)
      → Lost m.ring_buffer
      → P (record m { world = called.1 })
      → Gives (λ a m'. P m') (succeeds lib e called m)
  succeeds-same P e (err, w) m lost h =
      Gives-same P (if err == 0 then ok tt else throw e) (record m { world = w }) lost h

  log_supported-same :
      (P : Members lib → Type 0) (i : ℕ) (m : Members lib)
      → ((m' : Members lib) → P m' → Lost m'.ring_buffer)
      → P m
      → Gives (λ a m'. P m') (log_supported lib i m)
  log_supported-same P i m lost h =
      Gives-next {A = List String}
        {r = lift lib (log_supported_formats (lib.supports_format i m.world)) m}
        {f = λ names.
          ◌>>=◌ lib
            (λ m'. lift lib (log_supported_sample_rates (lib.supports_sample_rate i m'.world)) m')
            (λ rates m'. (ok tt, m'))}
        (Gives-same P (log_supported_formats (lib.supports_format i m.world)) m (lost m h) h)
        (λ names m' h'.
          Gives-next {A = List ℕ}
            {r = lift lib (log_supported_sample_rates (lib.supports_sample_rate i m'.world)) m'}
            {f = λ rates m2. (ok tt, m2)}
            (Gives-same P (log_supported_sample_rates (lib.supports_sample_rate i m'.world)) m'
              (lost m' h') h')
            (λ rates m2 h2. gives tt m2 h2))

  keep_stream-HasStream :
      (base : Refs) (made : Option ℕ × LibSoundio.World lib) (m : Members lib)
      → HasDevice base m
      → Gives (λ p m'. HasStream base m') (keep_stream lib made m)
  keep_stream-HasStream base (none, w) m (lost, d) = throws _ _ (inl lost)
  keep_stream-HasStream base (some p, w) m (lost, d) = gives _ _ (lost, d, (p, refl))

  pub open_stream-HasStream :
      (base : Refs) (m : Members lib) (devices : ℕ → LibSoundio.World lib → SoundIo)
      (id format : String) (sample_rate : ℤ)
      → HasSoundio base m
      → Gives (λ p m'. HasStream base m') (open_stream lib devices id format sample_rate m)
  unfolding open_stream
  open_stream-HasStream base m devices id format sample_rate h =
      let opened : ℕ → SoundIoFormat → M lib ℕ = λ p fmt.
        ◌>>◌ lib
          (λ m'. succeeds lib stream_open_failed (lib.stream_open p fmt sample_rate m'.world) m')
          (lift lib (ok p)) in
      Gives-next {P = λ i m'. HasDevice base m'} (open_audio_device-HasDevice base m devices id h)
        (λ i m1 h1.
          Gives-next {P = λ p m'. HasStream base m'}
            (Gives-next (log_supported-same (HasDevice base) i m1 (λ m' h'. h'.0) h1)
              (λ done m' h'. keep_stream-HasStream base _ m' h'))
            (λ p m2 h2.
              Gives-next {A = SoundIoFormat} {r = lift lib (format_from_string format) m2}
                {f = opened p}
                (Gives-same (HasStream base) (format_from_string format) m2 (h2.0) h2)
                (λ fmt m3 h3.
                  Gives-next {A = Unit {0}}
                    {r = succeeds lib stream_open_failed
                      (lib.stream_open p fmt sample_rate m3.world) m3}
                    {f = λ done. lift lib (ok p)}
                    (succeeds-same (HasStream base) stream_open_failed
                      (lib.stream_open p fmt sample_rate m3.world) m3 (h3.0) h3)
                    (λ done m4 h4. gives p m4 h4))))
