-- ===== src/Audio/Streams.antt =====
-- libs/soundio: how AudioReceiver and AudioSender open and release the objects of libsoundio, each
-- kept in a plain pointer member.
pub mod Player
pub mod Capture
pub mod Held
pub mod Opened
pub mod Connected
pub mod Restart
pub mod Started
pub mod Recorded
pub mod Resumed
pub mod Failed
use Prim.Native.String.{String}
use dmx_enttec_node.Prelude.{
  ℕ, ◌==◌, if◌then◌else◌, Bool, true, false, Option, none, some, ℤ, Error, Result, ok, throw, fault,
  out_of_memory, stream_open_failed, stream_start_failed, soundio_connect_failed,
}
use dmx_enttec_node.Audio.Formats.{SoundIoFormat, format_from_string}
use dmx_enttec_node.Audio.Devices.{SoundIo, Refs, unref_device, get_audio_device}
use dmx_enttec_node.Audio.Supported.{log_supported_formats, log_supported_sample_rates}

-- A pointer member: the constructors do not set it, so that it first holds whatever stood in its
-- memory; `dangling` is one whose object has been released.
pub data Pointer : Type 0 where
  unset null dangling : Pointer
  to : ℕ → Pointer

-- libsoundio is a parameter: its calls, over its state. A pointer that may be NULL is an option, an
-- error is 0 for none. A device is known by its index in the list of its direction; the calls on
-- streams are those of the direction.
pub record LibSoundio : Type 1 where
  pub World : Type 0
  pub create : World → Option ℕ × World
  pub connect_backend : ℕ → World → ℕ × World
  pub flush_events : ℕ → World → World
  pub destroy : ℕ → World → World
  pub inputs : ℕ → World → SoundIo
  pub outputs : ℕ → World → SoundIo
  pub supports_format : ℕ → World → SoundIoFormat → Bool
  pub supports_sample_rate : ℕ → World → ℕ → Bool
  pub stream_create : ℕ → World → Option ℕ × World
  pub stream_open : ℕ → SoundIoFormat → ℤ → World → ℕ × World
  pub bytes_per_frame : ℕ → World → ℕ
  pub stream_start : ℕ → World → ℕ × World
  pub stream_destroy : ℕ → World → World
  pub ring_create : ℕ → ℤ → World → Option ℕ × World
  pub ring_capacity : ℕ → World → ℕ
  pub ring_write_silence : ℕ → ℕ → World → World
  pub ring_destroy : ℕ → World → World

-- What the code does with a `double`: the constant 0.05, products, and the conversion to `int`,
-- which is undefined out of its range.
pub record Double : Type 1 where
  pub D : Type 0
  pub latency_sec : D
  pub of_int : ℤ → D
  pub mul : D → D → D
  pub to_int : D → Option ℤ

-- What the event loop sees of a call: an exception ends it.
abbrev pub left : {S : Type 0} → Result (Unit {0}) × S → Result S
left (ok done, s) = ok s
left (throw e, s) = throw e
left (fault, s) = fault

-- The members, the references to the devices of the direction, and libsoundio's state
pub record Members (lib : LibSoundio) : Type 0 where
  pub soundio : Pointer
  pub device : Pointer
  pub stream : Pointer
  pub ring_buffer : Pointer
  pub running : Bool
  pub refs : Refs
  pub world : LibSoundio.World lib

module _ (lib : LibSoundio) where
  open lib use {
    World, create, connect_backend, flush_events, destroy, supports_format, supports_sample_rate,
    stream_create, stream_open, stream_start, stream_destroy, ring_destroy,
  }

  -- A call that may throw keeps what it has done to the members.
  abbrev pub M : Type 0 → Type 0
  M A = Members lib → Result A × Members lib

  abbrev pub next : {A B : Type 0} → Result A × Members lib → (A → M B) → Result B × Members lib
  next (ok a, m) f = f a m
  next (throw e, m) f = (throw e, m)
  next (fault, m) f = (fault, m)

  infixl 5 ◌>>=◌ ◌>>◌
  abbrev pub ◌>>=◌ : {A B : Type 0} → M A → (A → M B) → M B
  ◌>>=◌ call f m = next (call m) f

  abbrev pub ◌>>◌ : {B : Type 0} → M (Unit {0}) → M B → M B
  call >> rest = call >>= λ done. rest

  abbrev pub lift : {A : Type 0} → Result A → M A
  lift r m = (r, m)

  -- The use of a pointer that must point to an object
  abbrev pub target : Pointer → M ℕ
  target (to p) m = (ok p, m)
  target _ m = (fault, m)

  -- A function that releases an object accepts NULL; it must not be given any other pointer that
  -- points to no object.
  abbrev pub release_object : Pointer → (ℕ → Members lib → Members lib) → M (Unit {0})
  release_object (to p) f m = (ok tt, f p m)
  release_object null f m = (ok tt, m)
  release_object _ f m = (fault, m)

  unfoldable pub destroy_stream : M (Unit {0})
  destroy_stream m =
      release_object m.stream
        (λ p m. record m { stream = dangling; world = stream_destroy p m.world }) m

  unfoldable pub unref : M (Unit {0})
  unref m =
      release_object m.device (λ i m. record m { device = dangling; refs = unref_device i m.refs })
        m

  unfoldable pub destroy_soundio : M (Unit {0})
  destroy_soundio m =
      release_object m.soundio (λ p m. record m { soundio = dangling; world = destroy p m.world }) m

  unfoldable pub destroy_ring_buffer : M (Unit {0})
  destroy_ring_buffer m =
      release_object m.ring_buffer
        (λ p m. record m { ring_buffer = dangling; world = ring_destroy p m.world }) m

  -- CreateSoundIo with its own backend, and the assignment of its result. NULL from
  -- `soundio_create` is not tested before it is used.
  abbrev pub connect_sound_io : ℕ → M ℕ
  connect_sound_io p m =
      let (err, w) = connect_backend p m.world in
      if err == 0
      then (ok p, record m { world = flush_events p w })
      else (throw soundio_connect_failed, record m { world = w })

  abbrev pub created : Option ℕ × World → M ℕ
  created (none, w) m = (fault, record m { world = w })
  created (some p, w) m = connect_sound_io p (record m { world = w })

  unfoldable pub create_sound_io : M (Unit {0})
  create_sound_io m = (created (create m.world) >>= λ p m. (ok tt, record m { soundio = to p })) m

  -- GetAudioInputDevice or GetAudioOutputDevice, and the assignment of its result
  abbrev pub keep_device : Result ℕ × Refs → M ℕ
  keep_device (ok i, refs) m = (ok i, record m { device = to i; refs = refs })
  keep_device (throw e, refs) m = (throw e, record m { refs = refs })
  keep_device (fault, refs) m = (fault, record m { refs = refs })

  abbrev pub open_audio_device : (ℕ → World → SoundIo) → String → M ℕ
  open_audio_device devices id = (λ m. target m.soundio m) >>= λ p m.
      keep_device (get_audio_device (devices p m.world) id false m.refs) m

  abbrev pub log_supported : ℕ → M (Unit {0})
  log_supported i = (λ m. lift (log_supported_formats (supports_format i m.world)) m) >>= λ names.
      (λ m. lift (log_supported_sample_rates (supports_sample_rate i m.world)) m) >>= λ rates m.
      (ok tt, m)

  -- The stream is assigned before it is tested for NULL.
  abbrev pub keep_stream : Option ℕ × World → M ℕ
  keep_stream (none, w) m = (throw out_of_memory, record m { stream = null; world = w })
  keep_stream (some p, w) m = (ok p, record m { stream = to p; world = w })

  abbrev pub succeeds : Error → ℕ × World → M (Unit {0})
  succeeds e (err, w) m = ((if err == 0 then ok tt else throw e), record m { world = w })

  -- From the choice of the device to the opened stream, which the receiver and the sender share
  unfoldable pub open_stream : (ℕ → World → SoundIo) → String → String → ℤ → M ℕ
  open_stream devices id format sample_rate = open_audio_device devices id >>= λ i.
      log_supported i >> (λ m. keep_stream (stream_create i m.world) m) >>= λ p.
      lift (format_from_string format) >>= λ fmt.
      (λ m. succeeds stream_open_failed (stream_open p fmt sample_rate m.world) m) >> lift (ok p)

  unfoldable pub start_stream : ℕ → M (Unit {0})
  start_stream p m = succeeds stream_start_failed (stream_start p m.world) m
