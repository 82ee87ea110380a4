-- ===== src/Audio/Streams/Connected.antt =====
-- The connection to libsoundio.
use dmx_enttec_node.Prelude.{ℕ, ◌==◌, ◌≡◌, refl, Option, none, some, Bool-cases, inl, inr}
use dmx_enttec_node.Audio.Devices.{Refs}
use dmx_enttec_node.Audio.Streams.{LibSoundio, Members, create_sound_io, created, connect_sound_io}
use dmx_enttec_node.Audio.Streams.Held.{Lost, Gives, gives, throws, faults, Gives-next, HasSoundio}

module _ (lib : LibSoundio) where
  open lib use {World}

  connect_sound_io-Lost :
      (base : Refs) (p : ℕ) (m : Members lib)
      → Lost lib m.ring_buffer
      → ((j : ℕ) → m.refs j ≡ base j)
      → Gives lib
          (λ q m'. Lost lib m'.ring_buffer × ((j : ℕ) → m'.refs j ≡ base j))
          (connect_sound_io lib p m)
  connect_sound_io-Lost base p m lost refs =
      elim (Bool-cases ((lib.connect_backend p m.world).0 == 0)) [
        | inl fine ↦ rw (fine) (gives _ _ (lost, refs))
        | inr failed ↦ rw (failed) (throws _ _ (inl lost))
      ]

  created-Lost :
      (base : Refs) (made : Option ℕ × World) (m : Members lib)
      → Lost lib m.ring_buffer
      → ((j : ℕ) → m.refs j ≡ base j)
      → Gives lib
          (λ q m'. Lost lib m'.ring_buffer × ((j : ℕ) → m'.refs j ≡ base j))
          (created lib made m)
  created-Lost base (none, w) m lost refs = faults _
  created-Lost base (some p, w) m lost refs =
      connect_sound_io-Lost base p (record m { world = w }) lost refs

  pub create_sound_io-HasSoundio :
      (base : Refs) (m : Members lib)
      → Lost lib m.ring_buffer
      → ((j : ℕ) → m.refs j ≡ base j)
      → Gives lib (λ done m'. HasSoundio lib base m') (create_sound_io lib m)
  unfolding create_sound_io
  create_sound_io-HasSoundio base m lost refs =
      Gives-next lib (created-Lost base (lib.create m.world) m lost refs)
        (λ p m1 (lost1, refs1). gives _ _ (lost1, (p, refl), refs1))
