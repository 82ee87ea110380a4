-- ===== src/Audio/Streams/Opened.antt =====
-- The start of the audio player opens all that it holds.
use dmx_enttec_node.Prelude.{
  ℕ, ◌==◌, ◌≡◌, refl, leb, true, Option, none, some, ℤ, pos, negsuc, stream_start_failed, or_fault,
  Bool-cases, inl, inr,
}
use dmx_enttec_node.Config.{Config}
use dmx_enttec_node.Audio.Devices.{Refs}
use dmx_enttec_node.Audio.Streams.{LibSoundio, Double, Members, lift, succeeds, start_stream}
use dmx_enttec_node.Audio.Streams.Player.{
  ring_size, silence_size, keep_ring, write_silence, play_stream, start_audio_player,
}
use dmx_enttec_node.Audio.Streams.Held.{
  Gives, gives, throws, faults, Gives-next, HasSoundio, HasStream, IsOpen, target-same,
  open_stream-HasStream,
}

module _ (lib : LibSoundio) (double : Double) where
  open lib use {World, ring_create, ring_capacity, bytes_per_frame}

  keep_ring-IsOpen :
      (base : Refs) (made : Option ℕ × World) (m : Members lib)
      → HasStream lib base m
      → Gives lib (λ p m'. IsOpen lib base m') (keep_ring lib double made m)
  keep_ring-IsOpen base (none, w) m h = throws _ _ (inr (inl refl))
  keep_ring-IsOpen base (some p, w) m (lost, d, st) = gives _ _ ((d, st), (p, refl))

  size-IsOpen :
      (base : Refs) (size : Option ℤ) (m : Members lib)
      → IsOpen lib base m
      → Gives lib (λ n m'. IsOpen lib base m') (lift lib (or_fault size) m)
  size-IsOpen base none m h = faults _
  size-IsOpen base (some n) m h = gives _ _ h

  size-HasStream :
      (base : Refs) (size : Option ℤ) (m : Members lib)
      → HasStream lib base m
      → Gives lib (λ n m'. HasStream lib base m') (lift lib (or_fault size) m)
  size-HasStream base none m h = faults _
  size-HasStream base (some n) m h = gives _ _ h

  write_silence-IsOpen :
      (base : Refs) (ring : ℕ) (size : ℤ) (m : Members lib)
      → IsOpen lib base m
      → Gives lib (λ done m'. IsOpen lib base m') (write_silence lib double ring size m)
  write_silence-IsOpen base ring (negsuc n) m h = faults _
  write_silence-IsOpen base ring (pos n) m h =
      elim (Bool-cases (leb n (ring_capacity ring m.world))) [
        | inl fits ↦ rw (fits) (gives _ _ h)
        | inr misfit ↦ rw (misfit) (faults _)
      ]

  start_stream-IsOpen :
      (base : Refs) (called : ℕ × World) (m : Members lib)
      → IsOpen lib base m
      → Gives lib (λ done m'. IsOpen lib base m') (succeeds lib stream_start_failed called m)
  start_stream-IsOpen base (err, w) m h = elim (Bool-cases (err == 0)) [
    | inl fine ↦ rw (fine) (gives _ _ h)
    | inr failed ↦ rw (failed) (throws _ _ (inr (inr refl)))
  ]

  play_stream-IsOpen :
      (base : Refs) (sample_rate : ℤ) (p : ℕ) (m : Members lib)
      → HasStream lib base m
      → Gives lib
          (λ done m'. IsOpen lib base m' × (m'.running ≡ true))
          (play_stream lib double sample_rate p m)
  unfolding play_stream start_stream
  play_stream-IsOpen base sample_rate p m h =
      Gives-next lib
        (size-HasStream base (ring_size lib double sample_rate (bytes_per_frame p m.world)) m h)
        (λ capacity m1 h1.
          Gives-next lib (target-same lib (HasStream lib base) m1.soundio m1 h1) (λ soundio m2 h2.
            Gives-next lib (keep_ring-IsOpen base (ring_create soundio capacity m2.world) m2 h2)
              (λ ring m3 h3.
                Gives-next lib
                  (size-IsOpen base
                    (silence_size lib double sample_rate (bytes_per_frame p m3.world)) m3 h3)
                  (λ size m4 h4.
                    Gives-next lib (write_silence-IsOpen base ring size m4 h4) (λ done m5 h5.
                      Gives-next lib (start_stream-IsOpen base (lib.stream_start p m5.world) m5 h5)
                        (λ done' m6 h6. gives _ _ (h6, refl)))))))

  pub start_audio_player-IsOpen :
      (base : Refs) (config : Config) (m : Members lib)
      → HasSoundio lib base m
      → Gives lib
          (λ done m'. IsOpen lib base m' × (m'.running ≡ true))
          (start_audio_player lib double config m)
  unfolding start_audio_player
  start_audio_player-IsOpen base config m h =
      Gives-next lib
        (open_stream-HasStream lib base m lib.outputs config.audio_device_id config.audio_format
          config.audio_sample_rate h)
        (λ p m1 h1. play_stream-IsOpen base config.audio_sample_rate p m1 h1)
