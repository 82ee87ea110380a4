-- ===== src/Audio/Streams/Failed.antt =====
-- libs/soundio/audio_receiver.cc and audio_sender.cc: what follows an error of the stream.
use dmx_enttec_node.Prelude.{ℕ, ◌+◌, ◌<◌, ◌≡◌, refl, List, [], ◌∷◌, ◌++◌, false, ◌>>=◌}
use dmx_enttec_node.Core.EventLoop.{EventLoop, Entry, post, run}
use dmx_enttec_node.Core.EventLoop.Waits.{Until, poll_all, goes_on, run-posted}
use dmx_enttec_node.Config.{Config}
use dmx_enttec_node.Audio.Streams.{left, LibSoundio, Double, Members}
use dmx_enttec_node.Audio.Streams.Player.{restart_player, reset_audio_stream, player_failed}
use dmx_enttec_node.Audio.Streams.Capture.{restart_recorder, reset_recording, recorder_failed}

-- The loop with the entries of its timers and no callbacks posted
abbrev pub only : {S : Type 0} → List (Entry S) → EventLoop S
only es = record { callbacks = []; timers = es }

module _ (lib : LibSoundio) (double : Double) where
  -- After an error of the playing stream, while nothing else is posted: no sound data is taken, and
  -- while the loop goes round for two seconds only its timers run; the first round after that
  -- restarts the player, once, before the timers.
  pub player_failed-restarts :
      (config : Config) (now later : ℕ) (times : List ℕ) (es : List (Entry (Members lib)))
      (m : Members lib)
      → Until (now + 2000000000) times
      → now + 2000000000 < later
      → ((player_failed lib double config now (m, only es)).0 ≡ record m { running = false })
        × (run
              (times ++ later ∷ [])
              (player_failed lib double config now (m, only es)).1
              (record m { running = false })
            ≡ (poll_all times es (record m { running = false }) >>= λ (es', m').
                goes_on later (left (restart_player lib double config m')) es'))
  unfolding player_failed reset_audio_stream post
  player_failed-restarts config now later times es m waits past = (
    refl,
    run-posted (now + 2000000000) later (λ m. left (restart_player lib double config m)) times es _
        waits past,
  )

  -- After an error of the recording stream likewise
  pub recorder_failed-restarts :
      (config : Config) (now later : ℕ) (times : List ℕ) (es : List (Entry (Members lib)))
      (m : Members lib)
      → Until (now + 2000000000) times
      → now + 2000000000 < later
      → run (times ++ later ∷ []) (recorder_failed lib config now (only es)) m ≡ (
          poll_all times es m >>= λ (es', m').
          goes_on later (left (restart_recorder lib config m')) es')
  unfolding recorder_failed reset_recording post
  recorder_failed-restarts config now later times es m waits past =
      run-posted (now + 2000000000) later (λ m. left (restart_recorder lib config m)) times es m
        waits past
