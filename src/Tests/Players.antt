-- ===== src/Tests/Players.antt =====
-- The life of the audio receiver, and what is logged of a device.
use dmx_enttec_node.Prelude.{
  ℕ, ◌+◌, ◌*◌, ◌/◌, ◌==◌, ◌≡◌, refl, true, false, if◌then◌else◌, some, ℤ, pos, negsuc, arith, fault,
  [], ◌∷◌, ok, ◌>>=◌, List,
}
use dmx_enttec_node.Config.{Config, empty}
use dmx_enttec_node.Core.EventLoop.{Entry, EventLoop, run}
use dmx_enttec_node.Core.EventLoop.Waits.{poll_all, goes_on}
use dmx_enttec_node.Network.Sockets.{Handlers}
use dmx_enttec_node.Audio.Streams.{
  left, LibSoundio, Double, Members, unset, to, destroy_stream, create_sound_io,
}
use dmx_enttec_node.Audio.Streams.Capture.{destroy_sender, restart_recorder}
use dmx_enttec_node.Audio.Streams.Failed.{only, player_failed-restarts}
use dmx_enttec_node.Audio.Streams.Resumed.{Releases, Disconnects, restart_recorder-Releases}
use dmx_enttec_node.Audio.Streams.Player.{
  start_receiver, restart_player, destroy_receiver, player_failed,
}
use dmx_enttec_node.Audio.Streams.Restart.{Destroys, restart_player-Destroys}
use dmx_enttec_node.Audio.Streams.Started.{start_receiver-Destroys}
use dmx_enttec_node.Tests.Audios.{soundio, no_refs}
use dmx_enttec_node.Tests.Sockets.{winsock, closed, idle}

-- Objects are numbered in the order in which they are made.
abbrev library : LibSoundio
library = record {
  World = ℕ;
  create = λ w. (some w, w + 1);
  connect_backend = λ p w. (0, w);
  flush_events = λ p w. w;
  destroy = λ p w. w;
  inputs = λ p w. soundio;
  outputs = λ p w. soundio;
  supports_format = λ i w format. true;
  supports_sample_rate = λ i w rate. true;
  stream_create = λ i w. (some w, w + 1);
  stream_open = λ p format rate w. (0, w);
  bytes_per_frame = λ p w. 4;
  stream_start = λ p w. (0, w);
  stream_destroy = λ p w. w;
  ring_create = λ p size w. (some w, w + 1);
  ring_capacity = λ p w. 100000;
  ring_write_silence = λ p n w. w;
  ring_destroy = λ p w. w;
}

abbrev natural : ℤ → ℕ
natural (pos n) = n
natural (negsuc n) = 0

-- Twentieths
abbrev twentieths : Double
twentieths = record {
  D = ℕ;
  latency_sec = 1;
  of_int = λ n. 20 * natural n;
  mul = λ a b. a * b / 20;
  to_int = λ d. some (pos (d / 20));
}

abbrev config : Config
config = record empty {
  audio_device_id = "speaker";
  audio_format = "SoundIoFormatS16LE";
  audio_sample_rate = pos 100;
}

abbrev connected : Members library
connected = record {
  soundio = to 7;
  device = unset;
  stream = unset;
  ring_buffer = unset;
  running = false;
  refs = no_refs;
  world = 8;
}

abbrev opened : Members library
opened = record connected {
  device = to 1;
  stream = to 8;
  ring_buffer = to 9;
  running = true;
  refs = λ j. if j == 1 then 1 else 0;
  world = 10;
}

restart_player-Destroys_example :
    Destroys library twentieths no_refs (restart_player library twentieths config opened)
restart_player-Destroys_example =
    restart_player-Destroys library twentieths no_refs config opened
      ((((7, refl), (1, refl, λ j. omega arith)), (8, refl)), (9, refl))

abbrev pub handlers : Handlers ℕ
handlers = record {
  poll_now = 0;
  poll_socket = λ s. ok s;
  poll_address = 1;
  metrics_now = 0;
  report_metrics = λ s. ok s;
  metrics_address = 2;
}

abbrev pub loop : EventLoop ℕ
loop = record { callbacks = []; timers = [] }

start_receiver-Destroys_example :
    Destroys library twentieths no_refs
      (start_receiver library twentieths winsock config handlers loop closed idle connected).0
start_receiver-Destroys_example =
    start_receiver-Destroys library twentieths winsock config handlers no_refs loop closed idle
      connected (tt, (7, refl), λ j. refl)

-- It connects once, and not again.
abbrev unplugged : LibSoundio
unplugged = record library { connect_backend = λ p w. (5, w) }

abbrev recording : Members unplugged
recording = record {
  soundio = to 7;
  device = to 1;
  stream = to 8;
  ring_buffer = unset;
  running = false;
  refs = λ j. if j == 1 then 1 else 0;
  world = 10;
}

restart_recorder-Releases_example :
    Releases unplugged no_refs (restart_recorder unplugged config recording)
    × Disconnects unplugged config recording
        (create_sound_io unplugged (destroy_sender unplugged recording).1).0
restart_recorder-Releases_example =
    restart_recorder-Releases unplugged no_refs config recording
      (tt, ((7, refl), (1, refl, λ j. omega arith)), (8, refl))

destroy_connected : (destroy_receiver library twentieths connected).0 ≡ fault
unfolding destroy_receiver destroy_stream
destroy_connected = refl

-- A timer that runs in every round
abbrev timers : List (Entry (Members library))
timers =
    record { address = 1; timer = record { interval = 0; callback = some ok; last_call = 0 } } ∷ []

abbrev muted : Members library
muted = record opened { running = false }

-- An error at 5 ns, a round at 20 ns, and one ten seconds later
player_failed-restarts_example :
    ((player_failed library twentieths config 5 (opened, only timers)).0 ≡ muted)
    × (run
          (20 ∷ 10000000020 ∷ [])
          (player_failed library twentieths config 5 (opened, only timers)).1
          muted
        ≡ (poll_all (20 ∷ []) timers muted >>= λ (es', m').
            goes_on 10000000020 (left (restart_player library twentieths config m')) es'))
player_failed-restarts_example =
    player_failed-restarts library twentieths config 5 10000000020 (20 ∷ []) timers opened
      (omega arith) (omega arith)
