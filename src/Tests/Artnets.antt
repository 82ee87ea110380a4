-- ===== src/Tests/Artnets.antt =====
-- The ArtNet server on a machine whose address is the loopback address.
use dmx_enttec_node.Prelude.{
  length, ℕ, ◌+◌, ◌≡◌, refl, List, [], ◌∷◌, replicate, some, false, ok, arith,
}
use dmx_enttec_node.Core.EventLoop.{EventLoop}
use dmx_enttec_node.Artnet.{Names, LibArtnet, Pollers, Added, loopback, listening, start_listening}
use dmx_enttec_node.Artnet.Loopback.{Finds, entry, start_listening-unguarded}
use dmx_enttec_node.Tests.Sockets.{Counts, winsock, idle}

abbrev pub names : Names winsock
names = record {
  connect = λ socket w. (false, w);
  get_sock_name = λ socket w. (some 7, w);
  inet_ntop = λ address. some loopback;
}

-- A node as the address that replies name, and an address as the length of its text
abbrev pub lib : LibArtnet
lib = record {
  Node = ℕ;
  artnet_new = λ ip verbose. some 0;
  set_short_name = λ name node. node;
  set_long_name = λ name node. node;
  set_node_type = λ node. node;
  set_handlers = λ node. node;
  artnet_start = λ node. (0, node);
  artnet_get_sd = λ node. node + 3;
  inet_addr = λ ip. length ip;
  write_reply_ip = λ address node. address;
  send_poll_reply = λ node. node;
  artnet_stop = λ node. node;
  artnet_destroy = λ node. node;
}

abbrev added : Added ℕ
added = record { now = 0; callback = λ n. ok n; address = 1 }

abbrev pub pollers : Pollers ℕ
pollers = record { poll = added; reply = added; metrics = added }

abbrev loop : EventLoop ℕ
loop = record { callbacks = []; timers = [] }

abbrev pub garbage : List ℕ
garbage = replicate 22 9

abbrev searching : Counts
searching = record { startups = 1; sockets = 1 }

finds : Finds winsock names idle searching 5 loopback
finds = record {
  started = record { startups = 1; sockets = 0 };
  opened = searching;
  connected = searching;
  address = 7;
  starts = refl;
  opens = refl;
  connects = refl;
  gets_name = refl;
  prints = refl;
  fits = omega arith;
}

start_listening-unguarded_example : start_listening lib pollers winsock names garbage loop idle ≡ (
  listening 22 3 (record {
    callbacks = [];
    timers = entry 0 added ∷ entry 1000000000 added ∷ entry 5000000000 added ∷ [];
  }),
  idle,
)
start_listening-unguarded_example =
    start_listening-unguarded winsock names lib pollers garbage loop idle searching 5 loopback 0 0
      refl finds refl refl
