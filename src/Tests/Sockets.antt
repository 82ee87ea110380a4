-- ===== src/Tests/Sockets.antt =====
-- The sockets of the UDP server and client.
use dmx_enttec_node.Prelude.{◌≡◌, ℕ, ◌+◌, ◌-◌, ◌==◌, refl, some, none, false}
use dmx_enttec_node.Network.Sockets.{WinSock, Endpoint, start_server, init_socket, destroy_endpoint}
use dmx_enttec_node.Network.Sockets.Balance.{
  IsCounted, IsBalanced, start_server-IsBalanced, init_socket-IsBalanced,
}

-- Startups and open sockets
pub record Counts : Type 0 where
  pub startups : ℕ
  pub sockets : ℕ

-- Port 80 is taken.
abbrev pub winsock : WinSock
winsock = record {
  World = Counts;
  wsa_startup = λ w. (0, record w { startups = w.startups + 1 });
  wsa_cleanup = λ w. record w { startups = w.startups - 1 };
  open_socket = λ w. (some 5, record w { sockets = w.sockets + 1 });
  set_nonblocking = λ s w. w;
  bind = λ s port w. (port == 80, w);
  close_socket = λ s w. record w { sockets = w.sockets - 1 };
}

no_failure :
    (w : Counts)
    → (WinSock.open_socket winsock w).0 ≡ none
    → Counts.sockets (WinSock.open_socket winsock w).1 ≡ w.sockets
no_failure w e = cc

abbrev counted : IsCounted winsock
counted = record {
  startups = λ w. w.startups;
  sockets = λ w. w.sockets;
  startup_startups = λ w. refl;
  startup_sockets = λ w. refl;
  cleanup_startups = λ w. refl;
  cleanup_sockets = λ w. refl;
  open_startups = λ w. refl;
  open_none = no_failure;
  open_some = λ w s e. refl;
  set_counts = λ s w. (refl, refl);
  bind_counts = λ s port w. (refl, refl);
  close_startups = λ s w. refl;
  close_sockets = λ s w. refl;
}

abbrev pub closed : Endpoint
closed = record { socket = none; running = false }

abbrev pub idle : Counts
idle = record { startups = 0; sockets = 0 }

-- A port that is taken
start_server-IsBalanced_example :
    let (thrown, e, w) = start_server winsock 80 closed idle in
    IsBalanced winsock counted idle (destroy_endpoint winsock e w)
start_server-IsBalanced_example = start_server-IsBalanced winsock counted 80 closed idle refl

init_socket-IsBalanced_example :
    let (thrown, e, w) = init_socket winsock closed idle in
    IsBalanced winsock counted idle (destroy_endpoint winsock e w)
init_socket-IsBalanced_example = init_socket-IsBalanced winsock counted closed idle refl
