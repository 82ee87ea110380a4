-- ===== src/Network/Sockets.antt =====
-- libs/network: how UdpServer and UdpClient open their socket, and their destructors.
pub mod Balance
use dmx_enttec_node.Prelude.{
  ℕ, ◌%◌, ◌^◌, Bool, true, false, not, ◌==◌, if◌then◌else◌, Option, none, some, Error, wsa_failed,
  socket_failed, bind_failed,
}
use dmx_enttec_node.Core.Timer.{Callback}
use dmx_enttec_node.Core.EventLoop.{EventLoop, add_timer, add_poller}

-- The calls of WinSock, over the state `World` of the system. A socket is a number; `socket` gives
-- none for INVALID_SOCKET, and `bind` whether it failed.
pub record WinSock : Type 1 where
  pub World : Type 0
  pub wsa_startup : World → ℕ × World
  pub wsa_cleanup : World → World
  pub open_socket : World → Option ℕ × World
  pub set_nonblocking : ℕ → World → World
  pub bind : ℕ → ℕ → World → Bool × World
  pub close_socket : ℕ → World → World

-- mSocket and mRunning
pub record Endpoint : Type 0 where
  pub socket : Option ℕ
  pub running : Bool

pub data PollingMode : Type 0 where
  hot_poll poll_1ms : PollingMode

-- What the two calls of AddTimer or AddPoller are given
pub record Handlers (S : Type 0) : Type 0 where
  pub poll_now : ℕ
  pub poll_socket : Callback S
  pub poll_address : ℕ
  pub metrics_now : ℕ
  pub report_metrics : Callback S
  pub metrics_address : ℕ

module _ {S : Type 0} where
  -- The switch on the mode
  abbrev pub add_poll_handler : PollingMode → Handlers S → EventLoop S → EventLoop S
  add_poll_handler hot_poll t loop = add_poller t.poll_now t.poll_socket t.poll_address loop
  add_poll_handler poll_1ms t loop = add_timer t.poll_now 1000000 t.poll_socket t.poll_address loop

  abbrev pub add_metrics_handler : Handlers S → EventLoop S → EventLoop S
  add_metrics_handler t loop =
      add_timer t.metrics_now 5000000000 t.report_metrics t.metrics_address loop

-- What a call leaves: the exception, the endpoint and the system
abbrev pub Ended : WinSock → Type 0
Ended ws = Option Error × Endpoint × WinSock.World ws

module _ (ws : WinSock) where
  open ws use {World, wsa_startup, wsa_cleanup, open_socket, set_nonblocking, bind, close_socket}

  -- From the socket on
  unfoldable pub bind_server : ℕ → Endpoint → Option ℕ → World → Ended ws
  bind_server listen_port e none w = (some socket_failed, record e { socket = none }, wsa_cleanup w)
  bind_server listen_port e (some socket) w =
      let (failed, w') = bind socket (listen_port % 2 ^ 16) (set_nonblocking socket w) in
      if failed
      then (
        some bind_failed,
        record e { socket = some socket },
        wsa_cleanup (close_socket socket w'),
      )
      else (none, record { socket = some socket; running = true }, w')

  unfoldable pub start_server : ℕ → Endpoint → World → Ended ws
  unfolding bind_server
  start_server listen_port e w =
      let (error, w1) = wsa_startup w in
      let (socket, w2) = open_socket w1 in
      if not (error == 0) then (some wsa_failed, e, w1) else bind_server listen_port e socket w2

  -- UdpServer::Start: the handlers are added only where StartServer has not thrown.
  unfoldable pub start_udp :
      {S : Type 0}
      → ℕ
      → PollingMode
      → Handlers S
      → EventLoop S
      → Endpoint
      → World
      → EventLoop S × Ended ws
  unfolding start_server
  start_udp listen_port mode t loop e w =
      let ended = start_server listen_port e w in
      (
        elim (ended.0) [
          | none ↦ add_metrics_handler t (add_poll_handler mode t loop)
          | some error ↦ loop
        ],
        ended,
      )

  unfoldable pub mark_connected : Endpoint → Option ℕ → World → Ended ws
  mark_connected e none w = (some socket_failed, record e { socket = none }, wsa_cleanup w)
  mark_connected e (some socket) w = (none, record { socket = some socket; running = true }, w)

  -- UdpClient::InitSocket; the address is only stored.
  unfoldable pub init_socket : Endpoint → World → Ended ws
  unfolding mark_connected
  init_socket e w =
      let (error, w1) = wsa_startup w in
      let (socket, w2) = open_socket w1 in
      if not (error == 0) then (some wsa_failed, e, w1) else mark_connected e socket w2

  -- UdpClient::Connect: the timer of the metrics is added where InitSocket has not thrown.
  unfoldable pub connect_udp :
      {S : Type 0} → ℕ → Callback S → ℕ → EventLoop S → Endpoint → World → EventLoop S × Ended ws
  unfolding init_socket
  connect_udp now report_metrics address loop e w =
      let ended = init_socket e w in
      (
        elim (ended.0) [
          | none ↦ add_timer now 5000000000 report_metrics address loop
          | some error ↦ loop
        ],
        ended,
      )

  abbrev pub close_if_open : Option ℕ → World → World
  close_if_open none w = w
  close_if_open (some socket) w = close_socket socket w

  -- The two destructors
  unfoldable pub destroy_endpoint : Endpoint → World → World
  destroy_endpoint e w = if e.running then wsa_cleanup (close_if_open e.socket w) else w
