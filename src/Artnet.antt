-- ===== src/Artnet.antt =====
-- libs/artnet/artnet_server.cc: ArtnetServer, over libartnet and the system's calls as parameters.
pub mod Loopback
use Prim.Native.String.{String}
use dmx_enttec_node.Prelude.{
  ℕ, ◌+◌, List, [], ◌∷◌, ◌++◌, length, take, overwrite, Bool, true, false, not, ◌&&◌, ◌==◌,
  if◌then◌else◌, Option, none, some, Error, Result, ok, throw, fault, throw_if, ◌>>=◌, ◌>>◌,
  wsa_failed, socket_failed, connect_failed, sockname_failed, ntop_failed, loopback_address,
  wrong_frame_size,
}
use dmx_enttec_node.Proto.{dmx_frame_size}
use dmx_enttec_node.Core.Timer.{Callback}
use dmx_enttec_node.Core.EventLoop.{EventLoop, add_timer, add_poller}
use dmx_enttec_node.Network.Sockets.{WinSock}

-- More calls of the system: whether `connect` failed, the address that `getsockname` gives, and the
-- text of an address that `inet_ntop` writes.
pub record Names (ws : WinSock) : Type 0 where
  pub connect : ℕ → WinSock.World ws → Bool × WinSock.World ws
  pub get_sock_name : ℕ → WinSock.World ws → Option ℕ × WinSock.World ws
  pub inet_ntop : ℕ → Option (List ℕ)

-- INET_ADDRSTRLEN in the headers of Windows
abbrev pub addr_length : ℕ
addr_length = 22

-- "127.0.0.1"
abbrev pub loopback : List ℕ
loopback = 49 ∷ 50 ∷ 55 ∷ 46 ∷ 48 ∷ 46 ∷ 48 ∷ 46 ∷ 49 ∷ []

abbrev pub bytes_eq : List ℕ → List ℕ → Bool
bytes_eq [] [] = true
bytes_eq [] (y ∷ ys) = false
bytes_eq (x ∷ xs) [] = false
bytes_eq (x ∷ xs) (y ∷ ys) = x == y && bytes_eq xs ys

module _ (ws : WinSock) (names : Names ws) (garbage : List ℕ) where
  open ws use {World, wsa_startup, wsa_cleanup, open_socket, close_socket}
  open names use {connect, get_sock_name, inet_ntop}

  -- `std::string(buf, INET_ADDRSTRLEN)`: the whole buffer, of which `inet_ntop` writes the front and
  -- `garbage` is what it held.
  abbrev pub print_address : ℕ → Option (List ℕ) → World → Result (List ℕ) × World
  print_address socket none w = (throw ntop_failed, w)
  print_address socket (some text) w = (
    ok (take addr_length (overwrite garbage 0 (text ++ 0 ∷ []))),
    wsa_cleanup (close_socket socket w),
  )

  abbrev pub name_socket : ℕ → Option ℕ → World → Result (List ℕ) × World
  name_socket socket none w = (throw sockname_failed, w)
  name_socket socket (some address) w = print_address socket (inet_ntop address) w

  abbrev pub connect_socket : Option ℕ → World → Result (List ℕ) × World
  connect_socket none w = (throw socket_failed, w)
  connect_socket (some socket) w =
      let (failed, w1) = connect socket w in
      let (name, w2) = get_sock_name socket w1 in
      if failed then (throw connect_failed, w1) else name_socket socket name w2

  unfoldable pub find_ip_address : World → Result (List ℕ) × World
  find_ip_address w =
      let (error, w1) = wsa_startup w in
      let (socket, w2) = open_socket w1 in
      if not (error == 0) then (throw wsa_failed, w1) else connect_socket socket w2

-- libartnet: a node, the calls that set it up, and that start, stop and destroy it; its address in
-- the template of replies is a field that `write_reply_ip` sets. Addresses are given as the buffer of
-- a C string, of which `inet_addr` makes a number.
pub record LibArtnet : Type 1 where
  pub Node : Type 0
  pub artnet_new : List ℕ → ℕ → Option Node
  pub set_short_name : String → Node → Node
  pub set_long_name : String → Node → Node
  pub set_node_type : Node → Node
  pub set_handlers : Node → Node
  pub artnet_start : Node → ℕ × Node
  pub artnet_get_sd : Node → ℕ
  pub inet_addr : List ℕ → ℕ
  pub write_reply_ip : ℕ → Node → Node
  pub send_poll_reply : Node → Node
  pub artnet_stop : Node → Node
  pub artnet_destroy : Node → Node

-- How StartListening ends: an exception, `exit(status)`, a node that listens on its socket, mNodeSd,
-- or with an undefined access. mTv is 0: `select` does not wait.
pub data Listening (lib : LibArtnet) (S : Type 0) : Type 0 where
  thrown : Error → Listening lib S
  exited : ℕ → Listening lib S
  listening : LibArtnet.Node lib → ℕ → EventLoop S → Listening lib S
  undefined : Listening lib S

-- The time, the callback and the address for each of the three timers
pub record Added (S : Type 0) : Type 0 where
  pub now : ℕ
  pub callback : Callback S
  pub address : ℕ

pub record Pollers (S : Type 0) : Type 0 where
  pub poll : Added S
  pub reply : Added S
  pub metrics : Added S

module _ {S : Type 0} where
  unfoldable pub add_pollers : Pollers S → EventLoop S → EventLoop S
  add_pollers t loop = add_timer t.metrics.now 5000000000 t.metrics.callback t.metrics.address (
      add_timer t.reply.now 1000000000 t.reply.callback t.reply.address
        (add_poller t.poll.now t.poll.callback t.poll.address loop))

module _ (lib : LibArtnet) {S : Type 0} (pollers : Pollers S) where
  open lib use {
    Node, artnet_new, set_short_name, set_long_name, set_node_type, set_handlers, artnet_start,
    artnet_get_sd, inet_addr, write_reply_ip, send_poll_reply,
  }

  abbrev pub configure_artnet_poll_reply_template : List ℕ → Node → Node
  configure_artnet_poll_reply_template local_ip node = write_reply_ip (inet_addr local_ip) node

  -- From the new node on; ARTNET_EOK is 0.
  abbrev pub start_node : List ℕ → EventLoop S → Option Node → Listening lib S
  start_node ip loop none = exited 1
  start_node ip loop (some node) =
      let (status, node') = artnet_start (
        set_handlers (
          set_node_type
            (set_long_name "ArtNet Enttec USB Pro Node" (set_short_name "Enttec USB Pro" node)))) in
      if not (status == 0)
      then exited 1
      else listening (configure_artnet_poll_reply_template ip node') (artnet_get_sd node')
          (add_pollers pollers loop)

  abbrev pub listen : List ℕ → EventLoop S → Listening lib S
  listen ip loop = start_node ip loop (artnet_new ip 0)

  -- What follows the search for the address
  unfoldable pub with_address : EventLoop S → Result (List ℕ) → Listening lib S
  with_address loop (ok ip) =
      if bytes_eq ip loopback then thrown loopback_address else listen ip loop
  with_address loop (throw e) = thrown e
  with_address loop fault = undefined

  -- The socket of a node that has been started does not block.
  abbrev pub unblocked : (ws : WinSock) → Listening lib S → WinSock.World ws → WinSock.World ws
  unblocked ws (listening node sd loop) w = WinSock.set_nonblocking ws sd w
  unblocked ws (thrown e) w = w
  unblocked ws (exited status) w = w
  unblocked ws undefined w = w

  unfoldable pub start_listening :
      (ws : WinSock)
      → Names ws
      → List ℕ
      → EventLoop S
      → WinSock.World ws
      → Listening lib S × WinSock.World ws
  unfolding find_ip_address with_address
  start_listening ws names garbage loop w =
      let (ip, w') = find_ip_address ws names garbage w in
      (with_address loop ip, unblocked ws (with_address loop ip) w')

  unfoldable pub send_art_poll_reply : Node → Node
  send_art_poll_reply node = send_poll_reply node

  -- The destructor, where mNode may be NULL
  unfoldable pub destroy_node : Option Node → Option Node
  destroy_node none = none
  destroy_node (some node) = some (LibArtnet.artnet_destroy lib (LibArtnet.artnet_stop lib node))

-- ArtnetServer::PollSocket: what `select` gave, and what `artnet_read` does to the state of the
-- program, of which the handler below is a part.
unfoldable pub poll_artnet : {S : Type 0} → ℕ → (S → Result S) → S → Result S
poll_artnet rv artnet_read s = if not (rv == 1) then ok s else artnet_read s

module _ {S : Type 0} (handler : List ℕ → ℕ → S → Result S) where
  -- The state, and sPacketsReceivedCounter, an `int` that is reset every five seconds
  unfoldable pub dmx_handler : List ℕ → ℕ → S × ℕ → Result (S × ℕ)
  dmx_handler data' universe (s, packets_received_counter) = do
    throw_if (not (length data' == dmx_frame_size)) wrong_frame_size
    s' ← handler data' universe s
    ok (s', packets_received_counter + 1)

-- The handler of a firmware packet of so many words only logs; its result is 0 for success.
unfoldable pub firmware_handler : ℕ → ℕ
firmware_handler length_ = 0

-- What is logged, and sPacketsReceivedCounter after it
unfoldable pub report_metrics : ℕ → ℕ × ℕ
report_metrics packets_received_counter = (packets_received_counter, 0)
