-- ===== src/Node/Loop.antt =====
-- The node in its event loop: the callbacks that ArtnetServer::StartListening, UdpServer::Start and
-- EnttecUSBClient::Start hand to the loop, over one state of the program.
pub mod Sound
pub mod Panel
pub mod Matches
pub mod Sending
pub mod Hearing
pub mod Refines
pub mod Delivers
pub mod Delivered
use dmx_enttec_node.Prelude.{ℕ, List, [], ◌∷◌, length, Result, ok, ◌>>=◌}
use dmx_enttec_node.Core.Timer.{Callback}
use dmx_enttec_node.Core.EventLoop.{EventLoop}
use dmx_enttec_node.Network.UdpServer.{UdpServer, Recv, poll_socket}
use dmx_enttec_node.Network.UdpServer
use dmx_enttec_node.Network.Sockets.{Handlers, hot_poll, add_poll_handler, add_metrics_handler}
use dmx_enttec_node.Overlay.Server.{on_data}
use dmx_enttec_node.Artnet.{Added, Pollers, add_pollers, poll_artnet, dmx_handler}
use dmx_enttec_node.Artnet
use dmx_enttec_node.Enttec.UsbPro.Driver.{Driver}
use dmx_enttec_node.Enttec.Client.Defs.{UsbClient, flush_frame}
use dmx_enttec_node.Enttec.Client.Defs
use dmx_enttec_node.Enttec.Client.Start.{Timers, add_timers}
use dmx_enttec_node.Node.Handlers.{on_dmx_message, on_overlay_message}

-- What is outside: the socket of the overlay server, the socket of libartnet, and `artnet_read`,
-- which calls DmxHandler with the data and the universe of what it has read.
pub record System : Type 1 where
  pub World : Type 0
  pub recv : ℕ → World → Recv × World
  pub select : World → ℕ × World
  pub artnet_read : World → List (List ℕ × ℕ) × World
  pub send_poll_reply : World → World

-- The members that the callbacks change, the device and what is outside
pub record Running (sys : System) (v : Driver) : Type 0 where
  pub client : UsbClient
  pub server : UdpServer
  pub packets_received_counter : ℕ
  pub device : Driver.Device v
  pub world : System.World sys

-- Where a timer is allocated, and its `mLastCall`
pub record Slot : Type 0 where
  pub last_call : ℕ
  pub address : ℕ

pub record Slots : Type 0 where
  pub artnet_poll : Slot
  pub artnet_reply : Slot
  pub artnet_metrics : Slot
  pub overlay_poll : Slot
  pub overlay_metrics : Slot
  pub sender : Slot
  pub client_metrics : Slot

module _ (sys : System) (v : Driver) (h dmx_universe : ℕ) where
  open sys use {recv, select, artnet_read, send_poll_reply}

  -- DmxHandler for one message after the other
  unfoldable pub dmx_messages : List (List ℕ × ℕ) → Callback (Running sys v)
  unfolding dmx_handler on_dmx_message
  dmx_messages [] s = ok s
  dmx_messages ((data', universe) ∷ messages) s =
      dmx_handler (λ frame u c. on_dmx_message dmx_universe c frame u) data' universe
        (s.client, s.packets_received_counter)
      >>= λ (c, n). dmx_messages messages (record s { client = c; packets_received_counter = n })

  -- ArtnetServer::PollSocket
  unfoldable pub poll_artnet_socket : Callback (Running sys v)
  unfolding poll_artnet dmx_messages
  poll_artnet_socket s =
      let (rv, w) = select s.world in
      poll_artnet rv
        (λ s'.
          let (messages, w') = artnet_read s'.world in
          dmx_messages messages (record s' { world = w' }))
        (record s { world = w })

  -- ArtnetServer::SendArtPollReply and ReportMetrics
  unfoldable pub poll_reply : Callback (Running sys v)
  poll_reply s = ok (record s { world = send_poll_reply s.world })

  unfoldable pub report_artnet : Callback (Running sys v)
  unfolding Artnet.report_metrics
  report_artnet s =
      ok (record s {
        packets_received_counter = (Artnet.report_metrics s.packets_received_counter).1;
      })

  -- UdpServer::PollSocket with the overlay server behind it
  unfoldable pub poll_overlay_socket : Callback (Running sys v)
  unfolding poll_socket on_data on_overlay_message
  poll_overlay_socket s =
      poll_socket (on_data (on_overlay_message dmx_universe)) (λ n. (recv n s.world).0) s.server
        s.client
      >>= λ (u, c). ok (record s {
        client = c;
        server = u;
        world = (recv (length s.server.recv_buffer) s.world).1;
      })

  -- UdpServer::ReportMetrics
  unfoldable pub report_server : Callback (Running sys v)
  unfolding UdpServer.report_metrics
  report_server s = ok (record s { server = (UdpServer.report_metrics s.server).1 })

  -- EnttecUSBClient::FlushFrame and ReportMetrics
  unfoldable pub flush : Callback (Running sys v)
  unfolding flush_frame
  flush s = flush_frame v h s.client s.device >>= λ (c, d). ok (record s { client = c; device = d })

  unfoldable pub report_client : Callback (Running sys v)
  unfolding Defs.report_metrics
  report_client s = ok (record s { client = (Defs.report_metrics s.client).1 })

  abbrev pub timer_of : Slot → Callback (Running sys v) → Added (Running sys v)
  timer_of slot callback = record {
    now = slot.last_call;
    callback = callback;
    address = slot.address;
  }

  unfoldable pub node_pollers : Slots → Pollers (Running sys v)
  node_pollers slots = record {
    poll = timer_of slots.artnet_poll poll_artnet_socket;
    reply = timer_of slots.artnet_reply poll_reply;
    metrics = timer_of slots.artnet_metrics report_artnet;
  }

  unfoldable pub node_handlers : Slots → Handlers (Running sys v)
  node_handlers slots = record {
    poll_now = slots.overlay_poll.last_call;
    poll_socket = poll_overlay_socket;
    poll_address = slots.overlay_poll.address;
    metrics_now = slots.overlay_metrics.last_call;
    report_metrics = report_server;
    metrics_address = slots.overlay_metrics.address;
  }

  unfoldable pub node_timers : Slots → Timers (Running sys v)
  node_timers slots = record {
    sender_now = slots.sender.last_call;
    sender = flush;
    sender_address = slots.sender.address;
    metrics_now = slots.client_metrics.last_call;
    metrics = report_client;
    metrics_address = slots.client_metrics.address;
  }

  -- The event loop once Start of the node has added its seven timers, in this order
  unfoldable pub node_loop : Slots → EventLoop (Running sys v)
  unfolding node_pollers node_handlers node_timers add_pollers add_timers
  node_loop slots = add_timers (node_timers slots) (
      add_metrics_handler (node_handlers slots) (
        add_poll_handler hot_poll (node_handlers slots)
          (add_pollers (node_pollers slots) (record { callbacks = []; timers = [] }))))
