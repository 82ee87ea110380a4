-- ===== src/Node/Start.antt =====
-- app_dmx_usb_node/app_dmx_usb_node.cc: Start, which starts the ArtNet server, the overlay server
-- and the USB client in this order.
pub mod Order
use dmx_enttec_node.Prelude.{ℕ, List, Option, none, some, Error}
use dmx_enttec_node.Core.EventLoop.{EventLoop}
use dmx_enttec_node.Config.{Config}
use dmx_enttec_node.Network.Sockets.{
  WinSock, Endpoint, Ended, Handlers, PollingMode, hot_poll, start_udp,
}
use dmx_enttec_node.Artnet.{
  Names, LibArtnet, Listening, thrown, exited, listening, undefined, Pollers, start_listening,
}
use dmx_enttec_node.Enttec.UsbPro.Driver.{Driver}
use dmx_enttec_node.Enttec.UsbPro.Receive.{Read}
use dmx_enttec_node.Enttec.UsbPro.Open.{Stack}
use dmx_enttec_node.Enttec.Client.Defs.{UsbClient}
use dmx_enttec_node.Enttec.Client.Start.{Started, Timers, start_client}

-- OverlayServer::Start
unfoldable pub start_overlay_server :
    (ws : WinSock) {S : Type 0}
    → Config
    → Handlers S
    → EventLoop S
    → Endpoint
    → WinSock.World ws
    → EventLoop S × Ended ws
unfolding start_udp
start_overlay_server ws config handlers loop e w =
    start_udp ws config.overlay_listen_port hot_poll handlers loop e w

module _ (ws : WinSock) (names : Names ws) (lib : LibArtnet) (v : Driver) (S : Type 0) where
  open v use {Device}

  -- How Start ends: the ArtNet server does not listen; it does, and the overlay server has thrown;
  -- or both have started, and this is how the start of the client ends.
  pub data Outcome : Type 0 where
    artnet_failed : Listening lib S → Outcome
    overlay_failed : LibArtnet.Node lib → EventLoop S → Error → Outcome
    client_ended : LibArtnet.Node lib → Endpoint → Read Device (Started S) → Outcome

  -- What the parts are started with: what the buffer of an address held, the callbacks, the fuel and
  -- the stack of FTDI_OpenDevice, its two globals, and the members
  pub record Parts : Type 0 where
    pub garbage : List ℕ
    pub pollers : Pollers S
    pub handlers : Handlers S
    pub timers : Timers S
    pub fuel : ℕ
    pub stack : Stack
    pub handle : ℕ
    pub params : List ℕ
    pub endpoint : Endpoint
    pub client : UsbClient
    pub device : Device

  -- From the overlay server on
  abbrev pub with_overlay_server :
      Parts → LibArtnet.Node lib → EventLoop S × Ended ws → Outcome × WinSock.World ws
  with_overlay_server p node (loop, (some x, e, w)) = (overlay_failed node loop x, w)
  with_overlay_server p node (loop, (none, e, w)) = (
    client_ended node e
        (start_client v p.fuel p.stack p.timers p.handle p.params loop p.client p.device),
    w,
  )

  -- From the ArtNet server on
  abbrev pub with_artnet :
      Config → Parts → Listening lib S × WinSock.World ws → Outcome × WinSock.World ws
  with_artnet config p (listening node sd loop, w) =
      with_overlay_server p node (start_overlay_server ws config p.handlers loop p.endpoint w)
  with_artnet config p (thrown e, w) = (artnet_failed (thrown e), w)
  with_artnet config p (exited status, w) = (artnet_failed (exited status), w)
  with_artnet config p (undefined, w) = (artnet_failed undefined, w)

  unfoldable pub start_app :
      Config → Parts → EventLoop S → WinSock.World ws → Outcome × WinSock.World ws
  unfolding start_listening start_overlay_server start_client
  start_app config p loop w =
      with_artnet config p (start_listening lib p.pollers ws names p.garbage loop w)
