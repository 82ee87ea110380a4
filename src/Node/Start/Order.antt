-- ===== src/Node/Start/Order.antt =====
-- What Start of the node has started.
use dmx_enttec_node.Prelude.{
  ℕ, ◌≡◌, refl, subst, ◌∙◌, ap, List, true, false, Option, none, some, Result, ok, throw, fault,
  Bool, Bool-cases, inl, inr, ◌==◌, ◌%◌, ◌^◌, not, if◌then◌else◌,
}
use dmx_enttec_node.Core.EventLoop.{EventLoop}
use dmx_enttec_node.Config.{Config}
use dmx_enttec_node.Network.Sockets.{
  WinSock, Endpoint, Ended, Handlers, hot_poll, start_udp, start_server, bind_server,
  add_poll_handler, add_metrics_handler,
}
use dmx_enttec_node.Artnet.{
  Names, LibArtnet, Listening, thrown, exited, listening, undefined, Pollers, start_listening,
  add_pollers, with_address, start_node, bytes_eq, loopback, find_ip_address,
}
use dmx_enttec_node.Enttec.UsbPro.Driver.{Driver}
use dmx_enttec_node.Enttec.UsbPro.Receive.{got}
use dmx_enttec_node.Enttec.Client.Start.{Started}
use dmx_enttec_node.Enttec.Client.Started.{IsStarted, start_client-IsStarted}
use dmx_enttec_node.Node.Start.{
  Outcome, artnet_failed, overlay_failed, client_ended, Parts, start_overlay_server,
  with_overlay_server, with_artnet, start_app,
}

module _ (lib : LibArtnet) {S : Type 0} (pollers : Pollers S) where
  -- A node that listens comes with the three timers of the ArtNet server.
  abbrev Listens : EventLoop S → Listening lib S → Type 0
  Listens loop (listening node sd loop') = loop' ≡ add_pollers pollers loop
  Listens loop (thrown e) = Unit {0}
  Listens loop (exited status) = Unit {0}
  Listens loop undefined = Unit {0}

  tested-Listens :
      (loop : EventLoop S) (started : Bool) (node : LibArtnet.Node lib) (sd : ℕ)
      → Listens loop
          (if not started then exited 1 else listening node sd (add_pollers pollers loop))
  tested-Listens loop true node sd = refl
  tested-Listens loop false node sd = tt

  start_node-Listens :
      (ip : List ℕ) (loop : EventLoop S) (node : Option (LibArtnet.Node lib))
      → Listens loop (start_node lib pollers ip loop node)
  start_node-Listens ip loop none = tt
  start_node-Listens ip loop (some node) = tested-Listens loop _ _ _

  with_address-Listens :
      (loop : EventLoop S) (ip : Result (List ℕ)) → Listens loop (with_address lib pollers loop ip)
  unfolding with_address
  with_address-Listens loop (ok ip) = elim (Bool-cases (bytes_eq ip loopback)) [
    | inl same ↦ rw (same) tt
    | inr other ↦ rw (other) (start_node-Listens ip loop (lib.artnet_new ip 0))
  ]
  with_address-Listens loop (throw e) = tt
  with_address-Listens loop fault = tt

  start_listening-Listens :
      (ws : WinSock) (names : Names ws) (garbage : List ℕ) (loop : EventLoop S)
      (w : WinSock.World ws)
      → Listens loop (start_listening lib pollers ws names garbage loop w).0
  unfolding start_listening
  start_listening-Listens ws names garbage loop w =
      with_address-Listens loop (find_ip_address ws names garbage w).0

module _ (ws : WinSock) {S : Type 0} (handlers : Handlers S) where
  -- The overlay server has thrown and nothing has been added; or it runs, with its two timers.
  abbrev IsServing : EventLoop S → EventLoop S × Ended ws → Type 0
  IsServing loop (loop', (some x, e, w)) = loop' ≡ loop
  IsServing loop (loop', (none, e, w)) =
      (e.running ≡ true)
      × (loop' ≡ add_metrics_handler handlers (add_poll_handler hot_poll handlers loop))

  -- Where the server has not thrown, it runs.
  abbrev Runs : Ended ws → Type 0
  Runs (some x, e, w) = Unit {0}
  Runs (none, e, w) = e.running ≡ true

  bind_server-Runs :
      (port : ℕ) (e : Endpoint) (socket : Option ℕ) (w : WinSock.World ws)
      → Runs (bind_server ws port e socket w)
  unfolding bind_server
  bind_server-Runs port e none w = tt
  bind_server-Runs port e (some socket) w =
      elim (Bool-cases ((ws.bind socket (port % 2 ^ 16) (ws.set_nonblocking socket w)).0)) [
        | inl failed ↦ rw (failed) tt
        | inr bound ↦ rw (bound) refl
      ]

  start_server-Runs :
      (port : ℕ) (e : Endpoint) (w : WinSock.World ws) → Runs (start_server ws port e w)
  unfolding start_server
  start_server-Runs port e w =
      let (error, w1) = ws.wsa_startup w in
      let (socket, w2) = ws.open_socket w1 in
      elim (Bool-cases (error == 0)) [
        | inl begun ↦ rw (begun) (bind_server-Runs port e socket w2)
        | inr failed ↦ rw (failed) tt
      ]

  added-IsServing :
      (loop : EventLoop S) (ended : Ended ws)
      → Runs ended
      → IsServing loop (
        elim (ended.0) [
          | none ↦ add_metrics_handler handlers (add_poll_handler hot_poll handlers loop)
          | some error ↦ loop
        ],
        ended,
      )
  added-IsServing loop (some x, e, w) h = refl
  added-IsServing loop (none, e, w) h = (h, refl)

  start_overlay_server-IsServing :
      (config : Config) (loop : EventLoop S) (e : Endpoint) (w : WinSock.World ws)
      → IsServing loop (start_overlay_server ws config handlers loop e w)
  unfolding start_overlay_server start_udp
  start_overlay_server-IsServing config loop e w =
      added-IsServing loop (start_server ws config.overlay_listen_port e w)
        (start_server-Runs config.overlay_listen_port e w)

module _ (ws : WinSock) (names : Names ws) (lib : LibArtnet) (v : Driver) (S : Type 0)
    (p : Parts ws names lib v S) where
  -- What has been started, however Start of the node ends: the event loop has the three timers of
  -- the ArtNet server as soon as that listens, and with them the two of the overlay server as soon
  -- as that runs; what the start of the client adds to them is as `IsStarted` says.
  abbrev pub HasStarted : EventLoop S → Outcome ws names lib v S → Type 0
  HasStarted loop (artnet_failed (listening node sd loop')) = ⊥
  HasStarted loop (artnet_failed (thrown e)) = Unit {0}
  HasStarted loop (artnet_failed (exited status)) = Unit {0}
  HasStarted loop (artnet_failed undefined) = Unit {0}
  HasStarted loop (overlay_failed node loop' x) = loop' ≡ add_pollers p.pollers loop
  HasStarted loop (client_ended node e ended) =
      (e.running ≡ true)
      × ((s : Started S) (d : Driver.Device v)
          → ended ≡ got s d
          → IsStarted v p.fuel p.stack p.timers
              (add_metrics_handler p.handlers
                (add_poll_handler hot_poll p.handlers (add_pollers p.pollers loop)))
              p.client s)

  with_overlay_server-HasStarted :
      (loop loop' : EventLoop S) (node : LibArtnet.Node lib) (served : EventLoop S × Ended ws)
      → loop' ≡ add_pollers p.pollers loop
      → IsServing ws p.handlers loop' served
      → HasStarted loop (with_overlay_server ws names lib v S p node served).0
  with_overlay_server-HasStarted loop loop' node (l, (some x, e, w)) listens h = h ∙ listens
  with_overlay_server-HasStarted loop loop' node (l, (none, e, w)) listens (runs, added) = (
    runs,
    λ s d eq.
        subst (λ k. IsStarted v p.fuel p.stack p.timers k p.client s)
          (added
            ∙ ap (λ k. add_metrics_handler p.handlers (add_poll_handler hot_poll p.handlers k))
                listens)
          (start_client-IsStarted v p.fuel p.stack p.timers p.handle p.params l p.client p.device d
            s eq),
  )

  with_artnet-HasStarted :
      (config : Config) (loop : EventLoop S) (heard : Listening lib S × WinSock.World ws)
      → Listens lib p.pollers loop heard.0
      → HasStarted loop (with_artnet ws names lib v S config p heard).0
  with_artnet-HasStarted config loop (listening node sd loop', w) h =
      with_overlay_server-HasStarted loop loop' node
        (start_overlay_server ws config p.handlers loop' p.endpoint w) h
        (start_overlay_server-IsServing ws p.handlers config loop' p.endpoint w)
  with_artnet-HasStarted config loop (thrown e, w) h = tt
  with_artnet-HasStarted config loop (exited status, w) h = tt
  with_artnet-HasStarted config loop (undefined, w) h = tt

  -- However Start of the node ends: if the ArtNet server listens, its three timers have been added,
  -- and nothing else if the overlay server then throws; if both have started, the overlay server
  -- runs and has added its two timers, and if the start of the client returns, it has connected
  -- exactly one device and added its two timers, or thrown and added none.
  pub start_app-HasStarted :
      (config : Config) (loop : EventLoop S) (w : WinSock.World ws)
      → HasStarted loop (start_app ws names lib v S config p loop w).0
  unfolding start_app
  start_app-HasStarted config loop w =
      with_artnet-HasStarted config loop (start_listening lib p.pollers ws names p.garbage loop w)
        (start_listening-Listens lib p.pollers ws names p.garbage loop w)
