-- ===== src/Network/Sockets/Balance.antt =====
-- The library is started up and cleaned up, and sockets are opened and closed, equally often.
use dmx_enttec_node.Prelude.{
  ℕ, ◌-◌, ◌+◌, ◌==◌, if◌then◌else◌, ◌≡◌, refl, ◌∙◌, ap, ◌%◌, inl, inr, true, false, Bool-cases,
  Option, none, some, Option-cases, Error, wsa_failed, socket_failed, arith,
}
use dmx_enttec_node.Network.Sockets.{
  WinSock, Endpoint, Ended, start_server, bind_server, init_socket, mark_connected,
  destroy_endpoint,
}

-- What WinSock documents: how often it has been started up and how many sockets are open, each
-- after a call.
pub record IsCounted (ws : WinSock) : Type 0 where
  pub startups : WinSock.World ws → ℕ
  pub sockets : WinSock.World ws → ℕ
  pub startup_startups :
      (w : WinSock.World ws)
      → let (error, w') = WinSock.wsa_startup ws w in
        startups w' ≡ (if error == 0 then startups w + 1 else startups w)
  pub startup_sockets : (w : WinSock.World ws) → sockets (WinSock.wsa_startup ws w).1 ≡ sockets w
  pub cleanup_startups :
      (w : WinSock.World ws) → startups (WinSock.wsa_cleanup ws w) ≡ startups w - 1
  pub cleanup_sockets : (w : WinSock.World ws) → sockets (WinSock.wsa_cleanup ws w) ≡ sockets w
  pub open_startups : (w : WinSock.World ws) → startups (WinSock.open_socket ws w).1 ≡ startups w
  pub open_none :
      (w : WinSock.World ws)
      → (WinSock.open_socket ws w).0 ≡ none
      → sockets (WinSock.open_socket ws w).1 ≡ sockets w
  pub open_some :
      (w : WinSock.World ws) (s : ℕ)
      → (WinSock.open_socket ws w).0 ≡ some s
      → sockets (WinSock.open_socket ws w).1 ≡ sockets w + 1
  pub set_counts :
      (s : ℕ) (w : WinSock.World ws)
      → (startups (WinSock.set_nonblocking ws s w) ≡ startups w)
        × (sockets (WinSock.set_nonblocking ws s w) ≡ sockets w)
  pub bind_counts :
      (s port : ℕ) (w : WinSock.World ws)
      → (startups (WinSock.bind ws s port w).1 ≡ startups w)
        × (sockets (WinSock.bind ws s port w).1 ≡ sockets w)
  pub close_startups :
      (s : ℕ) (w : WinSock.World ws) → startups (WinSock.close_socket ws s w) ≡ startups w
  pub close_sockets :
      (s : ℕ) (w : WinSock.World ws) → sockets (WinSock.close_socket ws s w) ≡ sockets w - 1

module _ (ws : WinSock) (n : IsCounted ws) where
  open ws use {World}

  -- As many startups and open sockets in the one state as in the other
  abbrev pub IsBalanced : World → World → Type 0
  IsBalanced w w' = (n.startups w' ≡ n.startups w) × (n.sockets w' ≡ n.sockets w)

  -- Destroying what `ended` leaves comes to `w`, in which the counts are `a` and `b`.
  abbrev Leaves : ℕ → ℕ → Ended ws → Type 0
  Leaves a b (thrown, e, w) =
      (n.startups (destroy_endpoint ws e w) ≡ a) × (n.sockets (destroy_endpoint ws e w) ≡ b)

  closing :
      (s : ℕ) (w w' : World)
      → IsBalanced w w'
      → let w'' = WinSock.wsa_cleanup ws (WinSock.close_socket ws s w') in
        (n.startups w'' ≡ n.startups w - 1) × (n.sockets w'' ≡ n.sockets w - 1)
  closing s w w' same =
      let closed = WinSock.close_socket ws s w' in
      (
        n.cleanup_startups closed ∙ ap (λ k. k - 1) (n.close_startups s w' ∙ same.0),
        n.cleanup_sockets closed ∙ n.close_sockets s w' ∙ ap (λ k. k - 1) same.1,
      )

  bound :
      (s port : ℕ) (w : World)
      → IsBalanced w (WinSock.bind ws s port (WinSock.set_nonblocking ws s w)).1
  bound s port w =
      let set = WinSock.set_nonblocking ws s w in
      (
        (n.bind_counts s port set).0 ∙ (n.set_counts s w).0,
        (n.bind_counts s port set).1 ∙ (n.set_counts s w).1,
      )

  bind_server-Leaves :
      (port : ℕ) (e : Endpoint) (socket : ℕ) (w : World)
      → e.running ≡ false
      → Leaves (n.startups w - 1) (n.sockets w - 1) (bind_server ws port e (some socket) w)
  unfolding bind_server destroy_endpoint
  bind_server-Leaves port e socket w stopped =
      let (failed, w') =
        WinSock.bind ws socket (port % 65536) (WinSock.set_nonblocking ws socket w) in
      elim (Bool-cases failed) [
        | inl refused ↦ rw (refused, stopped) (closing socket w w' (bound socket (port % 65536) w))
        | inr works ↦ rw works (closing socket w w' (bound socket (port % 65536) w))
      ]

  none-Leaves :
      (e : Endpoint) (w : World) (thrown : Option Error)
      → e.running ≡ false
      → Leaves
          (n.startups w - 1)
          (n.sockets w)
          (thrown, record e { socket = none }, WinSock.wsa_cleanup ws w)
  unfolding destroy_endpoint
  none-Leaves e w thrown stopped = rw stopped (n.cleanup_startups w, n.cleanup_sockets w)

  still-Leaves :
      (e : Endpoint) (w : World) (thrown : Option Error)
      → e.running ≡ false
      → Leaves (n.startups w) (n.sockets w) (thrown, e, w)
  unfolding destroy_endpoint
  still-Leaves e w thrown stopped = rw stopped (refl, refl)

  unstarted :
      (w : World)
      → ((WinSock.wsa_startup ws w).0 == 0) ≡ false
      → IsBalanced w (WinSock.wsa_startup ws w).1
  unstarted w fails = (
    n.startup_startups w ∙ ap (λ b. if b then n.startups w + 1 else n.startups w) fails,
    n.startup_sockets w,
  )

  started :
      (w : World)
      → ((WinSock.wsa_startup ws w).0 == 0) ≡ true
      → n.startups (WinSock.open_socket ws (WinSock.wsa_startup ws w).1).1 ≡ n.startups w + 1
  started w starts =
      n.open_startups (WinSock.wsa_startup ws w).1
      ∙ n.startup_startups w
      ∙ ap (λ b. if b then n.startups w + 1 else n.startups w) starts

  -- However StartServer ends, once the destructor of the server has run, the system has as many
  -- startups and open sockets as before.
  pub start_server-IsBalanced :
      (port : ℕ) (e : Endpoint) (w : World)
      → e.running ≡ false
      → let (thrown, e', w') = start_server ws port e w in IsBalanced w (destroy_endpoint ws e' w')
  unfolding start_server bind_server
  start_server-IsBalanced port e w stopped =
      let (error, w1) = WinSock.wsa_startup ws w in
      let (socket, w2) = WinSock.open_socket ws w1 in
      elim (Bool-cases (error == 0)) [
        | inr fails ↦
            let kept = still-Leaves e w1 (some wsa_failed) stopped in
            let same = unstarted w fails in
            rw (fails, start_server) (kept.0 ∙ same.0, kept.1 ∙ same.1)
        | inl starts ↦ elim (Option-cases socket) [
          | inl invalid ↦
              let left = none-Leaves e w2 (some socket_failed) stopped in
              rw (starts, invalid, start_server)
                (
                  left.0 ∙ omega (arith, started w starts),
                  left.1 ∙ n.open_none w1 invalid ∙ n.startup_sockets w,
                )
          | inr (s, opens) ↦
              let left = bind_server-Leaves port e s w2 stopped in
              rw (starts, opens, start_server)
                (
                  left.0 ∙ omega (arith, started w starts),
                  left.1 ∙ omega (arith, n.open_some w1 s opens, n.startup_sockets w),
                )
        ]
      ]

  -- However InitSocket ends, once the destructor of the client has run, the system has as many
  -- startups and open sockets as before.
  pub init_socket-IsBalanced :
      (e : Endpoint) (w : World)
      → e.running ≡ false
      → let (thrown, e', w') = init_socket ws e w in IsBalanced w (destroy_endpoint ws e' w')
  unfolding init_socket mark_connected destroy_endpoint
  init_socket-IsBalanced e w stopped =
      let (error, w1) = WinSock.wsa_startup ws w in
      let (socket, w2) = WinSock.open_socket ws w1 in
      elim (Bool-cases (error == 0)) [
        | inr fails ↦
            let kept = still-Leaves e w1 (some wsa_failed) stopped in
            let same = unstarted w fails in
            rw (fails, init_socket) (kept.0 ∙ same.0, kept.1 ∙ same.1)
        | inl starts ↦ elim (Option-cases socket) [
          | inl invalid ↦
              let left = none-Leaves e w2 (some socket_failed) stopped in
              rw (starts, invalid, init_socket)
                (
                  left.0 ∙ omega (arith, started w starts),
                  left.1 ∙ n.open_none w1 invalid ∙ n.startup_sockets w,
                )
          | inr (s, opens) ↦
              let left = closing s w2 w2 (refl, refl) in
              rw (starts, opens, init_socket)
                (
                  left.0 ∙ omega (arith, started w starts),
                  left.1 ∙ omega (arith, n.open_some w1 s opens, n.startup_sockets w),
                )
        ]
      ]
