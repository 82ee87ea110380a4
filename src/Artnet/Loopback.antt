-- ===== src/Artnet/Loopback.antt =====
-- The test of ArtnetServer::StartListening for a loopback address.
use dmx_enttec_node.Prelude.{
  ℕ, suc, ◌+◌, ◌<◌, ◌≡◌, refl, ap, ◌∙◌, List, [], ◌∷◌, ◌++◌, length, take, drop, take-all,
  overwrite, append_assoc, length-drop, length-append, true, false, Bool-cases, inl, inr, some, ok,
  arith,
}
use dmx_enttec_node.Core.Timer.{start, create}
use dmx_enttec_node.Core.EventLoop.{EventLoop, Entry, add_timer, add_poller}
use dmx_enttec_node.Network.Sockets.{WinSock}
use dmx_enttec_node.Artnet.{
  Names, LibArtnet, listening, Pollers, Added, addr_length, loopback, bytes_eq, find_ip_address,
  add_pollers, with_address, start_listening,
}

bytes_eq-length : (xs ys : List ℕ) → bytes_eq xs ys ≡ true → length xs ≡ length ys
bytes_eq-length [] [] e = refl
bytes_eq-length [] (y ∷ ys) e = cc
bytes_eq-length (x ∷ xs) [] e = cc
bytes_eq-length (x ∷ xs) (y ∷ ys) e = ap suc (bytes_eq-length xs ys (ground arith))

-- A text of another length is not the loopback address.
other_length : (ip : List ℕ) → length ip ≡ addr_length → bytes_eq ip loopback ≡ false
other_length ip e = elim (Bool-cases (bytes_eq ip loopback)) [
  | inl same ↦ absurd (omega (arith, bytes_eq-length ip loopback same))
  | inr differs ↦ differs
]

-- The whole buffer, to which a text with its end has been written
abbrev pub written : List ℕ → List ℕ → List ℕ
written garbage text = text ++ 0 ∷ drop (length text + 1) garbage

length-written :
    (garbage text : List ℕ)
    → length garbage ≡ addr_length
    → length text < addr_length
    → length (written garbage text) ≡ addr_length
length-written garbage text size fits = omega (
  arith,
  length-append text (0 ∷ drop (length text + 1) garbage),
  length-drop (length text + 1) garbage,
)

printed-written :
    (garbage text : List ℕ)
    → length garbage ≡ addr_length
    → length text < addr_length
    → take addr_length (overwrite garbage 0 (text ++ 0 ∷ [])) ≡ written garbage text
printed-written garbage text size fits =
    ap (take addr_length) (
      append_assoc text (0 ∷ []) (drop (length (text ++ 0 ∷ [])) garbage)
      ∙ ap (λ n. text ++ 0 ∷ drop n garbage) (omega (arith, length-append text (0 ∷ []))))
    ∙ take-all addr_length (written garbage text) (length-written garbage text size fits)

-- A timer that has been started with an interval
abbrev pub entry : {S : Type 0} → ℕ → Added S → Entry S
entry interval added = record {
  address = added.address;
  timer = record { interval = interval; callback = some added.callback; last_call = added.now };
}

module _ (ws : WinSock) (names : Names ws) where
  -- The search for the address succeeds: `connect` and `getsockname` do on a new socket, and the text
  -- of the address fits the buffer with its end.
  pub record Finds (w w' : WinSock.World ws) (socket : ℕ) (text : List ℕ) : Type 0 where
    pub started : WinSock.World ws
    pub opened : WinSock.World ws
    pub connected : WinSock.World ws
    pub address : ℕ
    pub starts : WinSock.wsa_startup ws w ≡ (0, started)
    pub opens : WinSock.open_socket ws started ≡ (some socket, opened)
    pub connects : Names.connect names socket opened ≡ (false, connected)
    pub gets_name : Names.get_sock_name names socket connected ≡ (some address, w')
    pub prints : Names.inet_ntop names address ≡ some text
    pub fits : length text < addr_length

  find_ip_address-Finds :
      (garbage : List ℕ) (w w' : WinSock.World ws) (socket : ℕ) (text : List ℕ)
      → length garbage ≡ addr_length
      → Finds w w' socket text
      → find_ip_address ws names garbage w
        ≡ (ok (written garbage text), WinSock.wsa_cleanup ws (WinSock.close_socket ws socket w'))
  unfolding find_ip_address
  find_ip_address-Finds garbage w w' socket text size f =
      rw (f.starts, f.opens, f.connects, f.gets_name, f.prints)
        (λ i. (
          ok (printed-written garbage text size f.fits i),
          WinSock.wsa_cleanup ws (WinSock.close_socket ws socket w'),
        ))

  module _ (lib : LibArtnet) {S : Type 0} (pollers : Pollers S) where
    open lib use {
      Node, artnet_new, set_short_name, set_long_name, set_node_type, set_handlers, artnet_start,
      artnet_get_sd, inet_addr, write_reply_ip,
    }

    -- The node with its names, its type and its handlers
    abbrev pub named : Node → Node
    named node = set_handlers (
        set_node_type
          (set_long_name "ArtNet Enttec USB Pro Node" (set_short_name "Enttec USB Pro" node)))

    -- Where the search for the address and libartnet succeed, StartListening starts a node on the
    -- whole buffer of the address, which is also the address of its replies, and adds its three
    -- timers; its socket does not block, that of the search is closed. This is so whatever the text
    -- of the address is, "127.0.0.1" included: the test for that address never fires.
    pub start_listening-unguarded :
        (garbage : List ℕ) (loop : EventLoop S) (w w' : WinSock.World ws) (socket : ℕ)
        (text : List ℕ) (node started : Node)
        → length garbage ≡ addr_length
        → Finds w w' socket text
        → artnet_new (written garbage text) 0 ≡ some node
        → artnet_start (named node) ≡ (0, started)
        → start_listening lib pollers ws names garbage loop w ≡ (
          listening
              (write_reply_ip (inet_addr (written garbage text)) started)
              (artnet_get_sd started)
              (record loop {
                timers =
                    ((loop.timers ++ entry 0 pollers.poll ∷ [])
                      ++ entry 1000000000 pollers.reply ∷ [])
                    ++ entry 5000000000 pollers.metrics ∷ [];
              }),
          WinSock.set_nonblocking ws
              (artnet_get_sd started)
              (WinSock.wsa_cleanup ws (WinSock.close_socket ws socket w')),
        )
    unfolding start_listening with_address add_pollers add_poller add_timer start create
    start_listening-unguarded garbage loop w w' socket text node started size f made starts = rw (
      find_ip_address-Finds garbage w w' socket text size f,
      other_length (written garbage text) (length-written garbage text size f.fits),
      made,
      starts,
    )
