-- ===== src/Tests/Loops.antt =====
-- The node in its event loop: one message waits in the overlay socket, and ArtNet sends the same
-- frame over and over.
use dmx_enttec_node.Prelude.{
  ℕ, zero, suc, ◌≤◌, ◌≡◌, refl, sym, subst, List, [], ◌∷◌, length, length-replicate, get_or, leb,
  true, false, none, if◌then◌else◌, ok, Bool-cases, inl, inr, arith,
}
use dmx_enttec_node.Core.EventLoop
use dmx_enttec_node.Core.EventLoop.{EventLoop, run_round}
use dmx_enttec_node.Proto.Layout.{encode}
use dmx_enttec_node.Network.UdpServer.{Recv, socket_error, received}
use dmx_enttec_node.Enttec.UsbPro.Framing.{packet}
use dmx_enttec_node.Enttec.Client.Defs.{set_dmx_tx_mode}
use dmx_enttec_node.Enttec.Client.Channels.{covers}
use dmx_enttec_node.Node.Spec.{Picture}
use dmx_enttec_node.Node.Loop.{System, Running, Slot, Slots, node_loop}
use dmx_enttec_node.Node.Loop.Sound.{IsSoundRecv, IsSoundSystem, written}
use dmx_enttec_node.Node.Loop.Panel.{Panel, frame_of, panel_loop}
use dmx_enttec_node.Node.Loop.Matches.{panel, Shows}
use dmx_enttec_node.Node.Loop.Refines.{Displays, run-Displays}
use dmx_enttec_node.Node.Loop.Delivers.{Waits}
use dmx_enttec_node.Node.Loop.Delivered.{run_round-delivers}
use dmx_enttec_node.Tests.Data.{driver, wire, takes_all, quiet, message, client, dmx_frame}
use dmx_enttec_node.Tests.Overlays.{message-HasTypes, fresh}
use dmx_enttec_node.Tests.Nodes.{dark, dark-Holds}

-- The state of the system is the number of datagrams that wait.
abbrev mail : ℕ → ℕ → Recv × ℕ
mail n zero = (socket_error [], zero)
mail n (suc k) =
    if leb (length (encode message)) n then (received (encode message), k) else (socket_error [], k)

abbrev system : System
system = record {
  World = ℕ;
  recv = mail;
  select = λ w. (1, w);
  artnet_read = λ w. ((dmx_frame, 1) ∷ [], w);
  send_poll_reply = λ w. w;
}

mail-IsSoundRecv : (n w : ℕ) → IsSoundRecv (mail n w).0
mail-IsSoundRecv n zero = tt
mail-IsSoundRecv n (suc k) = elim (Bool-cases (leb (length (encode message)) n)) [
  | inl room ↦ rw (room) (
      inl (record {
        message = message;
        encoded = refl;
        types = message-HasTypes;
        protocol = refl;
        fit = refl;
      }))
  | inr none_ ↦ rw (none_) tt
]

mail-within : (n w : ℕ) → length (written (mail n w).0) ≤ n
mail-within n zero = omega arith
mail-within n (suc k) = elim (Bool-cases (leb (length (encode message)) n)) [
  | inl room ↦ rw (room) (ground (arith, room))
  | inr none_ ↦ rw (none_) (omega arith)
]

system-IsSoundSystem : IsSoundSystem system
system-IsSoundSystem = record {
  within = mail-within;
  datagrams = mail-IsSoundRecv;
  frames = λ w. (length-replicate {A = ℕ} 512 7, tt);
}

abbrev Waiting : ℕ → Type 0
Waiting w = w ≡ 1

mail-one : (n : ℕ) → length (encode message) ≤ n → (mail n 1).0 ≡ received (encode message)
mail-one n room = let fits : leb (length (encode message)) n ≡ true = ground arith in rw (fits) refl

mail-gives :
    (n w : ℕ) → length (encode message) ≤ n → Waiting w → (mail n w).0 ≡ received (encode message)
mail-gives n w room one =
    subst (λ k. (mail n k).0 ≡ received (encode message)) (sym one) (mail-one n room)

waits : Waits system (encode message) Waiting
waits = record {
  gives = mail-gives;
  selecting = λ w waiting. waiting;
  reading = λ w waiting. waiting;
  replying = λ w waiting. waiting;
}

abbrev running : Running system driver
running = record {
  client = client none false;
  server = fresh;
  packets_received_counter = 0;
  device = quiet;
  world = 1;
}

abbrev slot : ℕ → Slot
slot address = record { last_call = 0; address = address }

abbrev slots : Slots
slots = record {
  artnet_poll = slot 1;
  artnet_reply = slot 2;
  artnet_metrics = slot 3;
  overlay_poll = slot 4;
  overlay_metrics = slot 5;
  sender = slot 6;
  client_metrics = slot 7;
}

running-Shows : Shows system driver wire 1 1 4096 running dark
running-Shows = record {
  held = dark-Holds;
  connected = ground arith;
  capacity_kept = length-replicate {A = ℕ} 4096 0;
}

abbrev times : List ℕ
times = 1000000 ∷ 20000000 ∷ 6000000000 ∷ []

run-Displays_example :
    (l' : EventLoop (Running system driver)) × (m' : EventLoop (Panel system)) × (s' : Running
      system driver)
    × (a' : Panel system) × (EventLoop.run times (node_loop system driver 1 1 slots) running
        ≡ ok (l', s'))
    × (EventLoop.run times
          (panel_loop system 1 4096 slots)
          (panel system driver wire 1 1 4096 running dark)
        ≡ ok (m', a'))
    × Displays system driver wire 1 1 4096 s' a'
run-Displays_example =
    run-Displays system driver wire 1 1 4096 times slots running dark system-IsSoundSystem takes_all
      running-Shows

run_round-delivers_example :
    (l' : EventLoop (Running system driver)) × (s' : Running system driver) × (q : Picture)
    × (run_round 20000000 (node_loop system driver 1 1 slots) running ≡ ok (l', s'))
    × ((k : ℕ) → covers message k ≡ true → q.shows k ≡ get_or message.dmx_data k 0)
    × (wire.sent s'.device ≡ packet set_dmx_tx_mode (frame_of q))
run_round-delivers_example =
    run_round-delivers system driver wire 1 1 4096 20000000 slots running dark message Waiting
      system-IsSoundSystem takes_all running-Shows waits refl message-HasTypes refl refl
      (omega arith) (omega arith) (omega arith)
