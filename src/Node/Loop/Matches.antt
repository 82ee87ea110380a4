-- ===== src/Node/Loop/Matches.antt =====
-- Each callback of the node does to its picture what the panel's callback does.
use dmx_enttec_node.Prelude.{
  ℕ, suc, ◌+◌, ◌<◌, ◌≡◌, ◌≢◌, refl, ap, ◌∙◌, List, [], ◌∷◌, length, get_or, ok, arith,
}
use dmx_enttec_node.Core.Timer.{Callback}
use dmx_enttec_node.Proto.{dmx_frame_size}
use dmx_enttec_node.Enttec.UsbPro.Driver.{Driver, IsWire}
use dmx_enttec_node.Enttec.Client.Defs.{UsbClient}
use dmx_enttec_node.Node.Spec.{Picture, Holds}
use dmx_enttec_node.Node.Loop.{
  System, Running, poll_reply, report_artnet, report_server, report_client,
}
use dmx_enttec_node.Node.Loop.Panel.{Panel, levels, frame_of, answer, rest}

levels-get_or :
    (xs : List ℕ) (k : ℕ) (shows : ℕ → ℕ)
    → ((i : ℕ) → i < length xs → get_or xs i 0 ≡ shows (k + i))
    → xs ≡ levels (length xs) k shows
unfolding levels
levels-get_or [] k shows h = refl
levels-get_or (x ∷ xs) k shows h =
    let first : x ≡ shows k = h 0 (omega arith) ∙ ap shows (omega arith) in
    let rest =
      levels-get_or xs (suc k) shows (λ i lt. h (suc i) (omega arith) ∙ ap shows (omega arith)) in
    ap (λ y. y ∷ xs) first ∙ ap (λ ys. shows k ∷ ys) rest

frame-eq :
    (frame : List ℕ) (p : Picture)
    → length frame ≡ dmx_frame_size + 1
    → get_or frame 0 0 ≡ 0
    → ((k : ℕ) → k < dmx_frame_size → get_or frame (suc k) 0 ≡ p.shows k)
    → frame ≡ frame_of p
unfolding frame_of
frame-eq [] p size start channels = absurd (omega arith)
frame-eq (x ∷ xs) p size start channels =
    let size' : length xs ≡ 512 = omega arith in
    ap (λ y. y ∷ xs) start
    ∙ ap (λ ys. 0 ∷ ys)
        (levels-get_or xs 0 p.shows (λ k lt. channels k (omega arith) ∙ ap p.shows (omega arith))
          ∙ ap (λ n. levels n 0 p.shows) size')

-- The frame of a client that holds a picture is that picture.
pub serialized_frame-frame_of :
    (c : UsbClient) (p : Picture) → Holds c p → c.serialized_frame ≡ frame_of p
serialized_frame-frame_of c p held =
    frame-eq c.serialized_frame p held.valid.frame_size held.valid.start_code held.channels

module _ (sys : System) (v : Driver) (w : IsWire v) (h dmx_universe capacity : ℕ) where
  -- The panel of a running node that shows a picture
  abbrev pub panel : Running sys v → Picture → Panel sys
  panel s p = record { picture = p; wire = w.sent s.device; world = s.world }

  -- The client holds the picture, the device is connected, and the buffer has its capacity.
  pub record Shows (s : Running sys v) (p : Picture) : Type 0 where
    pub held : Holds s.client p
    pub connected : s.client.device_connected ≢ 0
    pub capacity_kept : length s.server.recv_buffer ≡ capacity

  -- From a node that shows a picture on, both callbacks return, and the node shows the picture of
  -- the panel after them.
  pub record Matched (callback : Callback (Running sys v)) (spec : Callback (Panel sys))
      (s : Running sys v) (p : Picture) : Type 0 where
    pub s' : Running sys v
    pub p' : Picture
    pub returns : callback s ≡ ok s'
    pub panel_returns : spec (panel s p) ≡ ok (panel s' p')
    pub shows : Shows s' p'

  abbrev pub Matches : Callback (Running sys v) → Callback (Panel sys) → Type 0
  Matches callback spec = (s : Running sys v) (p : Picture) → Shows s p → Matched callback spec s p

  pub poll_reply-Matches :
      Matches (poll_reply sys v h dmx_universe) (answer sys dmx_universe capacity)
  unfolding poll_reply
  poll_reply-Matches s p shows = record {
    s' = record s { world = sys.send_poll_reply s.world };
    p' = p;
    returns = refl;
    panel_returns = refl;
    shows = record {
      held = shows.held;
      connected = shows.connected;
      capacity_kept = shows.capacity_kept;
    };
  }

  pub report_artnet-Matches :
      Matches (report_artnet sys v h dmx_universe) (rest sys dmx_universe capacity)
  unfolding report_artnet
  report_artnet-Matches s p shows = record {
    s' = record s { packets_received_counter = 0 };
    p' = p;
    returns = refl;
    panel_returns = refl;
    shows = record {
      held = shows.held;
      connected = shows.connected;
      capacity_kept = shows.capacity_kept;
    };
  }

  pub report_server-Matches :
      Matches (report_server sys v h dmx_universe) (rest sys dmx_universe capacity)
  unfolding report_server
  report_server-Matches s p shows = record {
    s' = record s {
      server = record (s.server) { received_packets_counter = 0; received_bytes_counter = 0 };
    };
    p' = p;
    returns = refl;
    panel_returns = refl;
    shows = record {
      held = shows.held;
      connected = shows.connected;
      capacity_kept = shows.capacity_kept;
    };
  }

  pub report_client-Matches :
      Matches (report_client sys v h dmx_universe) (rest sys dmx_universe capacity)
  unfolding report_client
  report_client-Matches s p shows = record {
    s' = record s { client = record (s.client) { send_counter = 0 } };
    p' = p;
    returns = refl;
    panel_returns = refl;
    shows = record {
      held = record {
        valid = record {
          frame_size = shows.held.valid.frame_size;
          start_code = shows.held.valid.start_code;
          buffered = shows.held.valid.buffered;
        };
        channels = shows.held.channels;
        overlay = shows.held.overlay;
        unsent = shows.held.unsent;
      };
      connected = shows.connected;
      capacity_kept = shows.capacity_kept;
    };
  }
