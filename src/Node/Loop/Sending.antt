-- ===== src/Node/Loop/Sending.antt =====
-- The flush of the node, and the bytes that it puts on the wire.
use dmx_enttec_node.Prelude.{
  ℕ, ◌≡◌, refl, sym, ap, ◌∙◌, given, ◌++◌, true, false, ok, ◌>>=◌, Bool, arith,
}
use dmx_enttec_node.Enttec.UsbPro.Driver.{Driver, IsWire}
use dmx_enttec_node.Enttec.UsbPro.Framing.{packet, TakesAll}
use dmx_enttec_node.Enttec.Client.Defs.{set_dmx_tx_mode, flush_frame}
use dmx_enttec_node.Enttec.Client.Flush.{flush_frame_lem, flush_frame-once, flushed}
use dmx_enttec_node.Node.Spec.{Picture}
use dmx_enttec_node.Node.Loop.{System, Running, flush}
use dmx_enttec_node.Node.Loop.Panel.{Panel, put_on_wire, transmit}
use dmx_enttec_node.Node.Loop.Matches.{serialized_frame-frame_of, panel, Shows, Matches}

module _ (sys : System) (v : Driver) (w : IsWire v) (h dmx_universe capacity : ℕ) where
  -- A flush by whether there is something new
  flushes :
      (s : Running sys v) (p : Picture) (new : Bool)
      → TakesAll v
      → Shows sys v w h dmx_universe capacity s p
      → s.client.is_new_frame ≡ new
      → (s' : Running sys v) × (p' : Picture) × (flush sys v h dmx_universe s ≡ ok s')
        × (put_on_wire sys dmx_universe capacity new (panel sys v w h dmx_universe capacity s p)
            ≡ panel sys v w h dmx_universe capacity s' p')
        × Shows sys v w h dmx_universe capacity s' p'
  unfolding flush
  flushes s p false takes shows old =
      let connected = shows.connected in
      let kept : flush_frame v h s.client s.device ≡ ok (s.client, s.device) =
        ground (arith, flush_frame_lem v h s.client s.device) in
      (s, p, rw (kept, ◌>>=◌) refl, refl, shows)
  flushes s p true takes shows new =
      given (flush_frame-once v w h s.client s.device takes shows.connected new)
        (λ (d, e, wire, again). (
          record s { client = flushed s.client; device = d },
          record p { unsent = false },
          rw (e, ◌>>=◌) refl,
          ap
              (λ bytes.
                let a : Panel sys = record {
                  picture = record p { unsent = false };
                  wire = bytes;
                  world = s.world;
                } in
                a)
              (sym (
                wire
                ∙ ap (λ frame. w.sent s.device ++ packet set_dmx_tx_mode frame)
                    (serialized_frame-frame_of s.client p shows.held))),
          record {
            held = record {
              valid = record {
                frame_size = shows.held.valid.frame_size;
                start_code = shows.held.valid.start_code;
                buffered = shows.held.valid.buffered;
              };
              channels = shows.held.channels;
              overlay = shows.held.overlay;
              unsent = refl;
            };
            connected = shows.connected;
            capacity_kept = shows.capacity_kept;
          },
        ))

  pub flush-Matches :
      TakesAll v
      → Matches sys v w h dmx_universe capacity
          (flush sys v h dmx_universe)
          (transmit sys dmx_universe capacity)
  flush-Matches takes s p shows =
      given (flushes s p p.unsent takes shows shows.held.unsent) (λ (s', p', e, sent, shows').
        record { s' = s'; p' = p'; returns = e; panel_returns = ap ok sent; shows = shows' })
