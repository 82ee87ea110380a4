-- ===== src/Node/Refine.antt =====
-- The node holds the picture, after every sequence of events.
use dmx_enttec_node.Prelude.{
  ℕ, List, [], ◌∷◌, ◌==◌, ◌≡◌, ◌≢◌, refl, ap, ◌∙◌, true, Bool-cases, inl, inr, ok, ◌>>=◌, arith,
}
use dmx_enttec_node.Proto.{OverlayMessage}
use dmx_enttec_node.Enttec.UsbPro.Driver.{Driver}
use dmx_enttec_node.Enttec.UsbPro.Send.{send_data}
use dmx_enttec_node.Enttec.Client.Defs.{UsbClient, report_metrics, set_dmx_tx_mode}
use dmx_enttec_node.Enttec.Client.Channels.{shown, update_frame-shown, apply_overlay-channel}
use dmx_enttec_node.Enttec.Client.Flush.{flush_frame_lem, flushed}
use dmx_enttec_node.Node.Handlers.{
  Event, dmx_message, overlay_message, flush_timer, metrics_timer, on_dmx_message,
  on_overlay_message, step, run,
}
use dmx_enttec_node.Node.Spec.{Picture, react, reacts, IsSound, AllSound, Holds}

module _ (dmx_universe : ℕ) where
  pub on_dmx_message-Holds :
      (c : UsbClient) (p : Picture) (frame : List ℕ) (universe : ℕ)
      → Holds c p
      → IsSound (dmx_message frame universe)
      → (c' : UsbClient) × (on_dmx_message dmx_universe c frame universe ≡ ok c')
        × Holds c' (react dmx_universe (dmx_message frame universe) p)
        × (c'.device_connected ≡ c.device_connected)
  unfolding on_dmx_message
  on_dmx_message-Holds c p frame universe q s = elim (Bool-cases (universe == dmx_universe)) [
    | inr other ↦ (c, ground arith, rw other q, refl)
    | inl ours ↦
        let (c', e, v', ch, rest) = update_frame-shown c frame q.valid s in
        (
          c',
          ground (arith, e),
          rw ours (record {
            valid = v';
            channels = λ k h. ch k h ∙ ap (λ o. shown o frame k) q.overlay;
            overlay = ap UsbClient.last_overlay_msg rest ∙ q.overlay;
            unsent = ap UsbClient.is_new_frame rest;
          }),
          ap UsbClient.device_connected rest,
        )
  ]

  pub on_overlay_message-Holds :
      (c : UsbClient) (p : Picture) (msg : OverlayMessage)
      → Holds c p
      → IsSound (overlay_message msg)
      → (c' : UsbClient) × (on_overlay_message dmx_universe msg c ≡ ok c')
        × Holds c' (react dmx_universe (overlay_message msg) p)
        × (c'.device_connected ≡ c.device_connected)
  unfolding on_overlay_message
  on_overlay_message-Holds c p msg q s = elim (Bool-cases (msg.universe == dmx_universe)) [
    | inr other ↦ (c, ground arith, rw other q, refl)
    | inl ours ↦
        let (c', e, v', ch, rest) = apply_overlay-channel c msg true q.valid s.0 s.1 in
        (
          c',
          ground (arith, e),
          rw ours (record {
            valid = v';
            channels = λ k h. ground (arith, ch k, q.channels k h);
            overlay = ap UsbClient.last_overlay_msg rest;
            unsent = ap UsbClient.is_new_frame rest;
          }),
          ap UsbClient.device_connected rest,
        )
  ]

  module _ (v : Driver) (h : ℕ) where
    -- One event takes the client that holds a picture to one that holds the next picture.
    pub step-Holds :
        (e : Event) (c : UsbClient) (d : Driver.Device v) (p : Picture)
        → Holds c p
        → IsSound e
        → c.device_connected ≢ 0
        → (c' : UsbClient) × (d' : Driver.Device v) × (step v h dmx_universe e (c, d) ≡ ok (c', d'))
          × Holds c' (react dmx_universe e p)
          × (c'.device_connected ≡ c.device_connected)
    unfolding step report_metrics
    step-Holds (dmx_message frame universe) c d p q s con =
        let (c', e, q', k) = on_dmx_message-Holds c p frame universe q s in
        (c', d, rw (e, ◌>>=◌) refl, q', k)
    step-Holds (overlay_message msg) c d p q s con =
        let (c', e, q', k) = on_overlay_message-Holds c p msg q s in
        (c', d, rw (e, ◌>>=◌) refl, q', k)
    step-Holds flush_timer c d p q s con = elim (Bool-cases c.is_new_frame) [
      | inr old ↦ (
        c,
        d,
        ground (arith, flush_frame_lem v h c d),
        record { valid = q.valid; channels = q.channels; overlay = q.overlay; unsent = old },
        refl,
      )
      | inl new ↦ (
        flushed c,
        (send_data v h set_dmx_tx_mode c.serialized_frame d).1,
        ground (arith, flush_frame_lem v h c d),
        record {
          valid = record {
            frame_size = q.valid.frame_size;
            start_code = q.valid.start_code;
            buffered = q.valid.buffered;
          };
          channels = q.channels;
          overlay = q.overlay;
          unsent = refl;
        },
        refl,
      )
    ]
    step-Holds metrics_timer c d p q s con = (
      (report_metrics c).1,
      d,
      refl,
      record {
        valid = record {
          frame_size = q.valid.frame_size;
          start_code = q.valid.start_code;
          buffered = q.valid.buffered;
        };
        channels = q.channels;
        overlay = q.overlay;
        unsent = q.unsent;
      },
      refl,
    )

    -- After any sequence of sound events, with the device connected, no call has thrown or faulted,
    -- and the client holds the picture that the events make of the one it held.
    pub run_refines :
        (es : List Event) (c : UsbClient) (d : Driver.Device v) (p : Picture)
        → Holds c p
        → AllSound es
        → c.device_connected ≢ 0
        → (c' : UsbClient) × (d' : Driver.Device v) × (run v h dmx_universe es (c, d) ≡ ok (c', d'))
          × Holds c' (reacts dmx_universe es p)
    unfolding run
    run_refines [] c d p q s con = (c, d, refl, q)
    run_refines (e ∷ es) c d p q s con =
        let (c', d', e', q', k) = step-Holds e c d p q s.0 con in
        let (c'', d'', e'', q'') =
          run_refines es c' d' (react dmx_universe e p) q' s.1 (rw k con) in
        (c'', d'', rw (e', ◌>>=◌) e'', q'')
