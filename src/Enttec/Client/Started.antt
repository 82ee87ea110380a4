-- ===== src/Enttec/Client/Started.antt =====
-- How EnttecUSBClient::Start ends.
use mathlib.Core.Logic.{◌⊎◌}
use dmx_enttec_node.Prelude.{
  ap, ℕ, ◌≡◌, refl, subst, inl, inr, List, ◌==◌, ◌%◌, Bool-cases, none, some, Error, open_failed,
  wrong_device_count, ==_iff, arith,
}
use dmx_enttec_node.Core.EventLoop.{EventLoop}
use dmx_enttec_node.Enttec.UsbPro.Driver.{Driver}
use dmx_enttec_node.Enttec.UsbPro.Receive.{Read, got, no_response, fault, out_of_fuel}
use dmx_enttec_node.Enttec.UsbPro.Open.{Opened, Stack, list_devices, open_device}
use dmx_enttec_node.Enttec.UsbPro.Tries.{open_device-IsSettled}
use dmx_enttec_node.Enttec.Client.Defs.{UsbClient}
use dmx_enttec_node.Enttec.Client.Start.{
  Started, Timers, add_timers, opened, start_client, reload_driver,
}

module _ (v : Driver) {S : Type 0} (fuel : ℕ) (stack : Stack) (timers : Timers S) where
  open v use {Device}

  -- Start has succeeded with exactly one device, which is connected, and has added its two timers;
  -- or it has thrown and added none. The frame and the rest of the client are as they were.
  abbrev pub IsStarted : EventLoop S → UsbClient → Started S → Type 0
  IsStarted loop c s =
      ((s.thrown ≡ none)
        × (s.loop ≡ add_timers timers loop)
        × (s.client
            ≡ record c { ft_status = s.client.ft_status; num_devices = 1; device_connected = 1 }))
      ⊎ ((e : Error) × (s.thrown ≡ some e)
          × (s.loop ≡ loop)
          × (s.client ≡ record c {
            ft_status = s.client.ft_status;
            num_devices = s.client.num_devices;
            device_connected = s.client.device_connected;
          }))

  abbrev Ends : EventLoop S → UsbClient → Read Device (Started S) → Type 0
  Ends loop c (got s d) = IsStarted loop c s
  Ends loop c (no_response d) = Unit
  Ends loop c fault = Unit
  Ends loop c out_of_fuel = Unit

  opened-Ends :
      (c c' : UsbClient) (loop : EventLoop S) (o : Opened) (d : Device)
      → (o.result ≡ 1) ⊎ (o.result ≡ 0)
      → c'.num_devices ≡ 1
      → c' ≡ record c { ft_status = c'.ft_status; num_devices = c'.num_devices }
      → Ends loop c (opened v fuel stack timers c' loop o d)
  unfolding opened
  opened-Ends c c' loop o d (inl one) n e = rw one (inl (refl, refl, ground arith))
  opened-Ends c c' loop o d (inr zero_) n e = rw zero_ (inr (open_failed, refl, refl, ground arith))

  opened_from :
      (c c' : UsbClient) (loop : EventLoop S) (r : Read Device Opened)
      → ((o : Opened) (d : Device) → r ≡ got o d → (o.result ≡ 1) ⊎ (o.result ≡ 0))
      → c'.num_devices ≡ 1
      → c' ≡ record c { ft_status = c'.ft_status; num_devices = c'.num_devices }
      → Ends loop c (elim r [
        | got o d ↦ opened v fuel stack timers c' loop o d
        | no_response d ↦ no_response d
        | fault ↦ fault
        | out_of_fuel ↦ out_of_fuel
      ])
  opened_from c c' loop (got o d) results n e = opened-Ends c c' loop o d (results o d refl) n e
  opened_from c c' loop (no_response d) results n e = tt
  opened_from c c' loop fault results n e = tt
  opened_from c c' loop out_of_fuel results n e = tt

  open_results :
      (params : List ℕ) (h : ℕ) (d d' : Device) (o : Opened)
      → open_device v fuel stack params 0 h d ≡ got o d'
      → (o.result ≡ 1) ⊎ (o.result ≡ 0)
  open_results params h d d' o e =
      let (k, last, ended) = open_device-IsSettled v fuel 0 h stack params d d' o e in
      elim ended [
        | inl (opens, connects, inl one) ↦ inl one
        | inl (opens, connects, inr (zero_, closed)) ↦ inr zero_
        | inr (fails, third, gives, same) ↦ inr (ap Opened.result gives)
      ]

  start_client-Ends :
      (h : ℕ) (params : List ℕ) (loop : EventLoop S) (c : UsbClient) (d : Device)
      → Ends loop c (start_client v fuel stack timers h params loop c d)
  unfolding start_client reload_driver
  start_client-Ends h params loop c d =
      let (c1, d1) = reload_driver v c d in
      let (num_devices, d2) = list_devices v d1 in
      let c2 : UsbClient = record c1 { num_devices = num_devices % 256 } in
      elim (Bool-cases (num_devices % 256 == 1)) [
        | inr other ↦ rw other (inr (wrong_device_count, refl, refl, refl))
        | inl single ↦ rw single (
            opened_from c c2 loop (open_device v fuel stack params 0 h d2)
              (λ o d' e. open_results params h d2 d' o e) ((==_iff _ 1).0 single) refl)
      ]

  -- If Start returns, it has either found exactly one device, connected it and added its two
  -- timers, or thrown and added none; the frame and the buffered overlay are as they were.
  pub start_client-IsStarted :
      (h : ℕ) (params : List ℕ) (loop : EventLoop S) (c : UsbClient) (d d' : Device) (s : Started S)
      → start_client v fuel stack timers h params loop c d ≡ got s d'
      → IsStarted loop c s
  start_client-IsStarted h params loop c d d' s e =
      subst (Ends loop c) e (start_client-Ends h params loop c d)
