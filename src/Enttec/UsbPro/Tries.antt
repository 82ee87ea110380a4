-- ===== src/Enttec/UsbPro/Tries.antt =====
-- How FTDI_OpenDevice tries, what it gives, and that it closes what it does not keep.
use dmx_enttec_node.Prelude.{
  ℕ, zero, suc, ◌≤◌, ◌<◌, ◌≡◌, ◌≢◌, refl, sym, subst, given, ap, inl, inr, List, ◌==◌, ==_iff, Bool,
  true, false, Bool-cases, Option, none, some, arith,
}
use mathlib.Core.Logic.{◌⊎◌}
use dmx_enttec_node.Enttec.UsbPro.Driver.{Driver, ft_ok}
use dmx_enttec_node.Enttec.UsbPro.Receive.{
  Read, got, no_response, fault, out_of_fuel, M, ◌>>=◌ as bind,
}
use dmx_enttec_node.Enttec.UsbPro.Open.{
  Opened, Stack, try_open, close_port, open_device, connect, after_request, conclude, finish,
  send_params_request, receive_params, or_retry,
}

module _ (v : Driver) where
  open v use {Device, ft_open}

  -- What the try after `k` others gives
  abbrev pub attempt : ℕ → ℕ → ℕ → Device → ℕ × ℕ × Device
  attempt zero device_num h d = ft_open device_num h d
  attempt (suc k) device_num h d =
      let (status, h', d') = ft_open device_num h d in attempt k device_num h' d'

  all_failed :
      (k device_num h : ℕ) (d : Device)
      → (ft_open device_num h d).0 ≢ ft_ok
      → let (_, h', d') = ft_open device_num h d in
        ((j : ℕ) → j < k → (attempt j device_num h' d').0 ≢ ft_ok)
        → (j : ℕ) → j < suc k
        → (attempt j device_num h d).0 ≢ ft_ok
  all_failed k device_num h d fails before zero lt = fails
  all_failed k device_num h d fails before (suc j) lt = before j (omega arith)

  -- The loop stops at the first try that succeeds, and after `left` more than one try at the
  -- latest.
  pub try_open_lem :
      (left device_num h : ℕ) (d : Device)
      → (k : ℕ) × (k ≤ left)
        × (try_open v left device_num h d ≡ attempt k device_num h d)
        × ((j : ℕ) → j < k → (attempt j device_num h d).0 ≢ ft_ok)
        × (((attempt k device_num h d).0 ≡ ft_ok) ⊎ (k ≡ left))
  unfolding try_open
  try_open_lem zero device_num h d =
      (0, omega arith, refl, (λ j lt. absurd (omega arith)), inr refl)
  try_open_lem (suc left) device_num h d =
      let (status, h', d') = ft_open device_num h d in
      elim (Bool-cases (status == ft_ok)) [
        | inl opens ↦ (
          0,
          omega arith,
          rw opens refl,
          (λ j lt. absurd (omega arith)),
          inl ((==_iff status ft_ok).0 opens),
        )
        | inr fails ↦
            let (k, le, same, before, ends) = try_open_lem left device_num h' d' in
            (
              suc k,
              omega arith,
              rw fails same,
              all_failed k device_num h d (ground arith) before,
              elim ends [ inl e ↦ inl e | inr e ↦ inr (ap suc e) ],
            )
      ]

  -- The port has been closed at last.
  abbrev pub IsClosed : ℕ → Device → Type 0
  IsClosed h d = (d0 : Device) × (d ≡ close_port v h d0)

  -- What FTDI_OpenDevice has done once it has a handle: it gives 1, or it gives 0 and the port is
  -- closed.
  abbrev pub IsSettled : Opened → Device → Type 0
  IsSettled o d = (o.result ≡ 1) ⊎ ((o.result ≡ 0) × IsClosed o.handle d)

  abbrev Ends : Read Device Opened → Type 0
  Ends (got o d) = IsSettled o d
  Ends (no_response d) = Unit
  Ends fault = Unit
  Ends out_of_fuel = Unit

  Ends-from :
      {A : Type 0} (r : Read Device A) (f : A → M v Opened)
      → ((a : A) (d : Device) → Ends (f a d))
      → Ends (elim r [
        | got a d ↦ f a d
        | no_response d ↦ no_response d
        | fault ↦ fault
        | out_of_fuel ↦ out_of_fuel
      ])
  Ends-from (got a d) f s = s a d
  Ends-from (no_response d) f s = tt
  Ends-from fault f s = tt
  Ends-from out_of_fuel f s = tt

  Ends-bind :
      {A : Type 0} (m : M v A) (f : A → M v Opened)
      → ((a : A) (d : Device) → Ends (f a d))
      → (d : Device) → Ends (bind v m f d)
  Ends-bind m f s d = Ends-from (m d) f s

  module _ (h fuel : ℕ) (stack : Stack) (params : List ℕ) where
    conclude-Ends :
        (reply : Option (List ℕ)) (d : Device) → Ends (conclude v h fuel stack params reply d)
    unfolding conclude
    conclude-Ends none d = inr (refl, (d, refl))
    conclude-Ends (some params') d =
        Ends-bind (finish v h fuel stack params') _ (λ done d'. inl refl) d

    after_request-Ends :
        (sent : Bool) (d : Device) → Ends (after_request v h fuel stack params sent d)
    unfolding after_request
    after_request-Ends false d = conclude-Ends none d
    after_request-Ends true d =
        let receive = receive_params v h fuel stack params in
        Ends-bind (bind v receive (or_retry v h receive)) (conclude v h fuel stack params)
          conclude-Ends d

    connect-Ends : (d : Device) → Ends (connect v h fuel stack params d)
    unfolding connect
    connect-Ends d =
        Ends-bind (send_params_request v h) (after_request v h fuel stack params) after_request-Ends
          _

  -- Try `k`, after at most two others that have all failed, is the last one.
  pub record IsLast (device_num h : ℕ) (d : Device) (k : ℕ) : Type 0 where
    pub few : k ≤ 2
    pub failed : (j : ℕ) → j < k → (attempt j device_num h d).0 ≢ ft_ok

  -- The last try has opened the device, and what follows from its handle on has given 1, or it has
  -- given 0 and closed the port; or it was the third, has failed like the others, and nothing has
  -- been done after it.
  abbrev pub IsEnded : ℕ → Stack → List ℕ → Opened → Device → ℕ → ℕ × ℕ × Device → Type 0
  IsEnded fuel stack params o d' k (status, h, d) =
      ((status ≡ ft_ok) × (connect v h fuel stack params d ≡ got o d') × IsSettled o d')
      ⊎ ((status ≢ ft_ok)
          × (k ≡ 2)
          × (o ≡ record { result = 0; handle = h; params = params })
          × (d' ≡ d))

  got-injective : {o o' : Opened} {d d' : Device} → got o d ≡ got o' d' → (o ≡ o') × (d ≡ d')
  got-injective e = (cc, cc)

  concluded :
      (fuel device_num h k : ℕ) (stack : Stack) (params : List ℕ) (d d' : Device) (o : Opened)
      → open_device v fuel stack params device_num h d ≡ got o d'
      → try_open v 2 device_num h d ≡ attempt k device_num h d
      → (((attempt k device_num h d).0 ≡ ft_ok) ⊎ (k ≡ 2))
      → IsEnded fuel stack params o d' k (attempt k device_num h d)
  unfolding open_device
  concluded fuel device_num h k stack params d d' o e same ends =
      let (status, h1, d1) = attempt k device_num h d in
      elim (Bool-cases (status == ft_ok)) [
        | inl opens ↦
            let connects : connect v h1 fuel stack params d1 ≡ got o d' = rw (same, opens) at e in
            inl (
              (==_iff status ft_ok).0 opens,
              connects,
              subst Ends connects (connect-Ends h1 fuel stack params d1),
            )
        | inr fails ↦
            let closed : got (record { result = 0; handle = h1; params = params }) d1 ≡ got o d' =
              rw (same, fails) at e in
            inr (
              ground arith,
              elim ends [ inl works ↦ absurd (ground arith) | inr third ↦ third ],
              sym (got-injective closed).0,
              sym (got-injective closed).1,
            )
      ]

  -- If FTDI_OpenDevice returns, its last try is the first that has opened the device, or the third.
  -- In the first case it gives 1, or it gives 0 and has closed the port; in the second, where all
  -- three have failed, it gives 0 and does nothing more.
  pub open_device-IsSettled :
      (fuel device_num h : ℕ) (stack : Stack) (params : List ℕ) (d d' : Device) (o : Opened)
      → open_device v fuel stack params device_num h d ≡ got o d'
      → (k : ℕ) × IsLast device_num h d k
        × IsEnded fuel stack params o d' k (attempt k device_num h d)
  open_device-IsSettled fuel device_num h stack params d d' o e =
      given (try_open_lem 2 device_num h d) λ (k, few, same, failed, ends). (
        k,
        record { few = few; failed = failed },
        concluded fuel device_num h k stack params d d' o e same ends,
      )
