-- ===== src/Enttec/UsbPro/Open.antt =====
-- FTDI_ClosePort, FTDI_ListDevices, FTDI_PurgeBuffer and FTDI_OpenDevice.
use dmx_enttec_node.Prelude.{
  ℕ, zero, suc, ◌∷◌, [], List, Bool, true, false, ◌==◌, if◌then◌else◌, Option, none, some,
  replicate, ℤ,
}
use dmx_enttec_node.Enttec.UsbPro.Driver.{Driver, ft_ok, null}
use dmx_enttec_node.Enttec.UsbPro.Send.{send_data}
use dmx_enttec_node.Enttec.UsbPro.Receive.{
  got, no_response, fault, out_of_fuel, M, ◌>>=◌ as bind, return, receive_data, int_eq,
}

abbrev pub get_widget_params : ℕ
get_widget_params = 3

abbrev pub get_widget_params_reply : ℕ
get_widget_params_reply = 3

abbrev pub get_widget_sn : ℕ
get_widget_sn = 10

-- sizeof(DMXUSBPROParamsType)
abbrev pub params_size : ℕ
params_size = 5

-- The global PRO_Params as its bytes, the global device_handle, and what FTDI_OpenDevice returns
pub record Opened : Type 0 where
  pub result : ℕ
  pub handle : ℕ
  pub params : List ℕ

-- What the stack holds where FTDI_ReceiveData has its buffer and FTDI_OpenDevice the serial number
pub record Stack : Type 0 where
  pub buffer : List ℕ
  pub temp : List ℕ

module _ (v : Driver) where
  open v use {
    Device, ft_list_devices, ft_open, ft_close, ft_purge_tx, ft_purge_rx, ft_set_timeouts,
    ft_get_driver_version, ft_get_latency_timer,
  }

  infixl 5 ◌>>=◌ ◌>>◌
  abbrev pub ◌>>=◌ : {A B : Type 0} → M v A → (A → M v B) → M v B
  ◌>>=◌ m f = bind v m f

  abbrev pub ◌>>◌ : {B : Type 0} → M v (Unit {0}) → M v B → M v B
  m >> k = bind v m (λ done. k)

  -- The handle keeps its value.
  unfoldable pub close_port : ℕ → Device → Device
  close_port h d = if h == null then d else ft_close h d

  unfoldable pub list_devices : Device → ℕ × Device
  list_devices d =
      let (status, num_devs, d') = ft_list_devices d in
      if status == ft_ok then (num_devs, d') else (0, d')

  unfoldable pub purge_buffer : ℕ → Device → Device
  purge_buffer h d = ft_purge_rx h (ft_purge_tx h d)

  -- The loop that opens the device, with `left` tries after this one
  unfoldable pub try_open : ℕ → ℕ → ℕ → Device → ℕ × ℕ × Device
  try_open zero device_num h d = ft_open device_num h d
  try_open (suc left) device_num h d =
      let (status, h', d') = ft_open device_num h d in
      let later = try_open left device_num h' d' in
      if status == ft_ok then (status, h', d') else later

  -- A call of FTDI_ReceiveData whose result is kept: `none` is NO_RESPONSE.
  abbrev pub reply : M v (List ℕ) → M v (Option (List ℕ))
  reply m d = elim (m d) [
    | got bytes d' ↦ got (some bytes) d'
    | no_response d' ↦ got none d'
    | fault ↦ fault
    | out_of_fuel ↦ out_of_fuel
  ]

  abbrev pub on_device : (Device → Device) → M v (Unit {0})
  on_device f d = got tt (f d)

  module _ (h : ℕ) where
    abbrev pub send : ℕ → List ℕ → M v ℤ
    send label bytes d = let (res, d') = send_data v h label bytes d in got res d'

    -- Whether the request for the parameters went out, at the second try if need be
    unfoldable pub send_params_request : M v Bool
    send_params_request = send get_widget_params (0 ∷ 0 ∷ []) >>= λ res.
        if int_eq res 0
        then (on_device (ft_purge_tx h)
            >> (send get_widget_params (0 ∷ 0 ∷ []) >>= λ res'.
                return v (if int_eq res' 0 then false else true)))
        else return v true

    abbrev pub receive_params : ℕ → Stack → List ℕ → M v (Option (List ℕ))
    receive_params fuel stack params =
        reply (receive_data v h fuel stack.buffer get_widget_params_reply params params_size)

    abbrev pub or_retry : M v (Option (List ℕ)) → Option (List ℕ) → M v (Option (List ℕ))
    or_retry again none = again
    or_retry again (some params) = return v (some params)

    -- The serial number is asked for and not looked at; then a packet with label 4 follows.
    unfoldable pub finish : ℕ → Stack → List ℕ → M v (Unit {0})
    finish fuel stack params = send get_widget_sn (0 ∷ 0 ∷ []) >>= λ res.
        reply (receive_data v h fuel stack.buffer get_widget_sn stack.temp 4) >>= λ sn.
        send 4 (replicate 513 0x1E) >>= λ res'. return v tt

    -- What follows the parameters' reply; without one the port is closed.
    unfoldable pub conclude : ℕ → Stack → List ℕ → Option (List ℕ) → M v Opened
    unfolding close_port finish
    conclude fuel stack params none =
        on_device (close_port h) >> return v (record { result = 0; handle = h; params = params })
    conclude fuel stack params (some params') =
        finish fuel stack params' >> return v (record { result = 1; handle = h; params = params' })

    unfoldable pub after_request : ℕ → Stack → List ℕ → Bool → M v Opened
    unfolding conclude
    after_request fuel stack params false = conclude fuel stack params none
    after_request fuel stack params true =
        receive_params fuel stack params
        >>= or_retry (receive_params fuel stack params)
        >>= conclude fuel stack params

    -- What follows the opening
    unfoldable pub connect : ℕ → Stack → List ℕ → M v Opened
    unfolding send_params_request after_request
    connect fuel stack params =
        on_device (λ d. ft_get_latency_timer h (ft_get_driver_version h d))
        >> on_device (λ d. ft_purge_rx h (ft_set_timeouts h 10 100 d))
        >> (send_params_request >>= after_request fuel stack params)

  -- FTDI_OpenDevice, from the values of the two globals on
  unfoldable pub open_device : ℕ → Stack → List ℕ → ℕ → ℕ → M v Opened
  unfolding try_open connect
  open_device fuel stack params device_num h d =
      let (status, h', d') = try_open 2 device_num h d in
      if status == ft_ok
      then connect h' fuel stack params d'
      else got (record { result = 0; handle = h'; params = params }) d'
