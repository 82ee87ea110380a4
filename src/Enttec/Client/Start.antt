-- ===== src/Enttec/Client/Start.antt =====
-- EnttecUSBClient::Start with ReloadDriver, and the destructor.
use dmx_enttec_node.Prelude.{
  ℕ, ◌%◌, List, not, ◌==◌, if◌then◌else◌, Option, none, some, Error, wrong_device_count,
  open_failed,
}
use dmx_enttec_node.Core.Timer.{Callback}
use dmx_enttec_node.Core.EventLoop.{EventLoop, add_timer}
use dmx_enttec_node.Enttec.UsbPro.Driver.{Driver}
use dmx_enttec_node.Enttec.UsbPro.Receive.{got, M, ◌>>=◌ as bind}
use dmx_enttec_node.Enttec.UsbPro.Open.{
  Opened, Stack, close_port, purge_buffer, list_devices, open_device,
}
use dmx_enttec_node.Enttec.Client.Defs.{UsbClient}

abbrev pub vid : ℕ
vid = 0x0403

abbrev pub pid : ℕ
pid = 0x6001

-- 15 ms and 5 s, in nanoseconds
abbrev pub sender_interval : ℕ
sender_interval = 15000000

abbrev pub metrics_interval : ℕ
metrics_interval = 5000000000

-- The two calls of AddTimer: for each the time, the callback and the address of the new timer
pub record Timers (S : Type 0) : Type 0 where
  pub sender_now : ℕ
  pub sender : Callback S
  pub sender_address : ℕ
  pub metrics_now : ℕ
  pub metrics : Callback S
  pub metrics_address : ℕ

-- How Start ends, with the state that it leaves
pub record Started (S : Type 0) : Type 0 where
  pub client : UsbClient
  pub handle : ℕ
  pub params : List ℕ
  pub loop : EventLoop S
  pub thrown : Option Error

module _ {S : Type 0} where
  unfoldable pub add_timers : Timers S → EventLoop S → EventLoop S
  add_timers t loop =
      add_timer t.metrics_now metrics_interval t.metrics t.metrics_address
        (add_timer t.sender_now sender_interval t.sender t.sender_address loop)

module _ (v : Driver) where
  open v use {Device, ft_reload}

  unfoldable pub reload_driver : UsbClient → Device → UsbClient × Device
  reload_driver c d =
      let (status, d') = ft_reload vid pid d in (record c { ft_status = status }, d')

  unfoldable pub destroy : ℕ → Device → Device
  destroy h d = close_port v h (purge_buffer v h d)

  module _ {S : Type 0} (fuel : ℕ) (stack : Stack) (timers : Timers S) where
    -- From the result of FTDI_OpenDevice on
    unfoldable pub opened : UsbClient → EventLoop S → Opened → M v (Started S)
    opened c loop o d =
        let c' : UsbClient = record c { device_connected = o.result } in
        if o.result == 0
        then got
            (record {
              client = c';
              handle = o.handle;
              params = o.params;
              loop = loop;
              thrown = some open_failed;
            })
            d
        else got
            (record {
              client = c';
              handle = o.handle;
              params = o.params;
              loop = add_timers timers loop;
              thrown = none;
            })
            d

    -- `h` and `params` are the two globals. mNumDevices is a `uint8_t`.
    unfoldable pub start_client : ℕ → List ℕ → EventLoop S → UsbClient → M v (Started S)
    unfolding reload_driver opened
    start_client h params loop c d =
        let (c1, d1) = reload_driver c d in
        let (num_devices, d2) = list_devices v d1 in
        let c2 : UsbClient = record c1 { num_devices = num_devices % 256 } in
        if not (c2.num_devices == 1)
        then got
            (record {
              client = c2;
              handle = h;
              params = params;
              loop = loop;
              thrown = some wrong_device_count;
            })
            d2
        else bind v (open_device v fuel stack params 0 h) (opened c2 loop) d2
