-- ===== src/Enttec/UsbPro/Driver.antt =====
-- FTDI's D2XX driver, which is not part of the sources: the calls that usb_pro.cc makes of it, and
-- what its manual promises of two of them.
use dmx_enttec_node.Prelude.{ℕ, ◌≤◌, ◌≡◌, List, ◌++◌, length, take, drop}

-- FT_OK, and the NULL handle
abbrev pub ft_ok : ℕ
ft_ok = 0

abbrev pub null : ℕ
null = 0

-- Each call takes the handle that it is made on. A status is a number; `ft_write` gives the status
-- and the number of bytes written, `ft_read` the status and the bytes read (their number is what
-- the driver stores in `bytes_read`), `ft_open` the status and the new value of the handle.
pub record Driver : Type 1 where
  pub Device : Type 0
  pub ft_reload : ℕ → ℕ → Device → ℕ × Device
  pub ft_list_devices : Device → ℕ × ℕ × Device
  pub ft_open : ℕ → ℕ → Device → ℕ × ℕ × Device
  pub ft_close : ℕ → Device → Device
  pub ft_purge_tx : ℕ → Device → Device
  pub ft_purge_rx : ℕ → Device → Device
  -- What the two calls give is printed only.
  pub ft_get_driver_version : ℕ → Device → Device
  pub ft_get_latency_timer : ℕ → Device → Device
  pub ft_set_timeouts : ℕ → ℕ → ℕ → Device → Device
  pub ft_write : ℕ → List ℕ → Device → ℕ × ℕ × Device
  pub ft_read : ℕ → ℕ → Device → ℕ × List ℕ × Device

-- Writing on an open handle appends to what the wire has carried; fewer bytes than asked for may
-- be taken.
pub record IsWire (v : Driver) : Type 1 where
  pub sent : Driver.Device v → List ℕ
  pub write_le :
      (h : ℕ) (bs : List ℕ) (d : Driver.Device v) → (Driver.ft_write v h bs d).1 ≤ length bs
  pub write_sends :
      (h : ℕ) (bs : List ℕ) (d : Driver.Device v)
      → let (status, n, d') = Driver.ft_write v h bs d in sent d' ≡ sent d ++ take n bs

-- Reading takes from the bytes that the device has sent; with fewer of them than asked for, the
-- call ends after the read timeout with those there are.
pub record IsStream (v : Driver) : Type 1 where
  pub pending : Driver.Device v → List ℕ
  pub read_ok : (h n : ℕ) (d : Driver.Device v) → (Driver.ft_read v h n d).0 ≡ ft_ok
  pub read_takes : (h n : ℕ) (d : Driver.Device v) → (Driver.ft_read v h n d).1 ≡ take n (pending d)
  pub read_leaves :
      (h n : ℕ) (d : Driver.Device v) → pending (Driver.ft_read v h n d).2 ≡ drop n (pending d)
