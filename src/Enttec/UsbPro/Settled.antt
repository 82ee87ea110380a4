-- ===== src/Enttec/UsbPro/Settled.antt =====
-- FTDI_OpenDevice on a device whose receive queue is bounded: it returns, on every branch.
use dmx_enttec_node.Enttec.UsbPro.Driver.{Driver}
use dmx_enttec_node.Enttec.UsbPro.Receive.{
  Read, got, no_response, fault, out_of_fuel, ◌>>=◌ as bind,
}

-- The call returns.
abbrev Returns : {D A : Type 0} → Read D A → Type 0
Returns (got a d) = Unit
Returns (no_response d) = ⊥
Returns fault = ⊥
Returns out_of_fuel = ⊥
