-- ===== src/Tests/Data.antt =====
-- The data that the tests share: a driver that takes all it is given and has bytes to be read, an
-- overlay message, and a client.
use dmx_enttec_node.Prelude.{
  ℕ, refl, ap, sym, List, [], ◌∷◌, ◌++◌, length, take, drop, take-all, replicate, Option, Bool,
  arith,
}
use dmx_enttec_node.Proto.{OverlayMessage, overlay_protocol_id}
use dmx_enttec_node.Enttec.UsbPro.Driver.{Driver, IsWire, IsStream}
use dmx_enttec_node.Enttec.UsbPro.Framing.{TakesAll}
use dmx_enttec_node.Enttec.Client.Defs.{UsbClient}

pub record Wires : Type 0 where
  pub out : List ℕ
  pub in_ : List ℕ

abbrev pub quiet : Wires
quiet = record { out = []; in_ = [] }

abbrev pub driver : Driver
driver = record {
  Device = Wires;
  ft_reload = λ vid pid d. (0, d);
  ft_list_devices = λ d. (0, 1, d);
  ft_open = λ i h d. (0, 1, d);
  ft_close = λ h d. d;
  ft_purge_tx = λ h d. d;
  ft_purge_rx = λ h d. d;
  ft_get_driver_version = λ h d. d;
  ft_get_latency_timer = λ h d. d;
  ft_set_timeouts = λ h r w d. d;
  ft_write = λ h bs d. (0, length bs, record d { out = d.out ++ bs });
  ft_read = λ h n d. (0, take n d.in_, record d { in_ = drop n d.in_ });
}

abbrev pub wire : IsWire driver
wire = record {
  sent = λ d. d.out;
  write_le = λ h bs d. omega arith;
  write_sends = λ h bs d. ap (λ ys. d.out ++ ys) (sym (take-all (length bs) bs refl));
}

abbrev pub stream : IsStream driver
stream = record {
  pending = λ d. d.in_;
  read_ok = λ h n d. refl;
  read_takes = λ h n d. refl;
  read_leaves = λ h n d. refl;
}

abbrev pub takes_all : TakesAll driver
takes_all = record { takes = λ h bs d. refl; succeeds = λ h bs d. refl }

-- One overlay that sets channels 10 to 12 of universe 1
abbrev pub message : OverlayMessage
message = record {
  protocol_id = overlay_protocol_id;
  universe = 1;
  num_overlays = 1;
  overlays = record { start = 10; length = 3 } ∷ replicate 99 (record { start = 0; length = 0 });
  dmx_data = replicate 512 200;
}

-- An overlay behind the last channel
abbrev pub wild_message : OverlayMessage
wild_message = record message {
  overlays = record { start = 510; length = 3 } ∷ replicate 99 (record { start = 0; length = 0 });
}

abbrev pub client : Option OverlayMessage → Bool → UsbClient
client last new = record {
  ft_status = 0;
  num_devices = 1;
  device_connected = 1;
  serialized_frame = replicate 513 0;
  last_overlay_msg = last;
  is_new_frame = new;
  send_counter = 0;
}

abbrev pub dmx_frame : List ℕ
dmx_frame = replicate 512 7
