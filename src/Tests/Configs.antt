-- ===== src/Tests/Configs.antt =====
-- The configuration.
use Prim.Native.String.{String}
use text.Mathlib.Text.{◌==◌ as str_eq}
use dmx_enttec_node.Prelude.{
  ℕ, List, [], ◌∷◌, ◌≡◌, refl, none, some, true, pos, negsuc, ok, if◌then◌else◌, arith,
}
use dmx_enttec_node.Config.{Config, Json, dmx_usb_node, empty, from_file, load_config_dmx_usb_node}
use dmx_enttec_node.Config.Universe.{Loads, load_config_dmx_usb_node-Loads}
use dmx_enttec_node.App.{load_config, setup_app}
use dmx_enttec_node.App.Level.{setup_app-loaded}
use dmx_enttec_node.App.Cores.{bit, setup_app-binds}

-- A file with a negative universe, and a process on core 31
abbrev json : Json
json = record {
  string_at = λ key. if str_eq key "log_level" then some "warn" else none;
  bool_at = λ key. some true;
  int_at = λ key.
      if str_eq key "dmx_universe"
      then some (negsuc 0)
      else if str_eq key "core_affinity"
      then some (pos 31)
      else some (pos 7000);
}

load_config_dmx_usb_node-Loads_example : Loads empty json (load_config_dmx_usb_node empty json)
load_config_dmx_usb_node-Loads_example = load_config_dmx_usb_node-Loads empty json

abbrev loaded : Config
loaded = record empty {
  log_level = 2;
  run_hot = true;
  core_affinity = pos 31;
  overlay_listen_port = 7000;
  dmx_universe = 65535;
}

loads : from_file (λ path. some (ok json)) "node.json" dmx_usb_node ≡ ok (some loaded)
unfolding from_file load_config_dmx_usb_node
loads = refl

abbrev arguments : List String
arguments = "dmx_usb_node" ∷ "node.json" ∷ []

loads_named : load_config (λ path. some (ok json)) arguments dmx_usb_node ≡ ok (some loaded)
unfolding load_config from_file load_config_dmx_usb_node
loads_named = refl

setup_app-loaded_example :
    ((setup_app (λ path. some (ok json)) arguments "node" dmx_usb_node).0
      ≡ ok (some (record loaded { app_name = "node" })))
    × ((setup_app (λ path. some (ok json)) arguments "node" dmx_usb_node).1 ≡ 2)
setup_app-loaded_example =
    setup_app-loaded (λ path. some (ok json)) arguments "node" dmx_usb_node loaded loads_named

-- Core 31 is given for one core, and core 63 is asked for with it.
setup_app-binds_example :
    (mask : ℕ) × ((setup_app (λ path. some (ok json)) arguments "node" dmx_usb_node).2 ≡ some mask)
    × (bit mask 63 ≡ 1)
setup_app-binds_example =
    setup_app-binds (λ path. some (ok json)) arguments "node" dmx_usb_node loaded 31 63 loads_named
      refl refl (omega arith) (omega arith)
