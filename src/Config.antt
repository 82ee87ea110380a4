-- ===== src/Config.antt =====
-- libs/config/config.cc: the configuration, out of a JSON file.
pub mod Levels
pub mod Universe
use Prim.Native.String.{String}
use text.Mathlib.Text.{◌==◌ as str_eq}
use dmx_enttec_node.Prelude.{
  ℕ, ◌+◌, ◌-◌, ◌%◌, ◌^◌, Bool, true, false, if◌then◌else◌, ltb, Option, none, some, ℤ, pos, negsuc,
  is_negative, Result, ok, throw, fault, throw_if, ◌>>=◌, ◌>>◌, unknown_log_level, json_error,
  negative_universe,
}
use dmx_enttec_node.Core.Logger.{ll_debug, ll_info, ll_warn, ll_error}

-- The JSON library: the value at a key, where it converts to the type asked for.
pub record Json : Type 0 where
  pub string_at : String → Option String
  pub bool_at : String → Option Bool
  pub int_at : String → Option ℤ

pub data AppType : Type 0 where
  audio_sender audio_receiver dmx_usb_node : AppType

-- A number that the loader of an application does not set keeps its initial value, 0.
pub record Config : Type 0 where
  pub log_level : ℕ
  pub run_hot : Bool
  pub core_affinity : ℤ
  pub app_name : String
  pub overlay_listen_port : ℕ
  pub dmx_universe : ℕ
  pub audio_server_ipv4 : String
  pub audio_server_port : ℕ
  pub audio_device_id : String
  pub audio_format : String
  pub audio_sample_rate : ℤ

-- `Config config {};`
abbrev pub empty : Config
empty = record {
  log_level = 0;
  run_hot = false;
  core_affinity = pos 0;
  app_name = "";
  overlay_listen_port = 0;
  dmx_universe = 0;
  audio_server_ipv4 = "";
  audio_server_port = 0;
  audio_device_id = "";
  audio_format = "";
  audio_sample_rate = pos 0;
}

-- The conversion of an integer to an unsigned type of so many bits
abbrev pub to_unsigned : ℕ → ℤ → ℕ
to_unsigned bits (pos n) = n % 2 ^ bits
to_unsigned bits (negsuc n) = 2 ^ bits - 1 - n % 2 ^ bits

-- The conversion of an integer to a signed type of so many bits
abbrev pub to_signed : ℕ → ℤ → ℤ
to_signed bits z =
    if ltb (to_unsigned bits z) (2 ^ (bits - 1))
    then pos (to_unsigned bits z)
    else negsuc (2 ^ bits - 1 - to_unsigned bits z)

-- A value that is not there, or of another type, makes the library throw.
abbrev pub get {ℓ} : {A : Type ℓ} → Option A → Result A
get none = throw json_error
get (some a) = ok a

unfoldable pub parse_log_level : String → Result ℕ
parse_log_level s =
    if str_eq s "debug"
    then ok ll_debug
    else if str_eq s "info"
    then ok ll_info
    else if str_eq s "warn"
    then ok ll_warn
    else if str_eq s "error"
    then ok ll_error
    else throw unknown_log_level

-- RunHot::Yes and RunHot::No
unfoldable pub parse_run_hot : Bool → Bool
parse_run_hot run_hot = if run_hot then true else false

unfoldable pub load_common_audio_config : Config → Json → Result Config
load_common_audio_config c json = do
  port ← get (json.int_at "audio_server_port")
  device_id ← get (json.string_at "audio_device_id")
  format ← get (json.string_at "audio_format")
  sample_rate ← get (json.int_at "audio_sample_rate")
  ok (record c {
    audio_server_port = to_unsigned 32 port;
    audio_device_id = device_id;
    audio_format = format;
    audio_sample_rate = to_signed 32 sample_rate;
  })

unfoldable pub load_config_audio_sender : Config → Json → Result Config
unfolding load_common_audio_config
load_config_audio_sender c json = do
  c' ← load_common_audio_config c json
  ip ← get (json.string_at "audio_server_ip")
  ok (record c' { audio_server_ipv4 = ip })

unfoldable pub load_config_audio_receiver : Config → Json → Result Config
unfolding load_common_audio_config
load_config_audio_receiver c json = load_common_audio_config c json

-- The universe is tested once it is a `uint16_t`.
unfoldable pub load_config_dmx_usb_node : Config → Json → Result Config
load_config_dmx_usb_node c json = do
  port ← get (json.int_at "overlay_listen_port")
  universe ← get (json.int_at "dmx_universe")
  let dmx_universe = to_unsigned 16 universe
  throw_if (is_negative (pos dmx_universe)) negative_universe
  ok (record c { overlay_listen_port = to_unsigned 32 port; dmx_universe = dmx_universe })

unfoldable pub load_for : AppType → Config → Json → Result Config
unfolding load_config_audio_sender load_config_audio_receiver load_config_dmx_usb_node
load_for audio_sender = load_config_audio_sender
load_for audio_receiver = load_config_audio_receiver
load_for dmx_usb_node = load_config_dmx_usb_node

-- `none` is a file that cannot be opened; the parser may throw.
unfoldable pub from_file :
    (String → Option (Result Json)) → String → AppType → Result (Option Config)
unfolding load_for parse_log_level parse_run_hot
from_file read_json file_path app_type = elim (read_json file_path) [
  | none ↦ ok none
  | some parsed ↦ do
    json ← parsed
    log_level_name ← get (json.string_at "log_level")
    log_level ← parse_log_level log_level_name
    run_hot ← get (json.bool_at "run_hot")
    core_affinity ← get (json.int_at "core_affinity")
    let config : Config = record empty {
      log_level = log_level;
      run_hot = parse_run_hot run_hot;
      core_affinity = to_signed 32 core_affinity;
    }
    config' ← load_for app_type config json
    ok (some config')
]
