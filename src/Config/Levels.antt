-- ===== src/Config/Levels.antt =====
-- The log level of a configuration.
use Prim.Native.String.{String}
use dmx_enttec_node.Prelude.{
  ℕ, zero, suc, ◌<◌, ◌≡◌, refl, Option, some, Result, ok, >>=-eq-ok, arith, inl, inr, Option-cases,
}
use dmx_enttec_node.Core.Logger.{log_level_to_string}
use dmx_enttec_node.Config.{
  Config, Json, AppType, audio_sender, audio_receiver, dmx_usb_node, parse_log_level, load_for,
  from_file, load_common_audio_config, get,
}

parse_log_level-lt : (s : String) {l : ℕ} → parse_log_level s ≡ ok l → l < 4
unfolding parse_log_level
parse_log_level-lt s e = ground arith

load_common_audio_config-log_level :
    (c c' : Config) (json : Json)
    → load_common_audio_config c json ≡ ok c'
    → c'.log_level ≡ c.log_level
unfolding load_common_audio_config
load_common_audio_config-log_level c c' json e = ground arith

load_for-log_level :
    (app_type : AppType) (c c' : Config) (json : Json)
    → load_for app_type c json ≡ ok c'
    → c'.log_level ≡ c.log_level
unfolding load_for
load_for-log_level audio_sender c c' json e = ground arith
load_for-log_level audio_receiver c c' json e = ground arith
load_for-log_level dmx_usb_node c c' json e = ground arith

loaded-lt :
    (app_type : AppType) (c c' c'' : Config) (json : Json)
    → load_for app_type c json ≡ ok c'
    → ok (some c') ≡ ok (some c'')
    → c.log_level < 4
    → c''.log_level < 4
loaded-lt app_type c c' c'' json e f lt = ground (arith, load_for-log_level app_type c c' json e)

level_name : (l : ℕ) → l < 4 → (name : String) × (log_level_to_string l ≡ ok name)
unfolding log_level_to_string
level_name zero lt = ("Debug", refl)
level_name (suc zero) lt = ("Info", refl)
level_name (suc (suc zero)) lt = ("Warn", refl)
level_name (suc (suc (suc zero))) lt = ("Error", refl)
level_name (suc (suc (suc (suc l)))) lt = absurd (omega arith)

-- A configuration that is loaded has one of the four levels, whose name can be printed: reporting
-- the level never throws.
pub from_file-log_level :
    (read_json : String → Option (Result Json)) (file_path : String) (app_type : AppType)
    (c : Config)
    → from_file read_json file_path app_type ≡ ok (some c)
    → (c.log_level < 4) × ((name : String) × (log_level_to_string c.log_level ≡ ok name))
unfolding from_file
from_file-log_level read_json file_path app_type c e = elim (Option-cases (read_json file_path)) [
  | inl missing ↦ absurd (ground arith)
  | inr (parsed, found) ↦
      let (json, e1, r1) = >>=-eq-ok parsed _ (rw (found, from_file) at e) in
      let (log_level_name, e2, r2) = >>=-eq-ok (get (json.string_at "log_level")) _ r1 in
      let (log_level, e3, r3) = >>=-eq-ok (parse_log_level log_level_name) _ r2 in
      let (run_hot, e4, r4) = >>=-eq-ok (get (json.bool_at "run_hot")) _ r3 in
      let (core_affinity, e5, r5) = >>=-eq-ok (get (json.int_at "core_affinity")) _ r4 in
      let (config', e6, r6) = >>=-eq-ok (load_for app_type _ json) _ r5 in
      let lt : c.log_level < 4 =
        loaded-lt app_type _ config' c json e6 r6 (parse_log_level-lt log_level_name e3) in
      (lt, level_name c.log_level lt)
]
