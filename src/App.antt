-- ===== src/App.antt =====
-- libs/core/app.cc and the mains: the start of an application.
pub mod Level
pub mod Cores
use Prim.Native.String.{String}
use dmx_enttec_node.Prelude.{
  ℕ, ◌-◌, ◌^◌, ltb, ◌==◌, if◌then◌else◌, ℤ, pos, negsuc, List, [], ◌∷◌, Option, none, some, Error,
  Result, ok, throw, fault, ◌>>=◌,
}
use dmx_enttec_node.Core.Logger.{ll_debug, set_global_log_level, log_level_to_string}
use dmx_enttec_node.Config.{Config, Json, AppType, from_file}

-- SetAffinity in the build for Windows, up to the mask that SetProcessAffinityMask is given; what
-- that returns is only logged. `1 << core` is an `int`, which is then widened to 64 bits.
unfoldable pub set_affinity : ℤ → Result ℕ
set_affinity (negsuc n) = fault
set_affinity (pos n) =
    if ltb n 31 then ok (2 ^ n) else if n == 31 then ok (2 ^ 64 - 2 ^ 31) else fault

-- With `run_hot`, the process is bound to its core.
unfoldable pub running_hot : Config → Result (Option ℕ)
unfolding set_affinity
running_hot c =
    if c.run_hot then (set_affinity c.core_affinity >>= λ mask. ok (some mask)) else ok none

-- What a call that may not return has left of its mask.
abbrev pub asked : Result (Option ℕ) → Option ℕ
asked (ok mask) = mask
asked _ = none

module _ (read_json : String → Option (Result Json)) where
  -- The arguments, of which the first is the program: more than one other is refused.
  unfoldable pub load_config : List String → AppType → Result (Option Config)
  load_config (program ∷ path ∷ []) app_type = from_file read_json path app_type
  load_config (program ∷ path ∷ more ∷ rest) app_type = ok none
  load_config _ app_type = from_file read_json "dmx_usb_node.json" app_type

  -- From the configuration on: how SetupApp ends, the global log level after it, and the mask that
  -- the system was asked for.
  unfoldable pub configured :
      String → Result (Option Config) → Result (Option Config) × ℕ × Option ℕ
  unfolding running_hot
  configured app_name (ok (some c)) = (
    (log_level_to_string c.log_level >>= λ name.
        running_hot c >>= λ mask. ok (some (record c { app_name = app_name }))),
    set_global_log_level c.log_level,
    asked (running_hot c),
  )
  configured app_name (ok none) = (ok none, set_global_log_level ll_debug, none)
  configured app_name (throw e) = (throw e, set_global_log_level ll_debug, none)
  configured app_name fault = (fault, set_global_log_level ll_debug, none)

  unfoldable pub setup_app : List String → String → AppType → Result (Option Config) × ℕ × Option ℕ
  unfolding load_config configured
  setup_app args app_name app_type = configured app_name (load_config args app_type)

-- RunApp's return value, where `run` is App::Start with the event loop after it
unfoldable pub run_app : Result (Unit {0}) → Result ℕ
run_app (ok done) = ok 0
run_app (throw e) = ok 1
run_app fault = fault

-- The exit status of a main: what RunApp returns is dropped, and an exception of SetupApp goes on.
unfoldable pub main_ : Result (Option Config) → (Config → Result (Unit {0})) → Result ℕ
unfolding run_app
main_ context run =
    context >>= λ c. elim c [ none ↦ ok 1 | some config ↦ run_app (run config) >>= λ status. ok 0 ]
