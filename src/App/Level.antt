-- ===== src/App/Level.antt =====
-- The log level of an application that has been set up.
use Prim.Native.String.{String}
use dmx_enttec_node.Prelude.{
  ◌%◌, ◌<◌, ◌≡◌, refl, inl, inr, List, [], ◌∷◌, Bool, false, not, ◌&&◌, ltb, if◌then◌else◌,
  Bool-cases, Option, some, ℤ, pos, negsuc, Result, ok, fault, ◌>>=◌, arith,
}
use dmx_enttec_node.Core.Logger.{set_global_log_level, log_level_to_string}
use dmx_enttec_node.Config.{Config, Json, AppType}
use dmx_enttec_node.Config.Levels.{from_file-log_level}
use dmx_enttec_node.App.{load_config, configured, setup_app, set_affinity, running_hot}

-- A number by which an `int` can be shifted.
abbrev pub is_core : ℤ → Bool
is_core (negsuc n) = false
is_core (pos n) = ltb n 32

-- A shift of 1 by the number of the core, up to whether it returns
affinity_lem {ℓ} :
    {A : Type ℓ} (core : ℤ) (a : A)
    → (set_affinity core >>= (λ mask. ok (some mask)) >>= λ mask. ok a)
      ≡ (if not (is_core core) then fault else ok a)
unfolding set_affinity
affinity_lem (negsuc n) a = refl
affinity_lem (pos n) a = ground arith

-- What runs hot or not returns but where the number of its core is none.
running_hot_lem {ℓ} :
    {A : Type ℓ} (c : Config) (a : A)
    → (running_hot c >>= λ mask. ok a)
      ≡ (if c.run_hot && not (is_core c.core_affinity) then fault else ok a)
unfolding running_hot
running_hot_lem c a = elim (Bool-cases c.run_hot) [
  | inl hot ↦ rw (hot, running_hot) (affinity_lem c.core_affinity a)
  | inr cold ↦ rw (cold, running_hot) refl
]

module _ (read_json : String → Option (Result Json)) where
  load_config-log_level :
      (args : List String) (app_type : AppType) (c : Config)
      → load_config read_json args app_type ≡ ok (some c)
      → (c.log_level < 4) × ((name : String) × (log_level_to_string c.log_level ≡ ok name))
  unfolding load_config
  load_config-log_level [] app_type c e = from_file-log_level read_json _ app_type c e
  load_config-log_level (program ∷ []) app_type c e = from_file-log_level read_json _ app_type c e
  load_config-log_level (program ∷ path ∷ []) app_type c e =
      from_file-log_level read_json path app_type c e
  load_config-log_level (program ∷ path ∷ more ∷ rest) app_type c e = absurd (ground arith)

  -- Once the configuration is loaded, SetupApp succeeds with it under the name of the application,
  -- unless it is to run hot on a core that is negative or 32 and more, and the global log level is
  -- the one that the configuration names.
  pub setup_app-loaded :
      (args : List String) (app_name : String) (app_type : AppType) (c : Config)
      → load_config read_json args app_type ≡ ok (some c)
      → ((setup_app read_json args app_name app_type).0 ≡ (
          if c.run_hot && not (is_core c.core_affinity)
          then fault
          else ok (some (record c { app_name = app_name }))))
        × ((setup_app read_json args app_name app_type).1 ≡ c.log_level)
  unfolding setup_app configured set_global_log_level
  setup_app-loaded args app_name app_type c e =
      let (lt, (name, named)) = load_config-log_level args app_type c e in
      (
        rw (e, setup_app, configured, named, ◌>>=◌) (running_hot_lem c _),
        rw (e, setup_app, configured) small,
      )
    where
      small : c.log_level % 256 ≡ c.log_level
      small = omega (arith, (load_config-log_level args app_type c e).0)
