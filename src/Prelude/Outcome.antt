-- ===== src/Prelude/Outcome.antt =====
-- How a C++ call ends: with a value, with an exception that `THROW_IF` raises, or with undefined
-- behaviour (an access outside an object), after which nothing is known.
use mathlib.Core.Path.{◌≡◌, refl}
use mathlib.Core.Bool.{Bool, true, false}
use mathlib.Core.Option.{Option, none, some}

-- The `THROW_IF` sites, by their message.
pub data Error : Type 0 where
  wrong_protocol_id : Error
  device_not_connected : Error
  wrong_device_count : Error
  open_failed : Error
  unknown_log_level : Error
  negative_universe : Error
  json_error : Error
  unknown_format : Error
  no_device_found : Error
  invalid_device_id : Error
  out_of_memory : Error
  wsa_failed : Error
  socket_failed : Error
  bind_failed : Error
  connect_failed : Error
  sockname_failed : Error
  ntop_failed : Error
  loopback_address : Error
  wrong_frame_size : Error
  begin_write_failed : Error
  end_write_failed : Error
  begin_read_failed : Error
  end_read_failed : Error
  copied_too_much : Error
  stream_open_failed : Error
  stream_start_failed : Error
  soundio_connect_failed : Error
  no_sample_format : Error
  no_sample_rate : Error
  already_active : Error
  not_pinned : Error

pub data Result {ℓ} (A : Type ℓ) : Type ℓ where
  ok : A → Result A
  throw : Error → Result A
  fault : Result A

-- The rest of a function runs after a call that has given a value.
infixl 5 ◌>>=◌
abbrev pub ◌>>=◌ {ℓ κ} :
    {A : Type ℓ} {B : Type κ} (call : Result A) (rest : A → Result B) → Result B
fault >>= rest = fault
throw e >>= rest = throw e
ok a >>= rest = rest a

infixl 5 ◌>>◌
abbrev pub ◌>>◌ {κ} : {B : Type κ} (call : Result (Unit {0})) (rest : Result B) → Result B
call >> rest = call >>= λ done. rest

-- `THROW_IF(cond, message)`
abbrev pub throw_if : Bool → Error → Result (Unit {0})
throw_if true e = throw e
throw_if false e = ok tt

-- An access that is out of bounds faults.
abbrev pub or_fault {ℓ} : {A : Type ℓ} → Option A → Result A
or_fault none = fault
or_fault (some a) = ok a

-- A result is taken apart under a λ, so that the rest of a proof sees its parts as variables.
abbrev pub given {ℓ κ} : {A : Type ℓ} {B : Type κ} → A → (A → B) → B
given a f = f a

-- A loop on fuel is `none` where the fuel is used up: what a loop does after a call.
abbrev pub after {ℓ κ} :
    {A : Type ℓ} {B : Type κ} → Result A → (A → Option (Result B)) → Option (Result B)
after fault rest = some fault
after (throw e) rest = some (throw e)
after (ok a) rest = rest a

module _ {ℓ κ} {A : Type ℓ} {B : Type κ} where
  -- A sequence that gives a value: both of its parts do.
  pub >>=-eq-ok :
      (call : Result A) (rest : A → Result B) {b : B}
      → (call >>= rest) ≡ ok b
      → (a : A) × (call ≡ ok a) × (rest a ≡ ok b)
  >>=-eq-ok fault rest e = cc
  >>=-eq-ok (throw x) rest e = cc
  >>=-eq-ok (ok a) rest e = (a, refl, e)

  pub >>=-ext :
      (call : Result A) (f g : A → Result B) → ((a : A) → f a ≡ g a) → (call >>= f) ≡ (call >>= g)
  >>=-ext fault f g same = refl
  >>=-ext (throw x) f g same = refl
  >>=-ext (ok a) f g same = same a

  pub >>=-assoc {μ} :
      {C : Type μ} (call : Result A) (f : A → Result B) (g : B → Result C)
      → ((call >>= f) >>= g) ≡ (call >>= λ a. f a >>= g)
  >>=-assoc fault f g = refl
  >>=-assoc (throw x) f g = refl
  >>=-assoc (ok a) f g = refl
