-- ===== src/App/Cores.antt =====
-- The cores that a process running hot is bound to.
use Prim.Native.String.{String}
use dmx_enttec_node.Prelude.{
  ℕ, zero, suc, ◌/◌, ◌%◌, ◌^◌, ◌<◌, ◌≡◌, refl, List, Bool, true, false, ◌&&◌, leb, ◌==◌, ==_iff,
  Bool-cases, inl, inr, if◌then◌else◌, Option, some, pos, Result, ok, ◌>>=◌, given, arith,
}
use dmx_enttec_node.Config.{Config, Json, AppType}
use dmx_enttec_node.App.{load_config, configured, setup_app, set_affinity, running_hot}

-- The numbers up to a bound are tried, from the largest down.
tried : (ℕ → Bool) → ℕ → Bool
tried test zero = true
tried test (suc bound) = tried test bound && test bound

of_tried :
    (test : ℕ → Bool) (bound : ℕ)
    → tried test bound ≡ true
    → (number : ℕ) → number < bound
    → test number ≡ true
unfolding tried
of_tried test zero passed number below = absurd (omega arith)
of_tried test (suc bound) passed number below = elim (Bool-cases (number == bound)) [
  | inl last ↦ ground arith
  | inr earlier ↦ of_tried test bound (ground arith) number (ground arith)
]

-- Bit `k` of a mask
abbrev pub bit : ℕ → ℕ → ℕ
bit mask k = mask / 2 ^ k % 2

-- Whether a process that asks for core `n` may run on core `k`
abbrev pub bound_to : ℕ → ℕ → ℕ
bound_to n k = if n == 31 then (if leb 31 k then 1 else 0) else if k == n then 1 else 0

abbrev is_set_for : ℕ → ℕ → Result ℕ → Bool
is_set_for n k (ok mask) = bit mask k == bound_to n k
is_set_for n k _ = false

core_bits : ℕ → Bool
core_bits n = tried (λ k. is_set_for n k (set_affinity (pos n))) 64

masks : tried core_bits 32 ≡ true
unfolding tried core_bits set_affinity
masks = refl

of_is_set_for :
    (n k : ℕ) (call : Result ℕ)
    → is_set_for n k call ≡ true
    → (mask : ℕ) × (call ≡ ok mask) × (bit mask k ≡ bound_to n k)
of_is_set_for n k (ok mask) e = (mask, refl, (==_iff _ _).0 e)
of_is_set_for n k (Result.throw x) e = cc
of_is_set_for n k Result.fault e = cc

set_affinity-cores :
    (n k : ℕ)
    → n < 32
    → k < 64
    → (mask : ℕ) × (set_affinity (pos n) ≡ ok mask) × (bit mask k ≡ bound_to n k)
unfolding core_bits
set_affinity-cores n k small below = of_is_set_for n k (set_affinity (pos n)) (
    of_tried (λ k. is_set_for n k (set_affinity (pos n))) 64 (of_tried core_bits 32 masks n small) k
      below)

-- An application that runs hot on a core below 32 asks for a mask with the bit of that core alone,
-- but for core 31: there the bits from 31 to 63 are set.
pub setup_app-binds :
    (read_json : String → Option (Result Json)) (args : List String) (app_name : String)
    (app_type : AppType) (c : Config) (n k : ℕ)
    → load_config read_json args app_type ≡ ok (some c)
    → c.run_hot ≡ true
    → c.core_affinity ≡ pos n
    → n < 32
    → k < 64
    → (mask : ℕ) × ((setup_app read_json args app_name app_type).2 ≡ some mask)
      × (bit mask k ≡ bound_to n k)
unfolding setup_app configured running_hot
setup_app-binds read_json args app_name app_type c n k loads hot core small below =
    given (set_affinity-cores n k small below) λ (mask, asks, bits).
      (mask, rw (loads, setup_app, configured, hot, running_hot, core, asks, ◌>>=◌), bits)
