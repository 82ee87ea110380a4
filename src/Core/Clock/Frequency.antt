-- ===== src/Core/Clock/Frequency.antt =====
-- libs/core/clock.h: how the frequency of the counter is found.
use dmx_enttec_node.Prelude.{
  ℕ, ◌+◌, ◌-◌, ◌/◌, ◌%◌, ◌^◌, ◌<◌, ◌≡◌, refl, ap, Bool, true, false, not, ◌==◌, if◌then◌else◌, ok,
  throw, fault, not_pinned, arith,
}
use dmx_enttec_node.Core.Clock.{
  arm64, x86_64, Registers, Calibration, Double, rdtscp_at, is_moved, frequency_of, tsc_initialise,
  initialise,
}

-- The registers after `rdtscp` at the cycle `t` since the start of the processor
pub record Counts (t : ℕ) (r : Registers) : Type 0 where
  pub low : r.rax ≡ t % 2 ^ 32
  pub high : r.rdx ≡ t / 2 ^ 32 % 2 ^ 32

cycles-Counts : {t : ℕ} {r : Registers} → Counts t r → (rdtscp_at x86_64 r).cycles ≡ t % 2 ^ 64
unfolding rdtscp_at
cycles-Counts counts = omega arith

-- The two fields together are the low 24 bits of `rcx`.
is_moved_lem :
    (a b : Registers)
    → is_moved (rdtscp_at x86_64 a) (rdtscp_at x86_64 b)
      ≡ ok (not (a.rcx % 2 ^ 24 == b.rcx % 2 ^ 24))
unfolding is_moved rdtscp_at
is_moved_lem a b = ground arith

if_not :
    {A : Type 0} (test : Bool) (x y : A) → (if not test then x else y) ≡ (if test then y else x)
if_not true x y = refl
if_not false x y = refl

module _ (double : Double) where
  open double use {D, of_uint64, quotient, is_zero, to_uint64}

  -- The difference of the readings is the number of cycles in between, also where the counter wraps.
  frequency_of-Counts :
      (c : Calibration) (t k : ℕ)
      → Counts t c.before
      → Counts (t + k) c.later
      → k < 2 ^ 64
      → frequency_of double c (rdtscp_at x86_64 c.before) (rdtscp_at x86_64 c.later)
        ≡ quotient (of_uint64 k) (of_uint64 (c.end - c.start))
  unfolding frequency_of
  frequency_of-Counts c t k before later small =
      ap (λ (n : ℕ). quotient (of_uint64 n) (of_uint64 (c.end - c.start)))
        (omega (arith, cycles-Counts before, cycles-Counts later))

  -- On x86-64 in a release build, where no frequency is known, Clock::Initialise divides the cycles
  -- that have passed by the nanoseconds that have passed, whether or not the counter has wrapped in
  -- between; if the processor that `rcx` names in its low 24 bits is another than before, it throws.
  pub initialise-frequency :
      (freq : D) (c : Calibration) (t k : ℕ)
      → is_zero freq ≡ true
      → Counts t c.before
      → Counts (t + k) c.later
      → k < 2 ^ 64
      → initialise double false x86_64 freq c ≡ (
          if c.before.rcx % 2 ^ 24 == c.later.rcx % 2 ^ 24
          then ok (quotient (of_uint64 k) (of_uint64 (c.end - c.start)))
          else throw not_pinned)
  unfolding initialise tsc_initialise
  initialise-frequency freq c t k zero before later small =
      rw (zero, is_moved_lem c.before c.later, frequency_of-Counts c t k before later small)
        (if_not (c.before.rcx % 2 ^ 24 == c.later.rcx % 2 ^ 24) _ _)

  -- On arm64 the processors are compared without having been read.
  pub initialise-arm64 :
      (freq : D) (c : Calibration)
      → is_zero freq ≡ true
      → initialise double false arm64 freq c ≡ fault
  unfolding initialise tsc_initialise is_moved rdtscp_at
  initialise-arm64 freq c zero = rw zero
