-- ===== src/Tests/Clocks.antt =====
-- The clock: a counter that wraps while it is measured, on fractions for `double`.
use dmx_enttec_node.Prelude.{
  ℕ, ◌+◌, ◌*◌, ◌/◌, ◌-◌, ◌^◌, ◌≡◌, refl, Bool, false, ◌==◌, if◌then◌else◌, Option, none, some, ok,
  arith,
}
use dmx_enttec_node.Core.Clock.{x86_64, Registers, Calibration, Double, initialise}
use dmx_enttec_node.Core.Clock.Frequency.{Counts, initialise-frequency}

abbrev is_zero : ℕ × ℕ → Bool
is_zero (n, d) = n == 0

abbrev quotient : ℕ × ℕ → ℕ × ℕ → ℕ × ℕ
quotient (a, b) (c, d) = (a * d, b * c)

abbrev to_uint64 : ℕ × ℕ → Option ℕ
to_uint64 (n, d) = if d == 0 then none else some (n / d)

abbrev fractions : Double
fractions = record {
  D = ℕ × ℕ;
  of_uint64 = λ n. (n, 1);
  quotient = quotient;
  is_zero = is_zero;
  to_uint64 = to_uint64;
}

abbrev registers : ℕ → ℕ → Registers
registers low high = record { tick_count = 0; cntvct = 0; rax = low; rdx = high; rcx = 4099 }

-- Five cycles before the counter wraps, and 1500000000 cycles later
abbrev calibration : Calibration
calibration = record {
  start = 100;
  before = registers (2 ^ 32 - 5) (2 ^ 32 - 1);
  later = registers 1499999995 0;
  end = 500000100;
}

before-Counts : Counts (2 ^ 64 - 5) calibration.before
before-Counts = omega arith

later-Counts : Counts (2 ^ 64 - 5 + 1500000000) calibration.later
later-Counts = omega arith

initialise-frequency_example :
    initialise fractions false x86_64 (0, 1) calibration ≡ ok (1500000000, 500000000)
initialise-frequency_example =
    initialise-frequency fractions (0, 1) calibration (2 ^ 64 - 5) 1500000000 refl before-Counts
      later-Counts (omega arith)
