-- ===== src/Core/Clock.antt =====
-- libs/core/clock.h and clock.cc: the clock, which counts the cycles of the processor in a release
-- build and reads the steady clock of the library in all others.
pub mod Frequency
use dmx_enttec_node.Prelude.{
  ℕ, ◌+◌, ◌-◌, ◌*◌, ◌/◌, ◌%◌, ◌^◌, Bool, true, false, not, ◌||◌, ltb, ◌==◌, if◌then◌else◌, Option,
  none, some, or_fault, ℤ, pos, negsuc, Result, ok, throw, fault, not_pinned, ◌>>=◌,
}

-- The processors that clock.cc tells apart
pub data Platform : Type 0 where
  win32 : Platform
  arm64 : Platform
  x86_64 : Platform

-- What can be read at one moment: GetTickCount64, `cntvct_el0`, and what `rdtscp` leaves in `rax`,
-- `rdx` and `rcx`
pub record Registers : Type 0 where
  pub tick_count : ℕ
  pub cntvct : ℕ
  pub rax : ℕ
  pub rdx : ℕ
  pub rcx : ℕ

-- The function of no arguments
unfoldable pub rdtscp : Platform → Registers → ℕ
rdtscp win32 r = r.tick_count
rdtscp arm64 r = r.cntvct
rdtscp x86_64 r = (r.rdx * 2 ^ 32 % 2 ^ 64 + r.rax) % 2 ^ 64

-- What the function of two arguments leaves in them, with the counter
pub record Reading : Type 0 where
  pub chip : Option ℕ
  pub core : Option ℕ
  pub cycles : ℕ

-- On two of the three platforms `chip` and `core`, which the caller has not initialised, stay as
-- they are.
unfoldable pub rdtscp_at : Platform → Registers → Reading
rdtscp_at win32 r = record { chip = none; core = none; cycles = r.tick_count }
rdtscp_at arm64 r = record { chip = none; core = none; cycles = r.cntvct }
rdtscp_at x86_64 r = record {
  chip = some (r.rcx / 2 ^ 12 % 2 ^ 12);
  core = some (r.rcx % 2 ^ 12);
  cycles = (r.rdx * 2 ^ 32 % 2 ^ 64 + r.rax) % 2 ^ 64;
}

-- `core != core2 || chip != chip2`; to read a variable that is not initialised is undefined.
unfoldable pub is_moved : Reading → Reading → Result Bool
is_moved a b = do
  core ← or_fault a.core
  core2 ← or_fault b.core
  chip ← or_fault a.chip
  chip2 ← or_fault b.chip
  ok (not (core == core2) || not (chip == chip2))

-- What is used of `double`: the conversion of a number of 64 bits, the quotient, whether a value is
-- zero, and the conversion back, which is undefined out of range.
pub record Double : Type 1 where
  pub D : Type 0
  pub of_uint64 : ℕ → D
  pub quotient : D → D → D
  pub is_zero : D → Bool
  pub to_uint64 : D → Option ℕ

-- A `uint64_t` as the count of a duration
unfoldable pub to_int64 : ℕ → ℤ
to_int64 n = if ltb n (2 ^ 63) then pos n else negsuc (2 ^ 64 - n - 1)

-- A steady clock with its readings, in nanoseconds, and the registers, before and after the sleep
pub record Calibration : Type 0 where
  pub start : ℕ
  pub before : Registers
  pub later : Registers
  pub end : ℕ

module _ (double : Double) where
  open double use {D, of_uint64, quotient, is_zero, to_uint64}

  unfoldable pub tsc_from_cycles : D → ℕ → Result ℤ
  unfolding to_int64
  tsc_from_cycles freq cycles =
      or_fault (to_uint64 (quotient (of_uint64 cycles) freq)) >>= λ n. ok (to_int64 n)

  -- The frequency in GHz from the cycles and the nanoseconds of the sleep
  unfoldable pub frequency_of : Calibration → Reading → Reading → D
  frequency_of c a b =
      quotient (of_uint64 ((b.cycles + 2 ^ 64 - a.cycles) % 2 ^ 64)) (of_uint64 (c.end - c.start))

  -- The frequency after the call, which is kept where there is one
  unfoldable pub tsc_initialise : Platform → D → Calibration → Result D
  tsc_initialise platform freq c =
      let calibrated : Result D =
        is_moved (rdtscp_at platform c.before) (rdtscp_at platform c.later) >>= λ other.
        if other
        then throw not_pinned
        else ok (frequency_of c (rdtscp_at platform c.before) (rdtscp_at platform c.later)) in
      if not (is_zero freq) then ok freq else calibrated

  -- Clock::Initialise and Clock::Now by the build: with NDEBUG or without, and the platform
  unfoldable pub initialise : Bool → Platform → D → Calibration → Result D
  unfolding tsc_initialise
  initialise debug win32 freq c = ok freq
  initialise true platform freq c = ok freq
  initialise false platform freq c = tsc_initialise platform freq c

  unfoldable pub now : Bool → Platform → D → ℕ → Registers → Result ℤ
  unfolding tsc_from_cycles rdtscp
  now debug win32 freq steady r = ok (pos steady)
  now true platform freq steady r = ok (pos steady)
  now false platform freq steady r = tsc_from_cycles freq (rdtscp platform r)
