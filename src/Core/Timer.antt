-- ===== src/Core/Timer.antt =====
-- libs/core/timer.h: a callback that is due once more than an interval has passed.
pub mod Rate
use dmx_enttec_node.Prelude.{
  ℕ, ◌-◌, Bool, true, false, ltb, Option, none, some, Result, ok, ◌>>=◌, if◌then◌else◌, List, [],
  ◌∷◌,
}

-- A callback works on the state `S` of the program and may throw.
abbrev pub Callback : Type 0 → Type 0
Callback S = S → Result S

-- Times are nanoseconds of a steady clock. No interval is negative, so a difference that stops at 0
-- gives the same test as a signed one.
pub record Timer (S : Type 0) : Type 0 where
  pub interval : ℕ
  pub callback : Option (Callback S)
  pub last_call : ℕ

module _ {S : Type 0} where
  unfoldable pub create : ℕ → Timer S
  create interval = record { interval = interval; callback = none; last_call = 0 }

  unfoldable pub start : Timer S → Callback S → ℕ → Timer S
  start t callback now = record t { callback = some callback; last_call = now }

  unfoldable pub stop : Timer S → Timer S
  stop t = record t { callback = none }

  -- The callback to run, if it should run now
  unfoldable pub should_run : Timer S → ℕ → Option (Callback S)
  should_run t now = if ltb t.interval (now - t.last_call) then t.callback else none

  unfoldable pub poll : ℕ → Timer S → S → Result (Timer S × S)
  unfolding should_run
  poll now t s = elim (should_run t now) [
    | none ↦ ok (t, s)
    | some callback ↦ callback s >>= λ s'. ok (record t { last_call = now }, s')
  ]

  -- Polls at one time after another
  unfoldable pub polls : List ℕ → Timer S → S → Result (Timer S × S)
  polls [] t s = ok (t, s)
  polls (now ∷ times) t s = poll now t s >>= λ (t', s'). polls times t' s'
