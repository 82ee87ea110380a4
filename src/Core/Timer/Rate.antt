-- ===== src/Core/Timer/Rate.antt =====
-- How often a timer runs.
use dmx_enttec_node.Prelude.{
  ℕ, suc, ◌+◌, ◌-◌, ◌*◌, ◌≤◌, ◌<◌, ◌≡◌, List, [], ◌∷◌, some, ok, ◌>>=◌, arith, ltb, Bool-cases, inl,
  inr, ◌⊎◌,
}
use dmx_enttec_node.Core.Timer.{Timer, Callback, poll, polls}

-- A callback that counts its runs
abbrev pub tick : Callback ℕ
tick n = ok (suc n)

-- The two branches of a poll
poll-tick :
    (t : Timer ℕ) (now n : ℕ)
    → t.callback ≡ some tick
    → ((now - t.last_call ≤ t.interval) × (poll now t n ≡ ok (t, n)))
      ⊎ ((t.interval < now - t.last_call)
          × (poll now t n ≡ ok (record t { last_call = now }, suc n)))
unfolding poll
poll-tick t now n c = elim (Bool-cases (ltb t.interval (now - t.last_call))) [
  | inl due ↦ inr (ground arith, ground arith)
  | inr early ↦ inl (ground arith, ground arith)
]

-- Whatever the times of the polls, each run of the callback takes more than one interval: so many
-- runs, so many times `interval + 1` between the first and the last value of `last_call`.
pub polls-rate :
    (times : List ℕ) (t t' : Timer ℕ) (n n' : ℕ)
    → t.callback ≡ some tick
    → polls times t n ≡ ok (t', n')
    → n' * (t.interval + 1) + t.last_call ≤ n * (t.interval + 1) + t'.last_call
unfolding polls
polls-rate [] t t' n n' c e = ground arith
polls-rate (now ∷ times) t t' n n' c e = elim (poll-tick t now n c) [
  | inl (early, p) ↦ polls-rate times t t' n n' c (rw (p, ◌>>=◌) at e)
  | inr (due, p) ↦
      omega (
        arith,
        polls-rate times (record t { last_call = now }) t' (suc n) n' c (rw (p, ◌>>=◌) at e),
      )
]
