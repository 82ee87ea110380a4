-- ===== src/Core/EventLoop/Waits.antt =====
-- A posted callback over the rounds of the loop.
use dmx_enttec_node.Prelude.{
  ℕ, ◌≤◌, ◌<◌, ◌≡◌, refl, List, [], ◌∷◌, ◌++◌, false, ltb, lt→ltb, Result, ok, ◌>>=◌, >>=-ext,
  >>=-assoc, sym, ◌∙◌, arith,
}
use dmx_enttec_node.Core.Timer.{Callback}
use dmx_enttec_node.Core.EventLoop.{Entry, EventLoop, expire, poll_timers, run_round, run}

-- Every round is at the time `d` or before.
abbrev pub Until : ℕ → List ℕ → Type 0
Until d [] = Unit
Until d (now ∷ times) = (now ≤ d) × Until d times

ok-pair {ℓ κ} : {A : Type ℓ} {B : Type κ} (r : Result (A × B)) → (r >>= λ x. ok (x.0, x.1)) ≡ r
ok-pair Result.fault = refl
ok-pair (Result.throw e) = refl
ok-pair (ok x) = refl

module _ {S : Type 0} where
  -- Rounds of the timers alone
  abbrev pub poll_all : List ℕ → List (Entry S) → S → Result (List (Entry S) × S)
  poll_all [] es s = ok (es, s)
  poll_all (now ∷ times) es s = poll_timers now es s >>= λ (es', s'). poll_all times es' s'

  -- A round whose callback has ended in a result: the timers, with nothing posted any more
  abbrev pub goes_on : ℕ → Result S → List (Entry S) → Result (EventLoop S × S)
  goes_on later called es = called >>= λ s'.
      poll_timers later es s' >>= λ (es', s''). ok (record { callbacks = []; timers = es' }, s'')

  round-due :
      (d later : ℕ) (callback : Callback S) (es : List (Entry S)) (s : S)
      → d < later
      → run_round later (record { callbacks = (d, callback) ∷ []; timers = es }) s
        ≡ goes_on later (callback s) es
  unfolding run_round expire
  round-due d later callback es s past =
      rw (lt→ltb d later past, expire) (>>=-assoc (callback s) _ _)

  round-early :
      (d now : ℕ) (callback : Callback S) (es : List (Entry S)) (s : S)
      → now ≤ d
      → run_round now (record { callbacks = (d, callback) ∷ []; timers = es }) s ≡ (
          poll_timers now es s >>= λ (es', s').
          ok (record { callbacks = (d, callback) ∷ []; timers = es' }, s'))
  unfolding run_round expire
  round-early d now callback es s early = rw (early_test, expire)
    where
      early_test : ltb d now ≡ false
      early_test = ground arith

  -- A callback that is posted alone does nothing in the rounds up to its time; in the first round
  -- after it, it runs once before the timers, and is gone.
  pub run-posted :
      (d later : ℕ) (callback : Callback S) (times : List ℕ) (es : List (Entry S)) (s : S)
      → Until d times
      → d < later
      → run (times ++ later ∷ []) (record { callbacks = (d, callback) ∷ []; timers = es }) s
        ≡ (poll_all times es s >>= λ (es', s'). goes_on later (callback s') es')
  unfolding run
  run-posted d later callback [] es s waits past =
      ok-pair (run_round later (record { callbacks = (d, callback) ∷ []; timers = es }) s)
      ∙ round-due d later callback es s past
  run-posted d later callback (now ∷ times) es s waits past =
      rw (round-early d now callback es s waits.0) (
        >>=-assoc (poll_timers now es s) _ _
        ∙ >>=-ext (poll_timers now es s) _ _
            (λ x. run-posted d later callback times x.0 x.1 waits.1 past)
        ∙ sym (>>=-assoc (poll_timers now es s) _ _))
