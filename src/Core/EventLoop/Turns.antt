-- ===== src/Core/EventLoop/Turns.antt =====
-- One timer after the other in a round.
use dmx_enttec_node.Prelude.{ℕ, ◌-◌, ◌<◌, ◌≡◌, refl, lt→ltb, List, [], ◌∷◌, some, ok, ◌>>=◌, given}
use dmx_enttec_node.Core.Timer
use dmx_enttec_node.Core.Timer.{Timer, Callback, start, poll}
use dmx_enttec_node.Core.EventLoop.{Entry, expire, poll_timers, run_round}
use dmx_enttec_node.Core.EventLoop.Keeps.{Keeps, poll-Keeps}

module _ {S : Type 0} (Q : S → Type 0) (now : ℕ) where
  -- The polls of these timers return, in a state as is asked for.
  pub record Turns (es : List (Entry S)) (s : S) : Type 0 where
    pub es' : List (Entry S)
    pub s' : S
    pub returns : poll_timers now es s ≡ ok (es', s')
    pub ends : Q s'

  pub no_turn : (s : S) → Q s → Turns [] s
  unfolding poll_timers
  no_turn s q = record { es' = []; s' = s; returns = refl; ends = q }

  next_turn :
      (e : Entry S) (es : List (Entry S)) (s s1 : S) (t : Timer S)
      → poll now e.timer s ≡ ok (t, s1)
      → Turns es s1
      → Turns (e ∷ es) s
  unfolding poll_timers
  next_turn e es s s1 t polled turns = record {
    es' = record e { timer = t } ∷ turns.es';
    s' = turns.s';
    returns = rw (polled, turns.returns, poll_timers) refl;
    ends = turns.ends;
  }

  -- A timer that is due runs.
  pub due_turn :
      (interval last_call address : ℕ) (callback : Callback S) (es : List (Entry S)) (s s1 : S)
      → interval < now - last_call
      → callback s ≡ ok s1
      → Turns es s1
      → Turns
          (record { address = address; timer = start (Timer.create interval) callback last_call }
            ∷ es)
          s
  unfolding poll start Timer.create
  due_turn interval last_call address callback es s s1 due runs turns =
      let t : Timer S = start (Timer.create interval) callback last_call in
      next_turn (record { address = address; timer = t }) es s s1
        (record { interval = interval; callback = some callback; last_call = now })
        (rw (lt→ltb interval (now - last_call) due, runs, poll) refl) turns

  -- Whether a timer is due or not, what its callback keeps is kept.
  pub any_turn :
      (P : S → Type 0) (interval last_call address : ℕ) (callback : Callback S)
      (es : List (Entry S)) (s : S)
      → Keeps P callback
      → P s
      → ((s1 : S) → P s1 → Turns es s1)
      → Turns
          (record { address = address; timer = start (Timer.create interval) callback last_call }
            ∷ es)
          s
  unfolding start Timer.create
  any_turn P interval last_call address callback es s keeps p later =
      let t : Timer S = start (Timer.create interval) callback last_call in
      given (poll-Keeps P now t s keeps p) (λ (t', s1, polled, same, p1).
        next_turn (record { address = address; timer = t }) es s s1 t' polled (later s1 p1))

-- A round without posted callbacks
pub round-by :
    {S : Type 0} (now : ℕ) (es es' : List (Entry S)) (s s' : S)
    → poll_timers now es s ≡ ok (es', s')
    → run_round now (record { callbacks = []; timers = es }) s
      ≡ ok (record { callbacks = []; timers = es' }, s')
unfolding run_round expire
round-by now es es' s s' e = rw (e, ◌>>=◌) refl
