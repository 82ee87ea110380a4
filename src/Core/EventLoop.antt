-- ===== src/Core/EventLoop.antt =====
-- libs/core/event_loop.cc: posted callbacks and timers. A round of the loop reads the clock once.
-- Callbacks do not post callbacks or add timers themselves while the loop goes through its vectors;
-- the program's do not.
pub mod Posted
pub mod Waits
pub mod Timers
pub mod Keeps
pub mod Turns
pub mod Simulates
pub mod Simulated
use dmx_enttec_node.Prelude.{
  ℕ, suc, ◌+◌, Bool, true, false, ltb, ◌==◌, Option, none, some, Result, ok, fault, ◌>>=◌,
  if◌then◌else◌, List, [], ◌∷◌, ◌++◌,
}
use dmx_enttec_node.Core.Timer.{Timer, Callback, start, poll}
use dmx_enttec_node.Core.Timer

-- A `unique_ptr<Timer>` is known by its address.
pub record Entry (S : Type 0) : Type 0 where
  pub address : ℕ
  pub timer : Timer S

pub record EventLoop (S : Type 0) : Type 0 where
  pub callbacks : List (ℕ × Callback S)
  pub timers : List (Entry S)

module _ {S : Type 0} where
  unfoldable pub post : ℕ → ℕ → Callback S → EventLoop S → EventLoop S
  post now duration callback l = record l {
    callbacks = l.callbacks ++ (now + duration, callback) ∷ [];
  }

  -- `address` is where the new timer is allocated. The handle that the program gets erases it.
  unfoldable pub add_timer : ℕ → ℕ → Callback S → ℕ → EventLoop S → EventLoop S
  add_timer now interval callback address l = record l {
    timers =
        l.timers
        ++ record { address = address; timer = start (Timer.create interval) callback now } ∷ [];
  }

  unfoldable pub add_poller : ℕ → Callback S → ℕ → EventLoop S → EventLoop S
  add_poller now callback address l = add_timer now 0 callback address l

  -- `erase(find_if(…))`: erasing the end of the vector is undefined.
  unfoldable pub erase : ℕ → List (Entry S) → Result (List (Entry S))
  erase address [] = fault
  erase address (e ∷ es) =
      let rest = erase address es in
      if e.address == address then ok es else (rest >>= λ es'. ok (e ∷ es'))

  unfoldable pub release : ℕ → EventLoop S → Result (EventLoop S)
  release address l = erase address l.timers >>= λ ts. ok (record l { timers = ts })

  -- `erase(remove_if(…))`: the callbacks whose time has passed run in order, and the others stay.
  unfoldable pub expire : ℕ → List (ℕ × Callback S) → S → Result (List (ℕ × Callback S) × S)
  expire now [] s = ok ([], s)
  expire now ((ts, cb) ∷ cs) s = elim (ltb ts now) [
    | true ↦ (cb s >>= expire now cs)
    | false ↦ (expire now cs s >>= λ (cs', s'). ok ((ts, cb) ∷ cs', s'))
  ]

  unfoldable pub poll_timers : ℕ → List (Entry S) → S → Result (List (Entry S) × S)
  poll_timers now [] s = ok ([], s)
  poll_timers now (e ∷ es) s = poll now e.timer s >>= λ (t, s').
      poll_timers now es s' >>= λ (es', s''). ok (record e { timer = t } ∷ es', s'')

  unfoldable pub run_round : ℕ → EventLoop S → S → Result (EventLoop S × S)
  run_round now l s = expire now l.callbacks s >>= λ (cs, s').
      poll_timers now l.timers s' >>= λ (ts, s''). ok (record { callbacks = cs; timers = ts }, s'')

  -- `Run`, as far as the clock readings go; it ends otherwise by an exception only.
  unfoldable pub run : List ℕ → EventLoop S → S → Result (EventLoop S × S)
  run [] l s = ok (l, s)
  run (now ∷ times) l s = run_round now l s >>= λ (l', s'). run times l' s'
