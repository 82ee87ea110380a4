-- ===== src/Tests/Runtime.antt =====
-- The timers, the event loop, the handles and the log level.
use dmx_enttec_node.Prelude.{ℕ, ◌+◌, ◌*◌, ◌≤◌, ◌≡◌, refl, List, [], ◌∷◌, some, ok}
use dmx_enttec_node.Core.Timer
use dmx_enttec_node.Core.Timer.{Timer, poll, polls}
use dmx_enttec_node.Core.Timer.Rate.{tick, polls-rate}
use dmx_enttec_node.Core.ScopedHandler.{
  dead, Store, Action, construct, move_assign, destroy, acts, act, free, at_exit,
}
use dmx_enttec_node.Core.ScopedHandler.Once.{total, made, acts-total}

abbrev timer : ℕ → Timer ℕ
timer last_call = record { interval = 15; callback = some tick; last_call = last_call }

three_polls : polls (10 ∷ 20 ∷ 40 ∷ []) (timer 0) 0 ≡ ok (timer 40, 2)
unfolding polls poll Timer.should_run
three_polls = refl

polls-rate_example : 2 * 16 + 0 ≤ 0 * 16 + 40
polls-rate_example = polls-rate (10 ∷ 20 ∷ 40 ∷ []) (timer 0) (timer 40) 0 2 refl three_polls

one_poll : poll 20 (timer 0) 5 ≡ ok (timer 20, 6)
unfolding poll Timer.should_run
one_poll = refl

abbrev no_handles : Store
no_handles = record { places = dead ∷ dead ∷ []; ran = [] }

abbrev moved : List Action
moved = construct 0 (some 3) ∷ construct 1 (some 4) ∷ move_assign 0 1 ∷ destroy 1 ∷ destroy 0 ∷ []

abbrev after : Store
after = record { places = dead ∷ dead ∷ []; ran = 3 ∷ 4 ∷ [] }

moved-after : acts moved no_handles ≡ ok after
unfolding acts act free at_exit
moved-after = refl

acts-total_example : total 3 after ≡ total 3 no_handles + made 3 moved
acts-total_example = acts-total 3 moved no_handles after moved-after
