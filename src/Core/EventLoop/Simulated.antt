-- ===== src/Core/EventLoop/Simulated.antt =====
-- The rounds of an event loop that simulates another.
use dmx_enttec_node.Prelude.{ℕ, ◌≡◌, refl, List, [], ◌∷◌, ok, given}
use dmx_enttec_node.Core.EventLoop.{EventLoop, run_round, run}
use dmx_enttec_node.Core.EventLoop.Simulates.{
  LoopSimulates, poll_timers-Simulates, expire-Simulates,
}

module _ {S T : Type 0} (R : S → T → Type 0) where
  pub run_round-Simulates :
      (now : ℕ) (l : EventLoop S) (m : EventLoop T) (s : S) (t : T)
      → LoopSimulates R l m
      → R s t
      → (l' : EventLoop S) × (m' : EventLoop T) × (s' : S) × (t' : T) × (run_round now l s
          ≡ ok (l', s'))
        × (run_round now m t ≡ ok (m', t'))
        × LoopSimulates R l' m'
        × R s' t'
  unfolding run_round
  run_round-Simulates now l m s t sim r =
      given (expire-Simulates R now l.callbacks m.callbacks s t sim.posted r)
        (λ (cs, ds, s1, t1, e1, f1, posted, r1).
          given (poll_timers-Simulates R now l.timers m.timers s1 t1 sim.timed r1)
            (λ (es, fs, s2, t2, e2, f2, timed, r2). (
              record { callbacks = cs; timers = es },
              record { callbacks = ds; timers = fs },
              s2,
              t2,
              rw (e1, e2, run_round) refl,
              rw (f1, f2, run_round) refl,
              record { posted = posted; timed = timed },
              r2,
            )))

  -- Over any clock readings both loops return, and end in related states.
  pub run-Simulates :
      (times : List ℕ) (l : EventLoop S) (m : EventLoop T) (s : S) (t : T)
      → LoopSimulates R l m
      → R s t
      → (l' : EventLoop S) × (m' : EventLoop T) × (s' : S) × (t' : T) × (run times l s
          ≡ ok (l', s'))
        × (run times m t ≡ ok (m', t'))
        × LoopSimulates R l' m'
        × R s' t'
  unfolding run
  run-Simulates [] l m s t sim r = (l, m, s, t, refl, refl, sim, r)
  run-Simulates (now ∷ times) l m s t sim r =
      given (run_round-Simulates now l m s t sim r) (λ (l1, m1, s1, t1, e1, f1, sim1, r1).
        given (run-Simulates times l1 m1 s1 t1 sim1 r1) (λ (l2, m2, s2, t2, e2, f2, sim2, r2).
          (l2, m2, s2, t2, rw (e1, run) e2, rw (f1, run) f2, sim2, r2)))
