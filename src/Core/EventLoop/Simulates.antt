-- ===== src/Core/EventLoop/Simulates.antt =====
-- Two event loops with the same times whose callbacks simulate one another.
use dmx_enttec_node.Prelude.{
  ℕ, ◌-◌, ◌≡◌, refl, sym, ap₂, ◌∙◌, ltb, List, [], ◌∷◌, Option, none, some, ok, Bool-cases, inl,
  inr, given, true, false,
}
use dmx_enttec_node.Core.Timer.{Timer, Callback, poll}
use dmx_enttec_node.Core.EventLoop.{Entry, EventLoop, expire, poll_timers}

module _ {S T : Type 0} (R : S → T → Type 0) where
  -- From related states on, both callbacks return, and end in related states.
  abbrev pub Simulates : Callback S → Callback T → Type 0
  Simulates f g =
      (s : S) (t : T) → R s t → (s' : S) × (t' : T) × (f s ≡ ok s') × (g t ≡ ok t') × R s' t'

  abbrev pub MaySimulate : Option (Callback S) → Option (Callback T) → Type 0
  MaySimulate none none = Unit {0}
  MaySimulate none (some g) = ⊥
  MaySimulate (some f) none = ⊥
  MaySimulate (some f) (some g) = Simulates f g

  -- Two timers that are due at the same times
  pub record TimerSimulates (a : Timer S) (b : Timer T) : Type 0 where
    pub interval : a.interval ≡ b.interval
    pub last_call : a.last_call ≡ b.last_call
    pub callback : MaySimulate a.callback b.callback

  abbrev pub TimersSimulate : List (Entry S) → List (Entry T) → Type 0
  TimersSimulate [] [] = Unit {0}
  TimersSimulate [] (f ∷ fs) = ⊥
  TimersSimulate (e ∷ es) [] = ⊥
  TimersSimulate (e ∷ es) (f ∷ fs) = TimerSimulates e.timer f.timer × TimersSimulate es fs

  abbrev pub PostedSimulate : List (ℕ × Callback S) → List (ℕ × Callback T) → Type 0
  PostedSimulate [] [] = Unit {0}
  PostedSimulate [] (d ∷ ds) = ⊥
  PostedSimulate (c ∷ cs) [] = ⊥
  PostedSimulate ((ts, f) ∷ cs) ((ts', g) ∷ ds) = (ts ≡ ts') × Simulates f g × PostedSimulate cs ds

  pub record LoopSimulates (l : EventLoop S) (m : EventLoop T) : Type 0 where
    pub posted : PostedSimulate l.callbacks m.callbacks
    pub timed : TimersSimulate l.timers m.timers

  -- What a poll of two such timers comes to
  pub record Polled (now : ℕ) (a : Timer S) (b : Timer T) (s : S) (t : T) : Type 0 where
    pub a' : Timer S
    pub b' : Timer T
    pub s' : S
    pub t' : T
    pub left : poll now a s ≡ ok (a', s')
    pub right : poll now b t ≡ ok (b', t')
    pub timers : TimerSimulates a' b'
    pub states : R s' t'

  parts-Simulates :
      (now i l j m : ℕ) (f : Option (Callback S)) (g : Option (Callback T)) (s : S) (t : T)
      → i ≡ j
      → l ≡ m
      → MaySimulate f g
      → R s t
      → Polled now
          (record { interval = i; callback = f; last_call = l })
          (record { interval = j; callback = g; last_call = m })
          s
          t
  unfolding poll
  parts-Simulates now i l j m none none s t p q sim r =
      let a : Timer S = record { interval = i; callback = none; last_call = l } in
      let b : Timer T = record { interval = j; callback = none; last_call = m } in
      let same : ltb j (now - m) ≡ ltb i (now - l) = ap₂ (λ x y. ltb x (now - y)) (sym p) (sym q) in
      let kept : TimerSimulates a b = record { interval = p; last_call = q; callback = tt } in
      elim (Bool-cases (ltb i (now - l))) [
        | inr early ↦ record {
          a' = a;
          b' = b;
          s' = s;
          t' = t;
          left = rw (early, poll) refl;
          right = rw (same ∙ early, poll) refl;
          timers = kept;
          states = r;
        }
        | inl due ↦ record {
          a' = a;
          b' = b;
          s' = s;
          t' = t;
          left = rw (due, poll) refl;
          right = rw (same ∙ due, poll) refl;
          timers = kept;
          states = r;
        }
      ]
  parts-Simulates now i l j m none (some g) s t p q sim r = absurd sim
  parts-Simulates now i l j m (some f) none s t p q sim r = absurd sim
  parts-Simulates now i l j m (some f) (some g) s t p q sim r =
      let a : Timer S = record { interval = i; callback = some f; last_call = l } in
      let b : Timer T = record { interval = j; callback = some g; last_call = m } in
      let same : ltb j (now - m) ≡ ltb i (now - l) = ap₂ (λ x y. ltb x (now - y)) (sym p) (sym q) in
      elim (Bool-cases (ltb i (now - l))) [
        | inr early ↦ record {
          a' = a;
          b' = b;
          s' = s;
          t' = t;
          left = rw (early, poll) refl;
          right = rw (same ∙ early, poll) refl;
          timers = record { interval = p; last_call = q; callback = sim };
          states = r;
        }
        | inl due ↦ given (sim s t r) (λ (s', t', ef, eg, r'). record {
          a' = record { interval = i; callback = some f; last_call = now };
          b' = record { interval = j; callback = some g; last_call = now };
          s' = s';
          t' = t';
          left = rw (due, ef, poll) refl;
          right = rw (same ∙ due, eg, poll) refl;
          timers = record { interval = p; last_call = refl; callback = sim };
          states = r';
        })
      ]

  poll-Simulates :
      (now : ℕ) (a : Timer S) (b : Timer T) (s : S) (t : T)
      → TimerSimulates a b
      → R s t
      → Polled now a b s t
  poll-Simulates now a b s t sim r =
      parts-Simulates now a.interval a.last_call b.interval b.last_call a.callback b.callback s t
        sim.interval sim.last_call sim.callback r

  pub poll_timers-Simulates :
      (now : ℕ) (es : List (Entry S)) (fs : List (Entry T)) (s : S) (t : T)
      → TimersSimulate es fs
      → R s t
      → (es' : List (Entry S)) × (fs' : List (Entry T)) × (s' : S) × (t' : T) × (poll_timers now es
            s
          ≡ ok (es', s'))
        × (poll_timers now fs t ≡ ok (fs', t'))
        × TimersSimulate es' fs'
        × R s' t'
  unfolding poll_timers
  poll_timers-Simulates now [] [] s t sim r = ([], [], s, t, refl, refl, tt, r)
  poll_timers-Simulates now [] (f ∷ fs) s t sim r = absurd sim
  poll_timers-Simulates now (e ∷ es) [] s t sim r = absurd sim
  poll_timers-Simulates now (e ∷ es) (f ∷ fs) s t (sim, sims) r =
      given (poll-Simulates now e.timer f.timer s t sim r) (λ p.
        given (poll_timers-Simulates now es fs p.s' p.t' sims p.states)
          (λ (es', fs', s2, t2, e2, f2, sims', r2). (
            record e { timer = p.a' } ∷ es',
            record f { timer = p.b' } ∷ fs',
            s2,
            t2,
            rw (p.left, e2, poll_timers) refl,
            rw (p.right, f2, poll_timers) refl,
            (p.timers, sims'),
            r2,
          )))

  pub expire-Simulates :
      (now : ℕ) (cs : List (ℕ × Callback S)) (ds : List (ℕ × Callback T)) (s : S) (t : T)
      → PostedSimulate cs ds
      → R s t
      → (cs' : List (ℕ × Callback S)) × (ds' : List (ℕ × Callback T)) × (s' : S) × (t' : T)
        × (expire now cs s ≡ ok (cs', s'))
        × (expire now ds t ≡ ok (ds', t'))
        × PostedSimulate cs' ds'
        × R s' t'
  unfolding expire
  expire-Simulates now [] [] s t sim r = ([], [], s, t, refl, refl, tt, r)
  expire-Simulates now [] (d ∷ ds) s t sim r = absurd sim
  expire-Simulates now (c ∷ cs) [] s t sim r = absurd sim
  expire-Simulates now ((ts, f) ∷ cs) ((ts', g) ∷ ds) s t (same, sim, sims) r =
      elim (Bool-cases (ltb ts now)) [
        | inl past ↦
            let past' : ltb ts' now ≡ true = rw⁻¹ same past in
            given (sim s t r) (λ (s1, t1, ef, eg, r1).
              given (expire-Simulates now cs ds s1 t1 sims r1)
                (λ (cs', ds', s2, t2, e2, f2, sims', r2). (
                  cs',
                  ds',
                  s2,
                  t2,
                  rw (past, ef, expire) e2,
                  rw (past', eg, expire) f2,
                  sims',
                  r2,
                )))
        | inr future ↦
            let future' : ltb ts' now ≡ false = rw⁻¹ same future in
            given (expire-Simulates now cs ds s t sims r) (λ (cs', ds', s1, t1, e1, f1, sims', r1).
              (
                (ts, f) ∷ cs',
                (ts', g) ∷ ds',
                s1,
                t1,
                rw (future, e1, expire) refl,
                rw (future', f1, expire) refl,
                (same, sim, sims'),
                r1,
              ))
      ]
