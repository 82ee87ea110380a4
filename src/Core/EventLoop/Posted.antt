-- ===== src/Core/EventLoop/Posted.antt =====
-- Posted callbacks: each runs once, in the order of posting, in the first round after its time.
use dmx_enttec_node.Prelude.{
  ℕ, ◌+◌, ◌≡◌, refl, List, [], ◌∷◌, ◌++◌, ltb, Result, ok, ◌>>=◌, if◌then◌else◌, Bool-cases, inl,
  inr, >>=-ext, >>=-assoc, sym, ap, ◌∙◌, append-nil,
}
use dmx_enttec_node.Core.Timer.{Callback}
use dmx_enttec_node.Core.EventLoop.{EventLoop, post, expire}

module _ {S : Type 0} where
  -- The callbacks whose time has passed, and those whose time has not
  abbrev pub due : ℕ → List (ℕ × Callback S) → List (Callback S)
  due now [] = []
  due now ((ts, cb) ∷ cs) = if ltb ts now then cb ∷ due now cs else due now cs

  abbrev pub pending : ℕ → List (ℕ × Callback S) → List (ℕ × Callback S)
  pending now [] = []
  pending now ((ts, cb) ∷ cs) = if ltb ts now then pending now cs else (ts, cb) ∷ pending now cs

  -- One callback after the other
  abbrev pub run_all : List (Callback S) → S → Result S
  run_all [] s = ok s
  run_all (cb ∷ cbs) s = cb s >>= run_all cbs

  -- A round runs exactly the due callbacks, in order, and keeps exactly the others, in order; an
  -- exception in one of them ends it.
  pub expire_lem :
      (now : ℕ) (cs : List (ℕ × Callback S)) (s : S)
      → expire now cs s ≡ (run_all (due now cs) s >>= λ s'. ok (pending now cs, s'))
  unfolding expire
  expire_lem now [] s = refl
  expire_lem now ((ts, cb) ∷ cs) s = elim (Bool-cases (ltb ts now)) [
    | inl past ↦
        rw (past, expire)
          (>>=-ext (cb s) (expire now cs) _ (expire_lem now cs)
            ∙ sym (>>=-assoc (cb s) (run_all (due now cs)) (λ s'. ok (pending now cs, s'))))
    | inr future ↦
        rw (future, expire, expire_lem now cs s)
          (>>=-assoc (run_all (due now cs) s) (λ s'. ok (pending now cs, s')) _)
  ]

  due-append :
      (now : ℕ) (cs ds : List (ℕ × Callback S)) → due now (cs ++ ds) ≡ due now cs ++ due now ds
  due-append now [] ds = refl
  due-append now ((ts, cb) ∷ cs) ds = elim (Bool-cases (ltb ts now)) [
    | inl past ↦ rw (past, due-append now cs ds)
    | inr future ↦ rw (future, due-append now cs ds)
  ]

  pending-append :
      (now : ℕ) (cs ds : List (ℕ × Callback S))
      → pending now (cs ++ ds) ≡ pending now cs ++ pending now ds
  pending-append now [] ds = refl
  pending-append now ((ts, cb) ∷ cs) ds = elim (Bool-cases (ltb ts now)) [
    | inl past ↦ rw (past, pending-append now cs ds)
    | inr future ↦ rw (future, pending-append now cs ds)
  ]

  run_all-append :
      (xs ys : List (Callback S)) (s : S) → run_all (xs ++ ys) s ≡ (run_all xs s >>= run_all ys)
  run_all-append [] ys s = refl
  run_all-append (x ∷ xs) ys s =
      >>=-ext (x s) (run_all (xs ++ ys)) _ (run_all-append xs ys)
      ∙ sym (>>=-assoc (x s) (run_all xs) (run_all ys))

  >>=-ok : (r : Result S) → (r >>= ok) ≡ r
  >>=-ok Result.fault = refl
  >>=-ok (Result.throw e) = refl
  >>=-ok (ok s) = refl

  -- A callback that is posted last runs last, in a round after its time, and stays last before.
  pub expire-post :
      (now duration later : ℕ) (callback : Callback S) (l : EventLoop S) (s : S)
      → expire later (post now duration callback l).callbacks s ≡ (
          run_all (due later l.callbacks) s >>= λ s'.
          if ltb (now + duration) later
          then (callback s' >>= λ s''. ok (pending later l.callbacks, s''))
          else ok (pending later l.callbacks ++ (now + duration, callback) ∷ [], s'))
  unfolding post
  expire-post now duration later callback l s = elim (Bool-cases (ltb (now + duration) later)) [
    | inl past ↦
        rw
          (
            expire_lem later (l.callbacks ++ (now + duration, callback) ∷ []) s,
            due-append later l.callbacks ((now + duration, callback) ∷ []),
            pending-append later l.callbacks ((now + duration, callback) ∷ []),
            past,
            append-nil (pending later l.callbacks),
            run_all-append (due later l.callbacks) (callback ∷ []) s,
          )
          (>>=-assoc (run_all (due later l.callbacks) s) _ _
            ∙ >>=-ext (run_all (due later l.callbacks) s) _ _ (λ s'.
              ap (λ r. r >>= λ s''. ok (pending later l.callbacks, s'')) (>>=-ok (callback s'))))
    | inr future ↦
        rw
          (
            expire_lem later (l.callbacks ++ (now + duration, callback) ∷ []) s,
            due-append later l.callbacks ((now + duration, callback) ∷ []),
            pending-append later l.callbacks ((now + duration, callback) ∷ []),
            future,
            append-nil (due later l.callbacks),
          )
          refl
  ]
