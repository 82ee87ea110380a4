-- ===== src/Core/EventLoop/Keeps.antt =====
-- Timers whose callback keeps an invariant of the program's state.
use dmx_enttec_node.Prelude.{
  ℕ, ◌-◌, ◌≡◌, refl, ltb, Option, none, some, ok, Bool-cases, inl, inr, given,
}
use dmx_enttec_node.Core.Timer.{Timer, Callback, poll}

module _ {S : Type 0} (P : S → Type 0) where
  -- In a state with the invariant, the callback returns, and the invariant holds after it.
  abbrev pub Keeps : Callback S → Type 0
  Keeps callback = (s : S) → P s → (s' : S) × (callback s ≡ ok s') × P s'

  abbrev pub MayKeep : Option (Callback S) → Type 0
  MayKeep none = Unit {0}
  MayKeep (some callback) = Keeps callback

  parts-Keeps :
      (now interval last_call : ℕ) (callback : Option (Callback S)) (s : S)
      → MayKeep callback
      → P s
      → let t : Timer S = record {
        interval = interval;
        callback = callback;
        last_call = last_call;
      } in
        (t' : Timer S) × (s' : S) × (poll now t s ≡ ok (t', s')) × (t'.callback ≡ callback) × P s'
  unfolding poll
  parts-Keeps now interval last_call none s keep p =
      let t : Timer S = record { interval = interval; callback = none; last_call = last_call } in
      elim (Bool-cases (ltb interval (now - last_call))) [
        | inr early ↦ (t, s, rw (early, poll) refl, refl, p)
        | inl due ↦ (t, s, rw (due, poll) refl, refl, p)
      ]
  parts-Keeps now interval last_call (some callback) s keep p =
      let t : Timer S = record {
        interval = interval;
        callback = some callback;
        last_call = last_call;
      } in
      elim (Bool-cases (ltb interval (now - last_call))) [
        | inr early ↦ (t, s, rw (early, poll) refl, refl, p)
        | inl due ↦ given (keep s p) (λ (s', e, p'). (
          record { interval = interval; callback = some callback; last_call = now },
          s',
          rw (due, e, poll) refl,
          refl,
          p',
        ))
      ]

  pub poll-Keeps :
      (now : ℕ) (t : Timer S) (s : S)
      → MayKeep t.callback
      → P s
      → (t' : Timer S) × (s' : S) × (poll now t s ≡ ok (t', s')) × (t'.callback ≡ t.callback) × P s'
  poll-Keeps now t s keep p = parts-Keeps now t.interval t.last_call t.callback s keep p
