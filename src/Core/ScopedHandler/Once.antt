-- ===== src/Core/ScopedHandler/Once.antt =====
-- No callback is lost and none runs twice.
use dmx_enttec_node.Prelude.{
  ℕ, suc, zero, ◌+◌, ◌≡◌, refl, ◌==◌, if◌then◌else◌, List, [], ◌∷◌, ◌++◌, Option, none, some,
  get_elem?, set, ok, ◌>>=◌, >>=-eq-ok, arith,
}
use dmx_enttec_node.Core.ScopedHandler.{
  Place, dead, live, Store, Action, construct, move_construct, move_assign, destroy, put, call, act,
  acts, at_exit, free,
}

-- How often callback `k` stands in a handle, in all of them, in a list of runs, and how often a
-- handle is made with it
abbrev pub holds : ℕ → Option ℕ → ℕ
holds k none = 0
holds k (some f) = if f == k then 1 else 0

abbrev pub holds_at : ℕ → Place → ℕ
holds_at k dead = 0
holds_at k (live f) = holds k f

abbrev pub held : ℕ → List Place → ℕ
held k [] = 0
held k (p ∷ ps) = holds_at k p + held k ps

abbrev pub runs : ℕ → List ℕ → ℕ
runs k [] = 0
runs k (f ∷ fs) = holds k (some f) + runs k fs

abbrev pub made : ℕ → List Action → ℕ
made k [] = 0
made k (construct i f ∷ as') = holds k f + made k as'
made k (_ ∷ as') = made k as'

held-set :
    (k i : ℕ) (ps : List Place) (p q : Place)
    → get_elem? ps i ≡ some p
    → held k (set ps i q) + holds_at k p ≡ held k ps + holds_at k q
held-set k i [] p q e = cc
held-set k zero (x ∷ ps) p q e = ground arith
held-set k (suc i) (x ∷ ps) p q e = omega (arith, held-set k i ps p q e)

runs-append : (k f : ℕ) (fs : List ℕ) → runs k (fs ++ f ∷ []) ≡ runs k fs + holds k (some f)
runs-append k f [] = omega arith
runs-append k f (x ∷ fs) = omega (arith, runs-append k f fs)

-- Everything there is of callback `k`
abbrev pub total : ℕ → Store → ℕ
total k st = held k st.places + runs k st.ran

total-call : (k : ℕ) (f : Option ℕ) (st : Store) → total k (call f st) ≡ total k st + holds k f
total-call k none st = omega arith
total-call k (some f) st = omega (arith, runs-append k f st.ran)

at_exit-ok :
    (st : Store) (i : ℕ) {f : Option ℕ}
    → at_exit st i ≡ ok f
    → get_elem? st.places i ≡ some (live f)
unfolding at_exit
at_exit-ok st i e = ground arith

free-ok : (st : Store) (i : ℕ) → free st i ≡ ok tt → get_elem? st.places i ≡ some dead
unfolding free
free-ok st i e = ground arith

-- Putting `q` at a place that holds `p`
total-put :
    (k i : ℕ) (st : Store) (p q : Place)
    → get_elem? st.places i ≡ some p
    → total k (put st i q) + holds_at k p ≡ total k st + holds_at k q
total-put k i st p q e = omega (arith, held-set k i st.places p q e)

get_elem?-set :
    (ps : List Place) (i j : ℕ) (p q : Place)
    → get_elem? ps i ≡ some p
    → get_elem? (set ps i q) j ≡ (if i == j then some q else get_elem? ps j)
get_elem?-set [] i j p q e = cc
get_elem?-set (x ∷ ps) zero zero p q e = refl
get_elem?-set (x ∷ ps) zero (suc j) p q e = ground arith
get_elem?-set (x ∷ ps) (suc i) zero p q e = ground arith
get_elem?-set (x ∷ ps) (suc i) (suc j) p q e = ground (arith, get_elem?-set ps i j p q e)

-- The move constructor: the callback changes places.
total-move :
    (k i j : ℕ) (st : Store) (f : Option ℕ)
    → get_elem? st.places i ≡ some dead
    → get_elem? st.places j ≡ some (live f)
    → total k (put (put st i (live f)) j (live none)) ≡ total k st
total-move k i j st f ei ej =
    let there : get_elem? (set st.places i (live f)) j ≡ some (live f) =
      ground (arith, get_elem?-set st.places i j dead (live f) ei) in
    omega (
      arith,
      total-put k i st dead (live f) ei,
      total-put k j (put st i (live f)) (live f) (live none) there,
    )

-- The move assignment: the old callback runs, and the other one changes places.
total-assign :
    (k i j : ℕ) (st : Store) (f g : Option ℕ)
    → get_elem? st.places i ≡ some (live f)
    → get_elem? (set st.places i (live none)) j ≡ some (live g)
    → total k (put (put (put (call f st) i (live none)) j (live none)) i (live g)) ≡ total k st
total-assign k i j st f g ei ej =
    let st1 = put (call f st) i (live none) in
    let st2 = put st1 j (live none) in
    let there : get_elem? st2.places i ≡ some (live none) = ground (
      arith,
      get_elem?-set st.places i i (live f) (live none) ei,
      get_elem?-set (set st.places i (live none)) j i (live g) (live none) ej,
    ) in
    omega (
      arith,
      total-call k f st,
      total-put k i (call f st) (live f) (live none) ei,
      total-put k j st1 (live g) (live none) ej,
      total-put k i st2 (live none) (live g) there,
    )

-- One action adds what it makes to the total, and takes nothing from it.
act-total :
    (k : ℕ) (a : Action) (st st' : Store)
    → act a st ≡ ok st'
    → total k st' ≡ total k st + made k (a ∷ [])
unfolding act
act-total k (construct i f) st st' e =
    let (u, e1, e2) = >>=-eq-ok (free st i) (λ _. ok (put st i (live f))) e in
    ground (arith, total-put k i st dead (live f) (free-ok st i e1))
act-total k (move_construct i j) st st' e =
    let (u, e1, e2) =
      >>=-eq-ok (free st i) (λ _. at_exit st j >>= λ f. ok (put (put st i (live f)) j (live none)))
        e in
    let (f, e3, e4) =
      >>=-eq-ok (at_exit st j) (λ f. ok (put (put st i (live f)) j (live none))) e2 in
    ground (arith, total-move k i j st f (free-ok st i e1) (at_exit-ok st j e3))
act-total k (move_assign i j) st st' e =
    let (f, e1, e2) = >>=-eq-ok (at_exit st i) _ e in
    let st1 = put (call f st) i (live none) in
    let (g, e3, e4) =
      >>=-eq-ok (at_exit st1 j) (λ g. ok (put (put st1 j (live none)) i (live g))) e2 in
    ground (arith, total-assign k i j st f g (at_exit-ok st i e1) (at_exit-ok st1 j e3))
act-total k (destroy i) st st' e =
    let (f, e1, e2) = >>=-eq-ok (at_exit st i) (λ f. ok (put (call f st) i dead)) e in
    ground (arith, total-call k f st, total-put k i (call f st) (live f) dead (at_exit-ok st i e1))

made-cons :
    (k : ℕ) (a : Action) (as' : List Action) → made k (a ∷ as') ≡ made k (a ∷ []) + made k as'
made-cons k (construct i f) as' = omega arith
made-cons k (move_construct i j) as' = omega arith
made-cons k (move_assign i j) as' = omega arith
made-cons k (destroy i) as' = omega arith

-- Over any sequence of actions that use live objects only, each callback stands in as many handles,
-- or has run as often, as handles were made with it: none is lost, and none runs twice.
pub acts-total :
    (k : ℕ) (as' : List Action) (st st' : Store)
    → acts as' st ≡ ok st'
    → total k st' ≡ total k st + made k as'
unfolding acts
acts-total k [] st st' e = ground arith
acts-total k (a ∷ as') st st' e =
    let (st1, e1, e2) = >>=-eq-ok (act a st) (acts as') e in
    omega (arith, act-total k a st st1 e1, acts-total k as' st1 st' e2, made-cons k a as')
