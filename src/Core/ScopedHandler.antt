-- ===== src/Core/ScopedHandler.antt =====
-- libs/core/scoped_handler.h: a handle that runs a callback when it is destroyed, and that can be
-- moved but not copied. The handles of a program stand in numbered places; what each runs is
-- recorded in the order of the runs.
pub mod Once
use dmx_enttec_node.Prelude.{
  ℕ, Option, none, some, Result, ok, fault, or_fault, ◌>>=◌, ◌>>◌, List, [], ◌∷◌, ◌++◌, get_elem?,
  set,
}

-- A place without an object, or the `mAtExit` of one, which may be empty
pub data Place : Type 0 where
  dead : Place
  live : Option ℕ → Place

pub record Store : Type 0 where
  pub places : List Place
  pub ran : List ℕ

-- The constructors, the destructor and the assignment, at their places
pub data Action : Type 0 where
  construct : ℕ → Option ℕ → Action
  move_construct : ℕ → ℕ → Action
  move_assign : ℕ → ℕ → Action
  destroy : ℕ → Action

abbrev pub put : Store → ℕ → Place → Store
put st i p = record st { places = set st.places i p }

-- Objects live in known places; any other use of one is undefined.
abbrev pub need_live : Place → Result (Option ℕ)
need_live dead = fault
need_live (live o) = ok o

abbrev pub need_dead : Place → Result (Unit {0})
need_dead dead = ok tt
need_dead (live o) = fault

unfoldable pub at_exit : Store → ℕ → Result (Option ℕ)
at_exit st i = or_fault (get_elem? st.places i) >>= need_live

unfoldable pub free : Store → ℕ → Result (Unit {0})
free st i = or_fault (get_elem? st.places i) >>= need_dead

-- `if (mAtExit) { mAtExit(); }`
abbrev pub call : Option ℕ → Store → Store
call f st = record st { ran = elim f [ none ↦ st.ran | some g ↦ st.ran ++ g ∷ [] ] }

unfoldable pub act : Action → Store → Result Store
act (construct i f) st = do free st i; ok (put st i (live f))
act (move_construct i j) st = do
  free st i
  f ← at_exit st j
  ok (put (put st i (live f)) j (live none))
act (move_assign i j) st = do
  f ← at_exit st i
  let st' = put (call f st) i (live none)
  g ← at_exit st' j
  ok (put (put st' j (live none)) i (live g))
act (destroy i) st = do f ← at_exit st i; ok (put (call f st) i dead)

unfoldable pub acts : List Action → Store → Result Store
acts [] st = ok st
acts (a ∷ rest) st = act a st >>= acts rest
