-- ===== src/Core/EventLoop/Timers.antt =====
-- The handle of a timer: releasing it takes that timer out, and no other.
use dmx_enttec_node.Prelude.{ℕ, ◌≡◌, ◌≢◌, refl, List, [], ◌∷◌, ◌++◌, ok, ◌>>=◌, arith}
use dmx_enttec_node.Core.Timer
use dmx_enttec_node.Core.Timer.{Callback, start}
use dmx_enttec_node.Core.EventLoop.{EventLoop, Entry, add_timer, erase, release}

module _ {S : Type 0} where
  -- No timer stands at the address.
  abbrev pub IsFree : ℕ → List (Entry S) → Type 0
  IsFree address [] = Unit {0}
  IsFree address (e ∷ es) = (e.address ≢ address) × IsFree address es

  erase-last :
      (address : ℕ) (es : List (Entry S)) (e : Entry S)
      → IsFree address es
      → e.address ≡ address
      → erase address (es ++ e ∷ []) ≡ ok es
  unfolding erase
  erase-last address [] e h p = ground arith
  erase-last address (x ∷ es) e h p = ground (arith, erase-last address es e h.1 p)

  -- Adding a timer at a free address and releasing its handle leaves the loop as it was.
  release-add_timer :
      (l : EventLoop S) (now interval address : ℕ) (callback : Callback S)
      → IsFree address l.timers
      → release address (add_timer now interval callback address l) ≡ ok l
  unfolding release add_timer
  release-add_timer l now interval address callback h =
      let e : Entry S = record {
        address = address;
        timer = start (Timer.create interval) callback now;
      } in
      rw (erase-last address l.timers e h refl, ◌>>=◌)
