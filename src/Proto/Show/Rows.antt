-- ===== src/Proto/Show/Rows.antt =====
-- The text of a table is its rows, one after the other.
use Prim.Native.String.{String, ◌++◌ as str_append}
use text.Mathlib.TextLemmas.{append-nil, append_assoc}
use dmx_enttec_node.Prelude.{
  ℕ, zero, suc, ◌+◌, ◌≡◌, refl, sym, ◌∙◌, List, [], ◌∷◌, take, drop, get_elem?, drop-add, none,
  some, Option-cases, inl, inr, arith,
}
use dmx_enttec_node.Proto.Show.{print_row, print_rows, hex_to_string}

module _ {A : Type 0} (print : A → String) where
  -- The texts of the elements
  abbrev pub texts : List A → String
  texts [] = ""
  texts (x ∷ xs) = str_append (print x) (texts xs)

  -- `n` rows, each of the next `width` elements and a line feed
  abbrev pub lines : ℕ → ℕ → List A → String
  lines zero width xs = ""
  lines (suc n) width xs =
      str_append (str_append (texts (take width xs)) "\n") (lines n width (drop width xs))

  drop-none : (i : ℕ) (xs : List A) → get_elem? xs i ≡ none → drop i xs ≡ []
  drop-none zero [] e = refl
  drop-none (suc i) [] e = refl
  drop-none zero (x ∷ xs) e = cc
  drop-none (suc i) (x ∷ xs) e = drop-none i xs e

  drop-some :
      (i : ℕ) (xs : List A) (x : A) → get_elem? xs i ≡ some x → drop i xs ≡ x ∷ drop (suc i) xs
  drop-some i [] x e = cc
  drop-some zero (y ∷ xs) x e = cc
  drop-some (suc i) (y ∷ xs) x e = drop-some i xs x e

  take-nil : (n : ℕ) → take {A = A} n [] ≡ []
  take-nil zero = refl
  take-nil (suc n) = refl

  print_row-texts :
      (n i : ℕ) (xs : List A) (s : String)
      → print_row print n i xs s ≡ str_append s (texts (take n (drop i xs)))
  unfolding print_row
  print_row-texts zero i xs s = sym (append-nil s)
  print_row-texts (suc n) i xs s = elim (Option-cases (get_elem? xs i)) [
    | inl e ↦
        rw (e, drop-none i xs e)
          (print_row-texts n (suc i) xs s
            ∙ rw (drop-add i 1 (suc i) xs (omega arith), drop-none i xs e, take-nil n) refl)
    | inr (x, e) ↦
        rw (e, drop-some i xs x e)
          (print_row-texts n (suc i) xs (str_append s (print x))
            ∙ append_assoc s (print x) (texts (take n (drop (suc i) xs))))
  ]

  print_rows-lines :
      (n width i : ℕ) (xs : List A) (s : String)
      → print_rows print n width i xs s ≡ str_append s (lines n width (drop i xs))
  unfolding print_rows
  print_rows-lines zero width i xs s = sym (append-nil s)
  print_rows-lines (suc n) width i xs s =
      let row = texts (take width (drop i xs)) in
      print_rows-lines n width (i + width) xs (str_append (print_row print width i xs s) "\n")
      ∙ rw
          (
            print_row-texts width i xs s,
            drop-add i width (i + width) xs refl,
            append_assoc s row "\n",
            append_assoc s (str_append row "\n") (lines n width (drop width (drop i xs))),
          )
          refl

-- The text of a frame is a line feed and ten rows of the next 55 of its numbers, as far as there are
-- any, each with a space behind it.
pub hex_to_string-lines :
    (to_string : ℕ → String) (span : List ℕ)
    → hex_to_string to_string span
      ≡ str_append "\n" (lines (λ b. str_append (to_string b) " ") 10 55 span)
unfolding hex_to_string
hex_to_string-lines to_string span =
    print_rows-lines (λ b. str_append (to_string b) " ") 10 55 0 span "\n"
