-- ===== src/Prelude/Memory.antt =====
-- C memory: byte arrays as lists of numbers, `memcpy` and `memset` between them, and the
-- little-endian fields of a packed struct.
use Prim.Native.Nat.{ℕ, zero, suc, ◌+◌, ◌-◌, ◌*◌, ◌/◌, ◌%◌, ◌≤◌, ◌<◌}
use Prim.Native.Nat.add
use mathlib.Core.Path.{◌≡◌, refl, ap, ◌∙◌}
use mathlib.Core.Bool.{◌&&◌}
use mathlib.Core.Option.{Option, none, some}
use mathlib.Core.List.{List, [], ◌∷◌, ◌++◌}
use native.Mathlib.Omega.{arith}
use dmx_enttec_node.Prelude.Tests.{ltb, leb, if◌then◌else◌}
use dmx_enttec_node.Prelude.Lists.{
  length, get_or, take, drop, replicate, length-replicate, length-append, length-take, length-drop,
}

-- `n` bytes from index `i` on
abbrev pub slice {ℓ} : {A : Type ℓ} → List A → ℕ → ℕ → List A
slice xs i n = take n (drop i xs)

-- `src` written over `dst` from index `i` on
abbrev pub overwrite : List ℕ → ℕ → List ℕ → List ℕ
overwrite dst zero src = src ++ drop (length src) dst
overwrite [] (suc i) src = src
overwrite (x ∷ dst) (suc i) src = x ∷ overwrite dst i src

-- `memcpy(dst + i, src + j, n)` between two arrays; `none` where it leaves one of them
unfoldable pub memcpy : List ℕ → ℕ → List ℕ → ℕ → ℕ → Option (List ℕ)
memcpy dst i src j n =
    if leb (i + n) (length dst) && leb (j + n) (length src)
    then some (overwrite dst i (slice src j n))
    else none

-- `memset(dst, v, n)`; `none` where the array is shorter
unfoldable pub memset : List ℕ → ℕ → ℕ → Option (List ℕ)
memset dst v n = if leb n (length dst) then some (overwrite dst 0 (replicate n v)) else none

-- Unsigned little-endian fields at index `i`
abbrev pub u16_at : List ℕ → ℕ → ℕ
u16_at bs i = get_or bs i 0 + 256 * get_or bs (i + 1) 0

abbrev pub u32_at : List ℕ → ℕ → ℕ
u32_at bs i = u16_at bs i + 65536 * u16_at bs (i + 2)

-- The bytes of such fields
abbrev pub le16 : ℕ → List ℕ
le16 v = v % 256 ∷ v / 256 % 256 ∷ []

abbrev pub le32 : ℕ → List ℕ
le32 v = le16 (v % 65536) ++ le16 (v / 65536)

-- Every element is a byte.
abbrev pub AreBytes : List ℕ → Type 0
AreBytes [] = Unit {0}
AreBytes (x ∷ xs) = (x < 256) × AreBytes xs

module _ {ℓ} {A : Type ℓ} where
  pub get_or-append :
      (xs ys : List A) (i : ℕ) (d : A)
      → get_or (xs ++ ys) i d
        ≡ (if ltb i (length xs) then get_or xs i d else get_or ys (i - length xs) d)
  get_or-append [] ys i d = ground arith
  get_or-append (x ∷ xs) ys zero d = ground arith
  get_or-append (x ∷ xs) ys (suc i) d = ground (arith, get_or-append xs ys i d)

  pub get_or-take :
      (n : ℕ) (xs : List A) (i : ℕ) (d : A) → i < n → get_or (take n xs) i d ≡ get_or xs i d
  get_or-take zero xs i d h = elim h [ ]
  get_or-take (suc n) [] i d h = refl
  get_or-take (suc n) (x ∷ xs) zero d h = refl
  get_or-take (suc n) (x ∷ xs) (suc i) d h = get_or-take n xs i d (omega arith)

  pub get_or-drop :
      (n : ℕ) (xs : List A) (i : ℕ) (d : A) → get_or (drop n xs) i d ≡ get_or xs (n + i) d
  get_or-drop zero xs i d = ap (λ k. get_or xs k d) (omega arith)
  get_or-drop (suc n) [] i d = refl
  get_or-drop (suc n) (x ∷ xs) i d = rw (add.suc n i) (get_or-drop n xs i d)

  pub get_or-drop_sub :
      (n : ℕ) (xs : List A) (k : ℕ) (d : A) → n ≤ k → get_or (drop n xs) (k - n) d ≡ get_or xs k d
  get_or-drop_sub n xs k d h = get_or-drop n xs (k - n) d ∙ ap (λ j. get_or xs j d) (omega arith)

  pub length-slice : (xs : List A) (i n : ℕ) → i + n ≤ length xs → length (slice xs i n) ≡ n
  length-slice xs i n h = omega (arith, length-take n (drop i xs), length-drop i xs)

  pub get_or-slice :
      (xs : List A) (i n k : ℕ) (d : A) → k < n → get_or (slice xs i n) k d ≡ get_or xs (i + k) d
  get_or-slice xs i n k d h = get_or-take n (drop i xs) k d h ∙ get_or-drop i xs k d

-- What a `memcpy` leaves: the copied range from the source, all else as it was.
pub get_or-overwrite :
    (dst src : List ℕ) (i k : ℕ) (d : ℕ)
    → i + length src ≤ length dst
    → get_or (overwrite dst i src) k d
      ≡ (if leb i k && ltb k (i + length src) then get_or src (k - i) d else get_or dst k d)
get_or-overwrite dst src zero k d h =
    ground
      (arith, get_or-append src (drop (length src) dst) k d, get_or-drop_sub (length src) dst k d)
get_or-overwrite [] src (suc i) k d h = absurd (omega arith)
get_or-overwrite (x ∷ dst) src (suc i) zero d h = ground arith
get_or-overwrite (x ∷ dst) src (suc i) (suc k) d h = ground (arith, get_or-overwrite dst src i k d)

pub length-overwrite :
    (dst src : List ℕ) (i : ℕ)
    → i + length src ≤ length dst
    → length (overwrite dst i src) ≡ length dst
length-overwrite dst src zero h =
    omega (arith, length-append src (drop (length src) dst), length-drop (length src) dst)
length-overwrite [] src (suc i) h = absurd (omega arith)
length-overwrite (x ∷ dst) src (suc i) h = omega (arith, length-overwrite dst src i)

module _ {ℓ} {A : Type ℓ} where
  pub take-all : (n : ℕ) (xs : List A) → length xs ≡ n → take n xs ≡ xs
  take-all zero [] e = refl
  take-all zero (x ∷ xs) e = absurd (omega arith)
  take-all (suc n) [] e = refl
  take-all (suc n) (x ∷ xs) e = ap (λ ys. x ∷ ys) (take-all n xs (omega arith))

  pub drop-append : (n : ℕ) (xs ys : List A) → length xs ≡ n → drop n (xs ++ ys) ≡ ys
  drop-append zero [] ys e = refl
  drop-append zero (x ∷ xs) ys e = absurd (omega arith)
  drop-append (suc n) [] ys e = absurd (omega arith)
  drop-append (suc n) (x ∷ xs) ys e = drop-append n xs ys (omega arith)

  pub take-append : (n : ℕ) (xs ys : List A) → length xs ≡ n → take n (xs ++ ys) ≡ xs
  take-append zero [] ys e = refl
  take-append zero (x ∷ xs) ys e = absurd (omega arith)
  take-append (suc n) [] ys e = absurd (omega arith)
  take-append (suc n) (x ∷ xs) ys e = ap (λ zs. x ∷ zs) (take-append n xs ys (omega arith))

-- A copy of the first `n` bytes
pub memcpy_front :
    (dst src : List ℕ) (n : ℕ)
    → n ≤ length dst
    → n ≤ length src
    → memcpy dst 0 src 0 n ≡ some (take n src ++ drop n dst)
unfolding memcpy
memcpy_front dst src n hd hs = ground (arith, length-slice src 0 n)

pub take-append_le {ℓ} :
    {A : Type ℓ} (n : ℕ) (xs ys : List A) → n ≤ length xs → take n (xs ++ ys) ≡ take n xs
take-append_le zero xs ys h = refl
take-append_le (suc n) [] ys h = absurd (omega arith)
take-append_le (suc n) (x ∷ xs) ys h = ap (λ zs. x ∷ zs) (take-append_le n xs ys (omega arith))

pub memcpy-some :
    (dst src : List ℕ) (i j n : ℕ)
    → i + n ≤ length dst
    → j + n ≤ length src
    → memcpy dst i src j n ≡ some (overwrite dst i (slice src j n))
unfolding memcpy
memcpy-some dst src i j n hd hs = ground arith

-- What a `memset` leaves
pub record IsFilled (v n : ℕ) (before after : List ℕ) : Type 0 where
  pub size : length after ≡ length before
  pub filled : (k : ℕ) → get_or after k 0 ≡ (if ltb k n then v else get_or before k 0)

get_or-replicate : (n v k : ℕ) → k < n → get_or (replicate n v) k 0 ≡ v
get_or-replicate zero v k h = elim h [ ]
get_or-replicate (suc n) v zero h = refl
get_or-replicate (suc n) v (suc k) h = get_or-replicate n v k (omega arith)

pub memset-some :
    (dst : List ℕ) (v n : ℕ)
    → n ≤ length dst
    → (filled : List ℕ) × (memset dst v n ≡ some filled) × IsFilled v n dst filled
unfolding memset
memset-some dst v n h = (
  overwrite dst 0 (replicate n v),
  ground arith,
  record {
    size = length-overwrite dst (replicate n v) 0 (omega (arith, length-replicate n v));
    filled = λ k. ground (
      arith,
      length-replicate n v,
      get_or-overwrite dst (replicate n v) 0 k 0,
      get_or-replicate n v k,
    );
  },
)
