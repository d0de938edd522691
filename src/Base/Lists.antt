-- ===== src/Base/Lists.antt =====
-- Lists measured and indexed by native numbers, under the library's names.
use Prim.Native.Nat.{ℕ, zero, suc, ◌+◌, ◌-◌, ◌≤◌, ◌<◌, min}
use mathlib.Core.List.{List, [], ◌∷◌, ◌++◌}
use mathlib.Core.Logic.{◌⊎◌, inl, inr}
use mathlib.Core.Option.{Option, none, some}
use mathlib.Core.Path.{◌≡◌, refl, sym, ap, ◌∙◌}
use native.Mathlib.Omega.{arith}
use sirikata.Base.Tests.{◌==◌, if◌then◌else◌}

module _ {ℓ} {A : Type ℓ} where
  abbrev pub length : List A → ℕ
  length [] = 0
  length (x ∷ xs) = suc (length xs)

  abbrev pub drop : ℕ → List A → List A
  drop zero xs = xs
  drop (suc n) [] = []
  drop (suc n) (x ∷ xs) = drop n xs

  abbrev pub take : ℕ → List A → List A
  take zero xs = []
  take (suc n) [] = []
  take (suc n) (x ∷ xs) = x ∷ take n xs

  abbrev pub replicate : ℕ → A → List A
  replicate zero a = []
  replicate (suc n) a = a ∷ replicate n a

  abbrev pub get_elem? : List A → ℕ → Option A
  get_elem? [] i = none
  get_elem? (x ∷ xs) zero = some x
  get_elem? (x ∷ xs) (suc i) = get_elem? xs i

module _ {ℓ} {A : Type ℓ} where
  pub get_elem?-drop : (k i : ℕ) (xs : List A) → get_elem? (drop k xs) i ≡ get_elem? xs (k + i)
  get_elem?-drop zero i xs = ground arith
  get_elem?-drop (suc k) i [] = ground arith
  get_elem?-drop (suc k) i (x ∷ xs) = get_elem?-drop k i xs ∙ ground arith

  pub get_elem?-some : (xs : List A) (i : ℕ) → i < length xs → (x : A) × (get_elem? xs i ≡ some x)
  get_elem?-some [] i h = elim h [ ]
  get_elem?-some (x ∷ xs) zero h = (x, refl)
  get_elem?-some (x ∷ xs) (suc i) h = get_elem?-some xs i (omega arith)

  pub length-append : (xs ys : List A) → length (xs ++ ys) ≡ length xs + length ys
  length-append [] ys = omega arith
  length-append (x ∷ xs) ys = omega (arith, length-append xs ys)

  pub length-take : (n : ℕ) (xs : List A) → length (take n xs) ≡ min n (length xs)
  length-take zero xs = omega arith
  length-take (suc n) [] = omega arith
  length-take (suc n) (x ∷ xs) = omega (arith, length-take n xs)

  pub length-replicate : (n : ℕ) (a : A) → length (replicate n a) ≡ n
  length-replicate zero a = refl
  length-replicate (suc n) a = ap suc (length-replicate n a)

  pub length-drop : (n : ℕ) (xs : List A) → length (drop n xs) ≡ length xs - n
  length-drop zero xs = omega arith
  length-drop (suc n) [] = omega arith
  length-drop (suc n) (x ∷ xs) = omega (arith, length-drop n xs)

  pub drop-append : (xs ys : List A) → drop (length xs) (xs ++ ys) ≡ ys
  drop-append [] ys = refl
  drop-append (x ∷ xs) ys = drop-append xs ys

  pub take-append : (xs ys : List A) → take (length xs) (xs ++ ys) ≡ xs
  take-append [] ys = refl
  take-append (x ∷ xs) ys = ap (◌∷◌ x) (take-append xs ys)

  pub take-drop : (n : ℕ) (xs : List A) → take n xs ++ drop n xs ≡ xs
  take-drop zero xs = refl
  take-drop (suc n) [] = refl
  take-drop (suc n) (x ∷ xs) = ap (◌∷◌ x) (take-drop n xs)

  drop-nil : (n : ℕ) → drop {A = A} n [] ≡ []
  drop-nil zero = refl
  drop-nil (suc n) = refl

  pub drop-drop : (m n : ℕ) (xs : List A) → drop m (drop n xs) ≡ drop (n + m) xs
  drop-drop m zero xs = ground arith
  drop-drop m (suc n) [] = drop-nil m ∙ sym (drop-nil (suc n + m))
  drop-drop m (suc n) (x ∷ xs) =
      drop-drop m n xs
      ∙ (let e : suc (n + m) ≡ suc n + m = omega arith in ap (λ k. drop k (x ∷ xs)) e)

  pub take_all : (n : ℕ) (xs : List A) → length xs ≤ n → take n xs ≡ xs
  take_all zero [] h = refl
  take_all (suc n) [] h = refl
  take_all zero (x ∷ xs) h = absurd (omega arith)
  take_all (suc n) (x ∷ xs) h = ap (◌∷◌ x) (take_all n xs (omega arith))

  pub drop_all : (n : ℕ) (xs : List A) → length xs ≤ n → drop n xs ≡ []
  drop_all n [] h = drop-nil n
  drop_all zero (x ∷ xs) h = absurd (omega arith)
  drop_all (suc n) (x ∷ xs) h = drop_all n xs (omega arith)

  pub drop_within : (n : ℕ) (xs ys : List A) → n ≤ length xs → drop n (xs ++ ys) ≡ drop n xs ++ ys
  drop_within zero xs ys h = refl
  drop_within (suc n) [] ys h = absurd (omega arith)
  drop_within (suc n) (x ∷ xs) ys h = drop_within n xs ys (omega arith)

  -- Two ways to cut one list: the first cut lies strictly inside `us`, or `us` is covered.
  pub append-split :
      (xs ys us vs : List A)
      → xs ++ ys ≡ us ++ vs
      → (length xs < length us) ⊎ ((r : List A) × (xs ≡ us ++ r) × (r ++ ys ≡ vs))
  append-split xs ys [] vs e = inr (xs, refl, e)
  append-split [] ys (u ∷ us) vs e = inl (omega arith)
  append-split (x ∷ xs) ys (u ∷ us) vs e = elim (append-split xs ys us vs (ground arith)) [
    | inl h ↦ inl (omega arith)
    | inr (r, p, q) ↦ inr (r, ground arith, q)
  ]

  pub length-zero : (xs : List A) → length xs ≤ 0 → xs ≡ []
  length-zero [] h = refl
  length-zero (x ∷ xs) h = absurd (omega arith)

-- How often a number stands in a list.
abbrev pub count : ℕ → List ℕ → ℕ
count x [] = 0
count x (y ∷ ys) = if y == x then suc (count x ys) else count x ys

pub count-append : (x : ℕ) (xs ys : List ℕ) → count x (xs ++ ys) ≡ count x xs + count x ys
count-append x [] ys = omega arith
count-append x (y ∷ xs) ys = ground (arith, count-append x xs ys)
