-- ===== src/Base/Quantify.antt =====
-- Tests and predicates over lists.
use mathlib.Core.Bool.{Bool, true, false, ◌&&◌, ◌||◌}
use mathlib.Core.List.{List, [], ◌∷◌, ◌++◌}
use mathlib.Core.Logic.{inl, inr}
use mathlib.Core.Path.{◌≡◌, refl}
use native.Mathlib.Omega.{arith}
use sirikata.Base.Tests.{Bool-cases, if◌then◌else◌}

module _ {ℓ} {A : Type ℓ} where
  unfoldable pub any : (A → Bool) → List A → Bool
  any p [] = false
  any p (x ∷ xs) = p x || any p xs

  abbrev pub every : (A → Bool) → List A → Bool
  every p [] = true
  every p (x ∷ xs) = p x && every p xs

  -- The elements that fail the test.
  unfoldable pub reject : (A → Bool) → List A → List A
  reject p [] = []
  reject p (x ∷ xs) = let rest = reject p xs in if p x then rest else x ∷ rest

  abbrev pub All {κ} : (A → Type κ) → List A → Type κ
  All P [] = Unit
  All P (x ∷ xs) = P x × All P xs

module _ {ℓ} {A : Type ℓ} where
  pub any-cons : (p : A → Bool) (x : A) (xs : List A) → any p (x ∷ xs) ≡ (p x || any p xs)
  unfolding any
  any-cons p x xs = refl

  pub any-middle :
      (p : A → Bool) (xs : List A) (x : A) (ys : List A)
      → any p (xs ++ x ∷ ys) ≡ (p x || any p (xs ++ ys))
  unfolding any
  any-middle p [] x ys = refl
  any-middle p (w ∷ xs) x ys = ground (arith, any-middle p xs x ys)

  pub All-map {κ μ} :
      {P : A → Type κ} {Q : A → Type μ} (xs : List A) → ((x : A) → P x → Q x) → All P xs → All Q xs
  All-map [] f h = tt
  All-map (x ∷ xs) f h = (f x h.0, All-map xs f h.1)

  pub All-append {κ} : (P : A → Type κ) (xs ys : List A) → All P xs → All P ys → All P (xs ++ ys)
  All-append P [] ys h k = k
  All-append P (x ∷ xs) ys h k = (h.0, All-append P xs ys h.1 k)

  -- What holds of the elements that fail the test, where it held of all before or follows.
  pub All-reject {κ μ} :
      {P : A → Type κ} {Q : A → Type μ} (p : A → Bool) (xs : List A)
      → ((x : A) → p x ≡ false → P x → Q x)
      → All P xs
      → All Q (reject p xs)
  unfolding reject
  All-reject p [] f h = tt
  All-reject p (x ∷ xs) f h = elim (Bool-cases (p x)) [
    | inl out ↦ rw out (All-reject p xs f h.1)
    | inr stays ↦ rw stays ((f x stays h.0, All-reject p xs f h.1))
  ]

  pub any_mono :
      (p q : A → Bool) (xs : List A)
      → ((x : A) → p x ≡ true → q x ≡ true)
      → any p xs ≡ true
      → any q xs ≡ true
  unfolding any
  any_mono p q [] f h = h
  any_mono p q (x ∷ xs) f h = ground (arith, f x, any_mono p q xs f)
