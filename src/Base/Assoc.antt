-- ===== src/Base/Assoc.antt =====
-- Maps from native numbers as association lists with distinct keys.
use Prim.Native.Nat.{ℕ}
use mathlib.Core.Bool.{Bool, true, false, not, ◌&&◌, ◌||◌}
use mathlib.Core.List.{List, [], ◌∷◌}
use mathlib.Core.Option.{Option, none, some}
use mathlib.Core.Path.{◌≡◌, refl}
use native.Mathlib.Omega.{arith}
use sirikata.Base.Tests.{◌==◌, if◌then◌else◌}

module _ {ℓ} {V : Type ℓ} where
  unfoldable pub lookup : ℕ → List (ℕ × V) → Option V
  lookup k [] = none
  lookup k ((j, v) ∷ m) = if j == k then some v else lookup k m

  unfoldable pub remove : ℕ → List (ℕ × V) → List (ℕ × V)
  remove k [] = []
  remove k ((j, v) ∷ m) = if j == k then m else (j, v) ∷ remove k m

  -- Write a new value at a key that is there.
  unfoldable pub modify : ℕ → V → List (ℕ × V) → List (ℕ × V)
  modify k w [] = []
  modify k w ((j, v) ∷ m) = if j == k then (j, w) ∷ m else (j, v) ∷ modify k w m

  abbrev is_some : Option V → Bool
  is_some none = false
  is_some (some v) = true

  unfoldable pub has : ℕ → List (ℕ × V) → Bool
  has k [] = false
  has k ((j, v) ∷ m) = j == k || has k m

  abbrev pub Distinct : List (ℕ × V) → Type 0
  Distinct [] = Unit {0}
  Distinct ((j, v) ∷ m) = (has j m ≡ false) × Distinct m

module _ {ℓ} {V : Type ℓ} where
  pub has-lookup : (k : ℕ) (m : List (ℕ × V)) → has k m ≡ is_some (lookup k m)
  unfolding lookup has
  has-lookup k [] = refl
  has-lookup k ((j, v) ∷ m) = ground (arith, has-lookup k m)

  pub has-remove :
      (k i : ℕ) (m : List (ℕ × V)) → Distinct m → has i (remove k m) ≡ (not (i == k) && has i m)
  unfolding remove has
  has-remove k i [] d = ground arith
  has-remove k i ((j, v) ∷ m) d = ground (arith, has-remove k i m d.1)

  pub remove-Distinct : (k : ℕ) (m : List (ℕ × V)) → Distinct m → Distinct (remove k m)
  unfolding remove
  remove-Distinct k [] d = tt
  remove-Distinct k ((j, v) ∷ m) d = ground (arith, remove-Distinct k m d.1, has-remove k j m d.1)

  pub has-modify : (k i : ℕ) (w : V) (m : List (ℕ × V)) → has i (modify k w m) ≡ has i m
  unfolding modify has
  has-modify k i w [] = refl
  has-modify k i w ((j, v) ∷ m) = ground (arith, has-modify k i w m)

  pub modify-Distinct : (k : ℕ) (w : V) (m : List (ℕ × V)) → Distinct m → Distinct (modify k w m)
  unfolding modify
  modify-Distinct k w [] d = tt
  modify-Distinct k w ((j, v) ∷ m) d = ground (arith, modify-Distinct k w m d.1, has-modify k j w m)

  pub lookup-modify :
      (k i : ℕ) (w : V) (m : List (ℕ × V))
      → has k m ≡ true
      → lookup i (modify k w m) ≡ (if k == i then some w else lookup i m)
  unfolding lookup modify has
  lookup-modify k i w [] h = absurd (cc)
  lookup-modify k i w ((j, v) ∷ m) h = ground (arith, lookup-modify k i w m)

  pub lookup-remove :
      (k i : ℕ) (m : List (ℕ × V))
      → Distinct m
      → lookup i (remove k m) ≡ (if k == i then none else lookup i m)
  unfolding lookup remove has
  lookup-remove k i [] d = ground arith
  lookup-remove k i ((j, v) ∷ m) d = ground (arith, lookup-remove k i m d.1, has-lookup i m)

  pub remove-modify : (k : ℕ) (w : V) (m : List (ℕ × V)) → remove k (modify k w m) ≡ remove k m
  unfolding remove modify
  remove-modify k w [] = refl
  remove-modify k w ((j, v) ∷ m) = ground (arith, remove-modify k w m)
