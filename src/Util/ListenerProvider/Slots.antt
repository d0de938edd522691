-- ===== src/Util/ListenerProvider/Slots.antt =====
-- The places of a vector when one is written, added or dropped.
use sirikata.Base.{
  ℕ, zero, suc, ◌<◌, ◌≡◌, refl, none, some, List, [], ◌∷◌, ◌++◌, length, take, get_elem?, ◌==◌, ltb,
  if◌then◌else◌, arith,
}
use sirikata.Util.ListenerProvider.{set_elem}

pub length-set_elem : (i p : ℕ) (xs : List ℕ) → length (set_elem i p xs) ≡ length xs
unfolding set_elem
length-set_elem i p [] = refl
length-set_elem zero p (x ∷ xs) = refl
length-set_elem (suc i) p (x ∷ xs) = omega (arith, length-set_elem i p xs)

pub get_elem?-set_elem :
    (i j p : ℕ) (xs : List ℕ)
    → i < length xs
    → get_elem? (set_elem i p xs) j ≡ (if j == i then some p else get_elem? xs j)
unfolding set_elem
get_elem?-set_elem i j p [] h = absurd (omega arith)
get_elem?-set_elem zero zero p (x ∷ xs) h = ground arith
get_elem?-set_elem zero (suc j) p (x ∷ xs) h = ground arith
get_elem?-set_elem (suc i) zero p (x ∷ xs) h = ground arith
get_elem?-set_elem (suc i) (suc j) p (x ∷ xs) h =
    ground (arith, get_elem?-set_elem i j p xs (omega arith))

pub get_elem?-push_back :
    (j p : ℕ) (xs : List ℕ)
    → get_elem? (xs ++ p ∷ []) j ≡ (if j == length xs then some p else get_elem? xs j)
get_elem?-push_back zero p [] = ground arith
get_elem?-push_back (suc j) p [] = ground arith
get_elem?-push_back zero p (x ∷ xs) = ground arith
get_elem?-push_back (suc j) p (x ∷ xs) = ground (arith, get_elem?-push_back j p xs)

pub get_elem?-take :
    (n j : ℕ) (xs : List ℕ) → get_elem? (take n xs) j ≡ (if ltb j n then get_elem? xs j else none)
get_elem?-take zero j xs = ground arith
get_elem?-take (suc n) j [] = ground arith
get_elem?-take (suc n) zero (x ∷ xs) = ground arith
get_elem?-take (suc n) (suc j) (x ∷ xs) = ground (arith, get_elem?-take n j xs)

pub get_elem?-below : (xs : List ℕ) (i p : ℕ) → get_elem? xs i ≡ some p → i < length xs
get_elem?-below [] i p h = absurd (cc)
get_elem?-below (x ∷ xs) zero p h = omega arith
get_elem?-below (x ∷ xs) (suc i) p h = omega (arith, get_elem?-below xs i p h)
