-- ===== src/Transfer/Range/Order.antt =====
-- `Range::operator<` and `operator==`: ranges as keys of an ordered container.
use sirikata.Base.{◌≡◌, ◌⊎◌, true, false, arith}
use sirikata.Transfer.Range.{Range, eqb, less}

less_trans : (r s t : Range) → less r s ≡ true → less s t ≡ true → less r t ≡ true
unfolding less
less_trans r s t h k = ground arith

-- `operator<` is a strict total order whose equality is `operator==`: of any two ranges exactly
-- one is less or they are equal, and it is transitive.
pub less_strict_total :
    (r s t : Range)
    → ((eqb r s ≡ true) ⊎ ((less r s ≡ true) ⊎ (less s r ≡ true)))
      × ((less r s ≡ true) → (eqb r s ≡ false) × (less s r ≡ false))
      × ((less r s ≡ true) → (less s t ≡ true) → less r t ≡ true)
unfolding eqb less
less_strict_total r s t = (ground arith, (λ h. (ground arith, ground arith)), less_trans r s t)
