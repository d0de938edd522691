-- ===== src/Util/ListenerProvider/Tests.antt =====
-- Three listeners of which one adds another and one leaves (libcore/src/util/ListenerProvider.hpp).
use sirikata.Base.{
  ℕ, zero, suc, ◌+◌, ◌≤◌, ◌≡◌, refl, none, some, List, [], ◌∷◌, get_elem?, ◌==◌, if◌then◌else◌,
  arith, inl, inr, Bool-cases,
}
use sirikata.Util.ListenerProvider.{
  Provider, set_elem, add_listener, remove_at, remove_listener, Change, add, remove_self,
  change_all, notify_below, notify,
}
use sirikata.Util.ListenerProvider.Index.{at, IsValid, Listed}
use sirikata.Util.ListenerProvider.Removal.{told}
use sirikata.Util.ListenerProvider.Notify.{IsPolite, notify-told}

abbrev three : Provider
three = record {
  listeners = 5 ∷ 3 ∷ 7 ∷ [];
  listener_index =
      λ p. if p == 5 then some 0 else if p == 3 then some 1 else if p == 7 then some 2 else none;
  calls = [];
}

three_finds : (i p : ℕ) → at three i ≡ some p → three.listener_index p ≡ some i
three_finds zero p h = ground arith
three_finds (suc zero) p h = ground arith
three_finds (suc (suc zero)) p h = ground arith
three_finds (suc (suc (suc i))) p h = absurd (cc)

three-IsValid : IsValid three
three-IsValid = (λ p i h. ground arith, λ many i p. three_finds i p)

-- A number above all in the list.
abbrev fresh : List ℕ → ℕ
fresh [] = 1
fresh (x ∷ xs) = x + fresh xs

positive : (xs : List ℕ) → 1 ≤ fresh xs
positive [] = omega arith
positive (x ∷ xs) = omega (arith, positive xs)

above : (xs : List ℕ) (i p : ℕ) → get_elem? xs i ≡ some p → suc p ≤ fresh xs
above [] i p h = absurd (cc)
above (x ∷ xs) zero p h = ground (arith, positive xs)
above (x ∷ xs) (suc i) p h = omega (arith, above xs i p h)

abbrev react : Provider → ℕ → List Change
react s p = if p == 5 then remove_self ∷ [] else if p == 3 then add (fresh s.listeners) ∷ [] else []

react-IsPolite : (s : Provider) (p : ℕ) → IsValid s → Listed p s → IsPolite p (react s p) s
unfolding IsPolite
react-IsPolite s p valid listed = elim (Bool-cases (p == 5)) [
  | inl e ↦ rw (e) (listed, λ s' gone. tt)
  | inr e ↦ elim (Bool-cases (p == 3)) [
    | inl f ↦
        rw (e, f) (λ i h. absurd (omega (arith, above s.listeners i (fresh s.listeners) h)), tt)
    | inr f ↦ rw (e, f) tt
  ]
]

notify-told_example :
    (s' : Provider) × (notify react three ≡ some s') × IsValid s' × (told s'.calls ≡ 5 ∷ 3 ∷ 7 ∷ [])
notify-told_example = notify-told react react-IsPolite three three-IsValid

-- The listener that leaves makes room for the one that was added last.
after_notify : elim (notify react three) [ none ↦ [] | some s ↦ s.listeners ] ≡ 16 ∷ 3 ∷ 7 ∷ []
unfolding notify notify_below change_all add_listener remove_listener remove_at set_elem
after_notify = refl
