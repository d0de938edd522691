-- ===== src/Util/ListenerProvider/Notify.antt =====
-- `notify` while the listeners that are told add others or remove themselves.
use sirikata.Base.{
  ℕ, zero, suc, ◌≤◌, ◌<◌, ◌≡◌, ◌≢◌, refl, sym, ap, ◌∙◌, some, List, [], ◌∷◌, ◌++◌, length, take,
  take_all, get_elem?, get_elem?-some, arith, inl, inr, Bool-cases, ltb, ltb→lt, not-ltb→le,
}
use sirikata.Util.ListenerProvider.{
  notified, Provider, add_listener, remove_listener, log_call, Change, add, remove_self, change_all,
  notify_below, notify,
}
use sirikata.Util.ListenerProvider.Slots.{get_elem?-below}
use sirikata.Util.ListenerProvider.Index.{
  at, IsValid, Listed, Absent, add_listener-at, add_listener-IsValid,
}
use sirikata.Util.ListenerProvider.Removal.{told, remove_listener-Removed, add_listener-told}

-- A listener adds what is not there, and removes itself only while it is there.
unfoldable pub IsPolite : ℕ → List Change → Provider → Type 0
IsPolite p [] s = Unit
IsPolite p (add q ∷ changes) s = Absent q s × IsPolite p changes (add_listener q s)
IsPolite p (remove_self ∷ changes) s =
    Listed p s × ((s' : Provider) → remove_listener p s ≡ some s' → IsPolite p changes s')

-- The listeners at the first places stay.
abbrev Keeps : ℕ → Provider → Provider → Type 0
Keeps b s s' = IsValid s' × ((j : ℕ) → j < b → at s' j ≡ at s j) × (told s'.calls ≡ told s.calls)

-- Others stand at the first places.
abbrev Before : ℕ → ℕ → Provider → Type 0
Before b p s = (j : ℕ) → j < b → (q : ℕ) × (at s j ≡ some q) × (q ≢ p)

Before-next :
    (b p : ℕ) (s s' : Provider)
    → ((j : ℕ) → j < b → at s' j ≡ at s j)
    → Before b p s
    → Before b p s'
Before-next b p s s' same before j below =
    let (q, stands, other) = before j below in (q, same j below ∙ stands, other)

add_listener-Keeps :
    (b p q : ℕ) (s : Provider)
    → IsValid s
    → Before b p s
    → Absent q s
    → Keeps b s (add_listener q s)
add_listener-Keeps b p q s valid before absent = (
  add_listener-IsValid q s valid absent,
  λ j below.
      let (r, stands, other) = before j below in
      let within = get_elem?-below s.listeners j r stands in
      let new = add_listener-at q j s in ground arith,
  add_listener-told q s,
)

Before-place : (b p place : ℕ) (s : Provider) → Before b p s → at s place ≡ some p → b ≤ place
Before-place b p place s before here = elim (Bool-cases (ltb place b)) [
  | inl l ↦
      let (q, stands, other) = before place (ltb→lt place b l) in
      absurd (other (let e = sym stands ∙ here in ground arith))
  | inr l ↦ not-ltb→le place b l
]

remove_listener-Keeps :
    (b p : ℕ) (s : Provider)
    → IsValid s
    → Before b p s
    → Listed p s
    → (s' : Provider) × (remove_listener p s ≡ some s') × Keeps b s s'
remove_listener-Keeps b p s valid before (place, here) =
    let (s', gone, (valid', absent, listed, same, unheard)) =
      remove_listener-Removed p place s valid here in
    let after = Before-place b p place s before here in
    (s', gone, (valid', λ j below. same j (omega (arith, below, after)), unheard))

change_all-removed :
    (p : ℕ) (changes : List Change) (s s1 : Provider)
    → remove_listener p s ≡ some s1
    → change_all p (remove_self ∷ changes) s ≡ change_all p changes s1
unfolding change_all
change_all-removed p changes s s1 gone = rw (change_all, gone) refl

change_all-Keeps :
    (b p : ℕ) (changes : List Change) (s : Provider)
    → IsValid s
    → Before b p s
    → IsPolite p changes s
    → (s' : Provider) × (change_all p changes s ≡ some s') × Keeps b s s'
unfolding change_all IsPolite
change_all-Keeps b p [] s valid before polite = (s, refl, (valid, λ j below. refl, refl))
change_all-Keeps b p (add q ∷ changes) s valid before (absent, polite) =
    let (valid1, same1, told1) = add_listener-Keeps b p q s valid before absent in
    let s1 = add_listener q s in
    let (s2, done, (valid2, same2, told2)) =
      change_all-Keeps b p changes s1 valid1 (Before-next b p s s1 same1 before) polite in
    (s2, done, (valid2, λ j below. same2 j below ∙ same1 j below, told2 ∙ told1))
change_all-Keeps b p (remove_self ∷ changes) s valid before (listed, polite) =
    let (s1, gone, (valid1, same1, told1)) = remove_listener-Keeps b p s valid before listed in
    let (s2, done, (valid2, same2, told2)) =
      change_all-Keeps b p changes s1 valid1 (Before-next b p s s1 same1 before) (polite s1 gone) in
    (
      s2,
      change_all-removed p changes s s1 gone ∙ done,
      (valid2, λ j below. same2 j below ∙ same1 j below, told2 ∙ told1),
    )

take-same :
    (n : ℕ) (xs ys : List ℕ)
    → ((j : ℕ) → j < n → (q : ℕ) × (get_elem? xs j ≡ some q))
    → ((j : ℕ) → j < n → get_elem? ys j ≡ get_elem? xs j)
    → take n ys ≡ take n xs
take-same zero xs ys full same = refl
take-same (suc n) [] ys full same = absurd (let (q, e) = full 0 (omega arith) in cc)
take-same (suc n) (x ∷ xs) [] full same = absurd (let e = same 0 (omega arith) in cc)
take-same (suc n) (x ∷ xs) (y ∷ ys) full same =
    let first = same 0 (omega arith) in
    let rest =
      take-same n xs ys (λ j below. full (suc j) (omega (arith, below)))
        (λ j below. same (suc j) (omega (arith, below))) in
    ground arith

take-suc :
    (i p : ℕ) (xs ts : List ℕ)
    → get_elem? xs i ≡ some p
    → take i xs ++ p ∷ ts ≡ take (suc i) xs ++ ts
take-suc i p [] ts here = absurd (cc)
take-suc zero p (x ∷ xs) ts here = ground arith
take-suc (suc i) p (x ∷ xs) ts here = ap (◌∷◌ x) (take-suc i p xs ts here)

-- Whoever stands below another place is another.
Before-other :
    (i p : ℕ) (s : Provider)
    → IsValid s
    → at s i ≡ some p
    → ((j : ℕ) → j < i → (q : ℕ) × (at s j ≡ some q))
    → Before i p s
Before-other i p s valid here full j below =
    let (q, stands) = full j below in
    let within = get_elem?-below s.listeners i p here in
    let find = valid.1 (λ one. absurd (omega (arith, one, within, below))) in
    (
      q,
      stands,
      λ e.
          let mine = find i p here in
          let other = find j q stands in
          absurd (let apart : j ≢ i = λ same. absurd (omega (arith, same, below)) in ground arith),
    )

notify_below-next :
    (react : Provider → ℕ → List Change) (i p : ℕ) (s s1 : Provider)
    → at s i ≡ some p
    → change_all p (react (log_call (notified p) s) p) (log_call (notified p) s) ≡ some s1
    → notify_below react (suc i) s ≡ notify_below react i s1
unfolding notify_below
notify_below-next react i p s s1 here done = rw (notify_below, here, done) refl

module _ (react : Provider → ℕ → List Change)
    (polite : (s : Provider) (p : ℕ) → IsValid s → Listed p s → IsPolite p (react s p) s) where
  notify_below-told :
      (i : ℕ) (s : Provider)
      → IsValid s
      → ((j : ℕ) → j < i → (q : ℕ) × (at s j ≡ some q))
      → (s' : Provider) × (notify_below react i s ≡ some s')
        × IsValid s'
        × (told s'.calls ≡ take i s.listeners ++ told s.calls)
  unfolding notify_below
  notify_below-told zero s valid full = (s, refl, valid, refl)
  notify_below-told (suc i) s valid full =
      let (p, here) = full i (omega arith) in
      let lower : (j : ℕ) → j < i → (q : ℕ) × (at s j ≡ some q) =
        λ j below. full j (omega (arith, below)) in
      let s0 : Provider = log_call (notified p) s in
      let (s1, done, (valid1, same1, told1)) =
        change_all-Keeps i p (react s0 p) s0 valid (Before-other i p s valid here lower)
          (polite s0 p valid (i, here)) in
      let (s2, rest, valid2, told2) =
        notify_below-told i s1 valid1
          (λ j below. let (q, stands) = lower j below in (q, same1 j below ∙ stands)) in
      (
        s2,
        notify_below-next react i p s s1 here done ∙ rest,
        valid2,
        told2
            ∙ (ap (λ l. l ++ told s1.calls) (take-same i s.listeners s1.listeners lower same1)
                ∙ (ap (λ l. take i s.listeners ++ l) told1
                    ∙ take-suc i p s.listeners (told s.calls) here)),
      )

  -- Let the map agree with the vector, and let each listener that is told add only listeners that
  -- are not there, and remove itself only while it is there. Then `notify` ends without a fault,
  -- each listener that was there at first is told once, from the last to the first, and no other,
  -- and the map agrees with the vector again.
  pub notify-told :
      (s : Provider)
      → IsValid s
      → (s' : Provider) × (notify react s ≡ some s')
        × IsValid s'
        × (told s'.calls ≡ s.listeners ++ told s.calls)
  unfolding notify
  notify-told s valid =
      let (s', done, valid', heard) =
        notify_below-told (length s.listeners) s valid (get_elem?-some s.listeners) in
      (
        s',
        done,
        valid',
        heard
            ∙ ap (λ l. l ++ told s.calls) (take_all (length s.listeners) s.listeners (omega arith)),
      )
