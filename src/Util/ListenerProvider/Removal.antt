-- ===== src/Util/ListenerProvider/Removal.antt =====
-- A listener that is there is removed, and the others stay.
use sirikata.Base.{
  ℕ, zero, suc, ◌-◌, ◌≤◌, ◌<◌, ◌≡◌, ◌≢◌, refl, sym, ap, ◌∙◌, none, some, List, [], ◌∷◌, length,
  get_elem?, get_elem?-some, ltb, ◌==◌, if◌then◌else◌, arith, inl, inr, Bool-cases,
}
use sirikata.Util.ListenerProvider.{
  Call, listener_added, listener_removed, first_listener_added, last_listener_removed, notified,
  Provider, add_to, add_listener, remove_at, remove_from, remove_listener, log_call,
}
use sirikata.Util.ListenerProvider.Slots.{get_elem?-below}
use sirikata.Util.ListenerProvider.Index.{
  at, IsValid, Listed, Absent, place_below, remove_at-finds, remove_at-listeners, remove_at-index,
  remove_at-IsValid,
}

-- The listeners that were told by `notify`, the last one first.
abbrev pub told : List Call → List ℕ
told [] = []
told (listener_added p ∷ cs) = told cs
told (listener_removed p ∷ cs) = told cs
told (first_listener_added p ∷ cs) = told cs
told (last_listener_removed p ∷ cs) = told cs
told (notified p ∷ cs) = p ∷ told cs

-- What `removeListener` leaves: all but the one listener, and those before its place where they
-- were.
abbrev pub Removed : ℕ → ℕ → Provider → Provider → Type 0
Removed p place s s' =
    IsValid s'
    × Absent p s'
    × ((q : ℕ) → q ≢ p → Listed q s → Listed q s')
    × ((j : ℕ) → j < place → at s' j ≡ at s j)
    × (told s'.calls ≡ told s.calls)

module _ (p place back : ℕ) (s : Provider) (valid : IsValid s) (many : 2 ≤ length s.listeners)
    (here : at s place ≡ some p) (last : at s (length s.listeners - 1) ≡ some back) where
  slot :
      (j : ℕ)
      → at (remove_at p place back s) j ≡ (
          if ltb j (length s.listeners - 1)
          then (if j == place then some back else at s j)
          else none)
  slot j = remove_at-listeners p place back s j (place_below p place back s valid many here last)

  remove_at-Absent : Absent p (remove_at p place back s)
  remove_at-Absent i stands =
      let found = remove_at-finds p place back s valid many here last i p stands in
      let index = remove_at-index p place back s p here last in ground arith

  remove_at-Listed : (q : ℕ) → q ≢ p → Listed q s → Listed q (remove_at p place back s)
  remove_at-Listed q other (i, stands) =
      let below = get_elem?-below s.listeners i q stands in
      let within = place_below p place back s valid many here last in
      elim (Bool-cases (q == back)) [
        | inl e ↦ (place, let new = slot place in let old = slot i in ground arith)
        | inr e ↦ (i, let new = slot i in ground arith)
      ]

  remove_at-before : (j : ℕ) → j < place → at (remove_at p place back s) j ≡ at s j
  remove_at-before j before =
      let new = slot j in
      let within = place_below p place back s valid many here last in ground arith

  remove_at-told : told (remove_at p place back s).calls ≡ told s.calls
  unfolding remove_at
  remove_at-told = ground arith

  pub remove_at-Removed : Removed p place s (remove_at p place back s)
  remove_at-Removed = (
    remove_at-IsValid p place back s valid many here last,
    remove_at-Absent,
    remove_at-Listed,
    remove_at-before,
    remove_at-told,
  )

single_place : (q p i : ℕ) (xs : List ℕ) → xs ≡ q ∷ [] → get_elem? xs i ≡ some p → (i ≡ 0) × (q ≡ p)
single_place q p zero xs e here = (refl, let one = ap (λ l. get_elem? l 0) e in ground arith)
single_place q p (suc i) xs e here =
    absurd (let one = ap length e in omega (arith, one, get_elem?-below xs (suc i) p here))

abbrev without : ℕ → Provider → Provider
without p s = record (log_call (last_listener_removed p) s) {
  listeners = [];
  listener_index = λ j. none;
}

remove_from-single :
    (q p place : ℕ) (s : Provider)
    → s.listeners ≡ q ∷ []
    → at s place ≡ some p
    → (remove_from (q ∷ []) p s ≡ some (without p s)) × Removed p place s (without p s)
remove_from-single q p place s e here =
    let (first, same) = single_place q p place s.listeners e here in
    (
      ground arith,
      (
        (λ r i found. absurd (cc), λ many i r stands. absurd (cc)),
        λ i stands. absurd (cc),
        λ r other (i, stands).
            absurd (other (sym (single_place q r i s.listeners e stands).1 ∙ same)),
        λ j before. absurd (omega arith),
        refl,
      ),
    )

remove_from-found :
    (q r p place back : ℕ) (xs : List ℕ) (s : Provider)
    → s.listener_index p ≡ some place
    → at s (length s.listeners - 1) ≡ some back
    → remove_from (q ∷ r ∷ xs) p s ≡ some (remove_at p place back s)
remove_from-found q r p place back xs s found last = rw (remove_from, found, last) refl

remove_from-many :
    (q r p place : ℕ) (xs : List ℕ) (s : Provider)
    → s.listeners ≡ q ∷ r ∷ xs
    → IsValid s
    → at s place ≡ some p
    → (s' : Provider) × (remove_from (q ∷ r ∷ xs) p s ≡ some s') × Removed p place s s'
remove_from-many q r p place xs s e valid here =
    let size = ap length e in
    let many : 2 ≤ length s.listeners = omega arith in
    let found : s.listener_index p ≡ some place =
      valid.1 (λ one. absurd (omega (arith, one, size))) place p here in
    let (back, last) = get_elem?-some s.listeners (length s.listeners - 1) (omega arith) in
    (
      remove_at p place back s,
      remove_from-found q r p place back xs s found last,
      remove_at-Removed p place back s valid many here last,
    )

remove_from-Removed :
    (xs : List ℕ) (p place : ℕ) (s : Provider)
    → s.listeners ≡ xs
    → IsValid s
    → at s place ≡ some p
    → (s' : Provider) × (remove_from xs p s ≡ some s') × Removed p place s s'
remove_from-Removed [] p place s e valid here =
    absurd (let size = ap length e in omega (arith, size, get_elem?-below s.listeners place p here))
remove_from-Removed (q ∷ []) p place s e valid here =
    let (gone, removed) = remove_from-single q p place s e here in (without p s, gone, removed)
remove_from-Removed (q ∷ r ∷ xs) p place s e valid here =
    remove_from-many q r p place xs s e valid here

pub remove_listener-Removed :
    (p place : ℕ) (s : Provider)
    → IsValid s
    → at s place ≡ some p
    → (s' : Provider) × (remove_listener p s ≡ some s') × Removed p place s s'
unfolding remove_listener
remove_listener-Removed p place s valid here =
    remove_from-Removed s.listeners p place (log_call (listener_removed p) s) refl valid here

add_to-told : (xs : List ℕ) (p : ℕ) (s : Provider) → told (add_to xs p s).calls ≡ told s.calls
add_to-told [] p s = refl
add_to-told (q ∷ []) p s = refl
add_to-told (q ∷ r ∷ xs) p s = refl

pub add_listener-told : (p : ℕ) (s : Provider) → told (add_listener p s).calls ≡ told s.calls
unfolding add_listener
add_listener-told p s = add_to-told s.listeners p s
