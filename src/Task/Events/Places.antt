-- ===== src/Task/Events/Places.antt =====
-- The listener lists of an `EventManager` (libcore/src/task/EventManager.cpp) as one function of the
-- place, and what each operation does to it.
use sirikata.Base.{
  ℕ, zero, suc, ◌≤◌, ◌<◌, ◌≡◌, refl, ap, subst, inl, inr, Bool, true, false, ◌&&◌, Option, none,
  some, [], ◌∷◌, ◌==◌, if◌then◌else◌, arith, Bool-cases, Option-cases,
}
use sirikata.Task.Events.{
  Listener, ListenerList, PartiallyOrdered, PrimaryInfo, Place, EventManager, set_at, list_in,
  list_at, set_in, set_list,
}
use sirikata.Task.Events.Lists.{
  insert_pri_id, insert_sec_id, with_secondary, find_node, erase_node, clean_up, all_empty,
  add_listener, erase_at,
}

abbrev listed : Option ListenerList → ListenerList
listed none = []
listed (some ls) = ls

-- The listeners at a place, none where there is no list.
abbrev pub entries : Place → EventManager → ListenerList
entries p m = listed (list_at p m)

abbrev pub is_present : Place → EventManager → Bool
is_present p m = elim (list_at p m) [ none ↦ false | some ls ↦ true ]

abbrev option_eq : Option ℕ → Option ℕ → Bool
option_eq none none = true
option_eq (some a) (some b) = a == b
option_eq _ _ = false

abbrev pub place_eq : Place → Place → Bool
place_eq p q = (p.primary == q.primary) && option_eq p.secondary q.secondary && (p.order == q.order)

in_place : ℕ → Option ℕ → ℕ → Place
in_place primary secondary order = record {
  primary = primary;
  secondary = secondary;
  order = order;
}

list_in-set_in :
    (sec sec' : Option ℕ) (order order' : ℕ) (ls : ListenerList) (info : PrimaryInfo)
    (old : ListenerList)
    → list_in sec order info ≡ some old
    → list_in sec' order' (set_in sec order ls info)
      ≡ (if option_eq sec' sec && (order' == order) then some ls else list_in sec' order' info)
list_in-set_in none none order order' ls info old e = ground arith
list_in-set_in none (some sec') order order' ls info old e = ground arith
list_in-set_in (some sec) none order order' ls info old e = ground arith
list_in-set_in (some sec) (some sec') order order' ls info old e = ground arith

list_at-set_list :
    (p q : Place) (ls : ListenerList) (m : EventManager) (old : ListenerList)
    → list_at p m ≡ some old
    → list_at q (set_list p ls m) ≡ (if place_eq q p then some ls else list_at q m)
list_at-set_list p q ls m old e = elim (Option-cases (m.listeners p.primary)) [
  | inl none_there ↦ ground arith
  | inr (info, there) ↦
      ground (arith, list_in-set_in p.secondary q.secondary p.order q.order ls info old)
]

list_in-with_secondary :
    (sec : ℕ) (sec' : Option ℕ) (order : ℕ) (info : PrimaryInfo)
    → listed (list_in sec' order (with_secondary sec info)) ≡ listed (list_in sec' order info)
list_in-with_secondary sec none order info = ground arith
list_in-with_secondary sec (some sec') order info = ground arith

pub entries-insert_pri_id :
    (pri : ℕ) (q : Place) (m : EventManager) → entries q (insert_pri_id pri m) ≡ entries q m
unfolding insert_pri_id
entries-insert_pri_id pri q m = elim (Option-cases q.secondary) [
  | inl only_primary ↦ ground arith
  | inr (sec, pair) ↦ ground arith
]

pub entries-insert_sec_id :
    (pri : ℕ) (sec : Option ℕ) (q : Place) (m : EventManager)
    → entries q (insert_sec_id pri sec m) ≡ entries q m
unfolding insert_sec_id
entries-insert_sec_id pri sec q m = elim (Option-cases sec) [
  | inl only_primary ↦ ground arith
  | inr (s, pair) ↦ ground (arith, list_in-with_secondary s q.secondary q.order)
]

pub present-insert :
    (p : Place) (m : EventManager)
    → is_present p (insert_sec_id p.primary p.secondary (insert_pri_id p.primary m)) ≡ true
unfolding insert_pri_id insert_sec_id
present-insert p m = elim (Option-cases (m.listeners p.primary)) [
  | inl none_there ↦ elim (Option-cases p.secondary) [
    | inl only_primary ↦ ground arith
    | inr (sec, pair) ↦ ground arith
  ]
  | inr (info, there) ↦ elim (Option-cases p.secondary) [
    | inl only_primary ↦ ground arith
    | inr (sec, pair) ↦ elim (Option-cases (info.secondaries sec)) [
      | inl new ↦ ground arith
      | inr (lists, old) ↦ ground arith
    ]
  ]
]

all_empty_lem :
    (lists : PartiallyOrdered)
    → all_empty lists ≡ true
    → ((order : ℕ) → 3 ≤ order → lists order ≡ [])
    → (order : ℕ) → lists order ≡ []
all_empty_lem lists e bounds zero = ground arith
all_empty_lem lists e bounds (suc zero) = ground arith
all_empty_lem lists e bounds (suc (suc zero)) = ground arith
all_empty_lem lists e bounds (suc (suc (suc order))) = bounds (suc (suc (suc order))) (omega arith)

abbrev pair_place : ℕ → ℕ → ℕ → Place
pair_place pri sec order = record { primary = pri; secondary = some sec; order = order }

-- Where the lists of a pair are there, cleaning up returns and takes no listener away.
pub entries-clean_up :
    (pri sec : ℕ) (m : EventManager)
    → is_present (pair_place pri sec 0) m ≡ true
    → ((order : ℕ) → 3 ≤ order → entries (pair_place pri sec order) m ≡ [])
    → (f : ℕ → Option PrimaryInfo) × (clean_up pri sec m ≡ some (record m { listeners = f }))
      × ((q : Place) → entries q (record m { listeners = f }) ≡ entries q m)
unfolding clean_up
entries-clean_up pri sec m present bounds = elim (Option-cases (m.listeners pri)) [
  | inl none_there ↦ absurd (ground arith)
  | inr (info, there) ↦ elim (Option-cases (info.secondaries sec)) [
    | inl none_there ↦ absurd (ground arith)
    | inr (lists, found) ↦ elim (Bool-cases (all_empty lists)) [
      | inr some_left ↦ (m.listeners, ground arith, λ q. refl)
      | inl empty ↦
          let nothing : (order : ℕ) → lists order ≡ [] =
            all_empty_lem lists empty (λ order le. ground (arith, bounds order le)) in
          (
            set_at pri (some (record info { secondaries = set_at sec none info.secondaries }))
                m.listeners,
            ground arith,
            λ q. elim (Option-cases q.secondary) [
              | inl only_primary ↦ ground arith
              | inr (sec', pair) ↦ ground (arith, nothing q.order)
            ],
          )
    ]
  ]
]

-- What a write to the list at a place is seen as at the others.
abbrev pub Writes : EventManager → Place → ListenerList → (ℕ → Option PrimaryInfo) → Type 0
Writes m p ls f =
    ((q : Place)
      → entries q (record m { listeners = f }) ≡ (if place_eq q p then ls else entries q m))
    × ((q : Place) → is_present q m ≡ true → is_present q (record m { listeners = f }) ≡ true)

set_list-Writes :
    (p : Place) (ls : ListenerList) (m : EventManager) (old : ListenerList)
    → list_at p m ≡ some old
    → Writes m p ls (set_list p ls m).listeners
set_list-Writes p ls m old e = (
  λ q. elim (Bool-cases (place_eq q p)) [
    | inl same ↦ ground (arith, list_at-set_list p q ls m old e)
    | inr other ↦ ground (arith, list_at-set_list p q ls m old e)
  ],
  λ q present. ground (arith, list_at-set_list p q ls m old e),
)

-- A node that is in a list is erased.
pub erase_at-Writes :
    (p : Place) (node : ℕ) (m : EventManager) (l : Listener)
    → find_node node (entries p m) ≡ some l
    → (f : ℕ → Option PrimaryInfo) × (erase_at p node m ≡ some (record m { listeners = f }))
      × Writes m p (erase_node node (entries p m)) f
unfolding erase_at find_node
erase_at-Writes p node m l e = elim (Option-cases (list_at p m)) [
  | inl none_there ↦ absurd (ground arith)
  | inr (ls, there) ↦ (
    (set_list p (erase_node node ls) m).listeners,
    rw (erase_at, there, subst (λ o. find_node node (listed o) ≡ some l) there e) refl,
    rw there (set_list-Writes p (erase_node node ls) m ls there),
  )
]

pub add_listener-Writes :
    (p : Place) (function : ℕ) (id : Option ℕ) (m : EventManager)
    → is_present p m ≡ true
    → (f : ℕ → Option PrimaryInfo) × (add_listener p function id m
        ≡ some (record m { listeners = f; next_node = suc m.next_node }))
      × Writes m p (record { node = m.next_node; function = function; id = id } ∷ entries p m) f
unfolding add_listener
add_listener-Writes p function id m present = elim (Option-cases (list_at p m)) [
  | inl none_there ↦ absurd (ground arith)
  | inr (ls, there) ↦ (
    (set_list p (record { node = m.next_node; function = function; id = id } ∷ ls) m).listeners,
    rw (add_listener, there) refl,
    rw there (
        set_list-Writes p (record { node = m.next_node; function = function; id = id } ∷ ls) m ls
          there),
  )
]

pub place_eq→≡ : (p q : Place) → place_eq p q ≡ true → p ≡ q
place_eq→≡ p q e =
    let primary : p.primary ≡ q.primary = ground arith in
    let secondary : p.secondary ≡ q.secondary =
      option_eq→≡ p.secondary q.secondary (ground arith) in
    let order : p.order ≡ q.order = ground arith in
    λ i. record { primary = primary i; secondary = secondary i; order = order i }
  where
    option_eq→≡ : (a b : Option ℕ) → option_eq a b ≡ true → a ≡ b
    option_eq→≡ none none e = refl
    option_eq→≡ none (some b) e = ground arith
    option_eq→≡ (some a) none e = ground arith
    option_eq→≡ (some a) (some b) e = ground arith

pub place_eq_refl : (p : Place) → place_eq p p ≡ true
place_eq_refl p = elim (Option-cases p.secondary) [
  | inl only_primary ↦ ground arith
  | inr (sec, pair) ↦ ground arith
]

pub present-list_at :
    (p : Place) (m : EventManager) → is_present p m ≡ true → list_at p m ≡ some (entries p m)
present-list_at p m present = elim (Option-cases (list_at p m)) [
  | inl none_there ↦ absurd (ground arith)
  | inr (ls, there) ↦ rw there refl
]

pub place_eq_later : (p q : Place) → p.order < q.order → place_eq q p ≡ false
place_eq_later p q lt = elim (Bool-cases (place_eq q p)) [
  | inl same ↦ absurd (omega (arith, ap (λ place. place.order) (place_eq→≡ q p same)))
  | inr other ↦ other
]

pub present_not : (p : Place) (m : EventManager) → is_present p m ≡ false → entries p m ≡ []
present_not p m e = elim (Option-cases (list_at p m)) [
  | inl none_there ↦ rw none_there refl
  | inr (ls, there) ↦ absurd (ground arith)
]
