-- ===== src/Util/ListenerProvider.antt =====
-- `Provider` (libcore/src/util/ListenerProvider.hpp): a vector of listeners, and a map from each of
-- them to its place in the vector, which is kept while there are at least two. A listener is a
-- number, a failed assert is `none`. What a listener does while it is told is a parameter.
use sirikata.Base.{
  ℕ, zero, suc, ◌-◌, ◌≡◌, Option, none, some, List, [], ◌∷◌, ◌++◌, length, take, get_elem?, ltb,
  ◌==◌, if◌then◌else◌,
}
pub mod Slots
pub mod Index
pub mod Removal
pub mod Notify
mod Tests

-- The calls of the virtual functions, and of the function that `notify` gets.
pub data Call : Type 0 where
  listener_added : ℕ → Call
  listener_removed : ℕ → Call
  first_listener_added : ℕ → Call
  last_listener_removed : ℕ → Call
  notified : ℕ → Call

-- The calls have the newest first.
pub record Provider : Type 0 where
  pub listeners : List ℕ
  pub listener_index : ℕ → Option ℕ
  pub calls : List Call

abbrev pub map_insert : ℕ → ℕ → (ℕ → Option ℕ) → ℕ → Option ℕ
map_insert k v m = λ j. if j == k then some v else m j

abbrev pub map_erase : ℕ → (ℕ → Option ℕ) → ℕ → Option ℕ
map_erase k m = λ j. if j == k then none else m j

unfoldable pub set_elem : ℕ → ℕ → List ℕ → List ℕ
set_elem i p [] = []
set_elem zero p (x ∷ xs) = p ∷ xs
set_elem (suc i) p (x ∷ xs) = x ∷ set_elem i p xs

abbrev pub log_call : Call → Provider → Provider
log_call c s = record s { calls = c ∷ s.calls }

abbrev pub push_back : ℕ → Provider → Provider
push_back p s = record s { listeners = s.listeners ++ p ∷ [] }

-- `addListener` by the number of listeners that are there.
abbrev pub add_to : List ℕ → ℕ → Provider → Provider
add_to [] p s = log_call (first_listener_added p) (push_back p s)
add_to (q ∷ []) p s =
    push_back p (record s { listener_index = map_insert p 1 (map_insert q 0 s.listener_index) })
add_to (q ∷ r ∷ xs) p s =
    push_back p (record s { listener_index = map_insert p (length s.listeners) s.listener_index })

unfoldable pub add_listener : ℕ → Provider → Provider
add_listener p s = log_call (listener_added p) (add_to s.listeners p s)

-- `removeListener` with two listeners or more, where the listener stands in the map and the last
-- listener is known: the last one takes its place.
unfoldable pub remove_at : ℕ → ℕ → ℕ → Provider → Provider
remove_at p place back s =
    let moved : Provider = if suc place == length s.listeners then s else record s {
      listener_index = map_insert back place s.listener_index;
      listeners = set_elem place back s.listeners;
    } in
    record moved {
      listeners = take (length moved.listeners - 1) moved.listeners;
      listener_index = map_erase p moved.listener_index;
    }

abbrev pub remove_from : List ℕ → ℕ → Provider → Option Provider
remove_from [] p s = none
remove_from (q ∷ []) p s =
    if q == p
    then some (record (log_call (last_listener_removed p) s) {
      listeners = [];
      listener_index = λ j. none;
    })
    else none
remove_from (q ∷ r ∷ xs) p s = elim (s.listener_index p) [
  | none ↦ none
  | some place ↦ elim (get_elem? s.listeners (length s.listeners - 1)) [
    | none ↦ none
    | some back ↦ some (remove_at p place back s)
  ]
]

unfoldable pub remove_listener : ℕ → Provider → Option Provider
remove_listener p s = remove_from s.listeners p (log_call (listener_removed p) s)

-- What a listener does while it is told: it adds others, or removes itself.
pub data Change : Type 0 where
  add : ℕ → Change
  remove_self : Change

unfoldable pub change_all : ℕ → List Change → Provider → Option Provider
change_all p [] s = some s
change_all p (add q ∷ changes) s = change_all p changes (add_listener q s)
change_all p (remove_self ∷ changes) s = elim (remove_listener p s) [
  | none ↦ none
  | some s' ↦ change_all p changes s'
]

module _ (react : Provider → ℕ → List Change) where
  -- The call of one listener.
  abbrev pub tell : ℕ → Provider → Option Provider
  tell p s = let s' : Provider = log_call (notified p) s in change_all p (react s' p) s'

  -- The loop of `notify` from the place below `i` down, as long as the place is there.
  unfoldable pub notify_below : ℕ → Provider → Option Provider
  notify_below zero s = some s
  notify_below (suc i) s = elim (get_elem? s.listeners i) [
    | none ↦ some s
    | some p ↦ elim (tell p s) [ none ↦ none | some s' ↦ notify_below i s' ]
  ]

  unfoldable pub notify : Provider → Option Provider
  notify s = notify_below (length s.listeners) s
