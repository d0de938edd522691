-- ===== src/Task/Events.antt =====
-- `EventManager` (libcore/src/task/EventManager.cpp, .hpp): listeners subscribe to events by a
-- primary id, or by a pair of ids, and are told of the events of the queue in three rounds.
-- Subscriptions wait in a queue of their own until the next run. Ids, listeners and events are
-- numbers; a node of a listener list is the number of its allocation, an iterator is the node at
-- which it stands, and a pointer to a list is a place. `none` is a fault: an iterator or a pointer
-- that is not valid.
use sirikata.Base.{
  ℕ, zero, suc, Bool, true, false, not, ◌||◌, ◌&&◌, Option, none, some, List, [], ◌∷◌, ◌++◌, ltb,
  ◌==◌, if◌then◌else◌,
}
pub mod Lists
pub mod Run
pub mod Places
pub mod Nodes
pub mod Tracked
pub mod Valid
pub mod Told
pub mod Rounds
pub mod Queue
pub mod Unsubscribe
pub mod Requests
mod Tests

-- `SubscriptionId`; `none` is `null()`.
abbrev pub SubscriptionId : Type 0
SubscriptionId = Option ℕ

abbrev pub num_eventorder : ℕ
num_eventorder = 3

pub data EventHistory : Type 0 where
  canceled handled unhandled : EventHistory

pub record Event : Type 0 where
  pub number : ℕ
  pub primary : ℕ
  pub secondary : ℕ

-- A subscription without a secondary id is one to the primary id only.
pub data ListenerRequest : Type 0 where
  subscription :
      (id : SubscriptionId) (primary : ℕ) (secondary : Option ℕ) (listener : ℕ) (order : ℕ)
      → ListenerRequest
  unsubscription : (id : SubscriptionId) (notify : Bool) → ListenerRequest

pub record Listener : Type 0 where
  pub node : ℕ
  pub function : ℕ
  pub id : SubscriptionId

abbrev pub ListenerList : Type 0
ListenerList = List Listener

-- A list for each order.
abbrev pub PartiallyOrdered : Type 0
PartiallyOrdered = ℕ → ListenerList

pub record PrimaryInfo : Type 0 where
  pub only_primary : PartiallyOrdered
  pub secondaries : ℕ → Option PartiallyOrdered

pub record Place : Type 0 where
  pub primary : ℕ
  pub secondary : Option ℕ
  pub order : ℕ

-- `EventSubscriptionInfo`; its secondary map and id are those of the place.
pub record SubscriptionInfo : Type 0 where
  pub place : Place
  pub node : ℕ

-- The calls of functions that are not the event manager's, in order: a listener with an event, a
-- listener with no event, and an event at its end.
pub data Call : Type 0 where
  told : (function event : ℕ) → Call
  notified : (function : ℕ) → Call
  finished : (event : ℕ) → EventHistory → Call

pub record EventManager : Type 0 where
  pub listeners : ℕ → Option PrimaryInfo
  pub unprocessed : List Event
  pub requests : List ListenerRequest
  pub remove_by_id : ℕ → Option SubscriptionInfo
  pub next_id : ℕ
  pub next_node : ℕ
  pub calls : List Call

unfoldable pub new_manager : EventManager
new_manager = record {
  listeners = λ primary. none;
  unprocessed = [];
  requests = [];
  remove_by_id = λ id. none;
  next_id = 0;
  next_node = 0;
  calls = [];
}

-- What a function that is called answers, and what it fires and requests meanwhile.
pub record Reply : Type 0 where
  pub delete_listener : Bool
  pub cancel_event : Bool
  pub fires : List Event
  pub asks : List ListenerRequest

abbrev pub set_at {ℓ} : {A : Type ℓ} → ℕ → A → (ℕ → A) → ℕ → A
set_at k a f i = if i == k then a else f i

abbrev pub is_empty : ListenerList → Bool
is_empty [] = true
is_empty (l ∷ ls) = false

-- The list at a place.

abbrev pub list_in : Option ℕ → ℕ → PrimaryInfo → Option ListenerList
list_in none order info = some (info.only_primary order)
list_in (some sec) order info = elim (info.secondaries sec) [
  | none ↦ none
  | some lists ↦ some (lists order)
]

abbrev pub list_at : Place → EventManager → Option ListenerList
list_at p m = elim (m.listeners p.primary) [
  | none ↦ none
  | some info ↦ list_in p.secondary p.order info
]

abbrev pub set_in : Option ℕ → ℕ → ListenerList → PrimaryInfo → PrimaryInfo
set_in none order ls info = record info { only_primary = set_at order ls info.only_primary }
set_in (some sec) order ls info = elim (info.secondaries sec) [
  | none ↦ info
  | some lists ↦ record info {
    secondaries = set_at sec (some (set_at order ls lists)) info.secondaries;
  }
]

abbrev pub set_list : Place → ListenerList → EventManager → EventManager
set_list p ls m = record m {
  listeners = elim (m.listeners p.primary) [
    | none ↦ m.listeners
    | some info ↦ set_at p.primary (some (set_in p.secondary p.order ls info)) m.listeners
  ];
}
