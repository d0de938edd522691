-- ===== src/Task/Events/Lists.antt =====
-- Subscription and removal (libcore/src/task/EventManager.cpp): the requests that the public
-- functions make, and what is done to the lists and maps when they are carried out.
use sirikata.Base.{ℕ, suc, Bool, ◌&&◌, Option, none, some, [], ◌∷◌, ◌++◌, ltb, ◌==◌, if◌then◌else◌}
use sirikata.Task.Events.{
  Event, EventManager, Listener, ListenerList, ListenerRequest, PartiallyOrdered, Place,
  PrimaryInfo, SubscriptionId, SubscriptionInfo, is_empty, list_at, num_eventorder, set_at,
  set_list, subscription, unsubscription,
}

-- Subscription.

unfoldable pub push_request : ListenerRequest → EventManager → EventManager
push_request r m = record m { requests = m.requests ++ r ∷ [] }

-- Both overloads of `subscribe`; `none` is the exception.
unfoldable pub subscribe : ℕ → Option ℕ → ℕ → ℕ → EventManager → Option EventManager
subscribe primary secondary listener order m =
    if ltb order num_eventorder
    then some (push_request (subscription none primary secondary listener order) m)
    else none

-- Both overloads of `subscribeId`, with the new id.
unfoldable pub subscribe_id : ℕ → Option ℕ → ℕ → ℕ → EventManager → Option (ℕ × EventManager)
subscribe_id primary secondary listener order m =
    if ltb order num_eventorder
    then some (
      m.next_id,
      push_request (subscription (some m.next_id) primary secondary listener order)
          (record m { next_id = suc m.next_id }),
    )
    else none

unfoldable pub unsubscribe : SubscriptionId → Bool → EventManager → EventManager
unsubscribe id notify m = push_request (unsubscription id notify) m

unfoldable pub fire : Event → EventManager → EventManager
fire ev m = record m { unprocessed = m.unprocessed ++ ev ∷ [] }

abbrev pub no_listeners : PartiallyOrdered
no_listeners order = []

unfoldable pub insert_pri_id : ℕ → EventManager → EventManager
insert_pri_id primary m = record m {
  listeners = elim (m.listeners primary) [
    | none ↦
        set_at primary (some (record { only_primary = no_listeners; secondaries = λ sec. none }))
          m.listeners
    | some info ↦ m.listeners
  ];
}

abbrev pub with_secondary : ℕ → PrimaryInfo → PrimaryInfo
with_secondary sec info = elim (info.secondaries sec) [
  | none ↦ record info { secondaries = set_at sec (some no_listeners) info.secondaries }
  | some lists ↦ info
]

-- For a subscription to a pair of ids only.
unfoldable pub insert_sec_id : ℕ → Option ℕ → EventManager → EventManager
insert_sec_id primary secondary m = record m {
  listeners = elim secondary [
    | none ↦ m.listeners
    | some sec ↦ elim (m.listeners primary) [
      | none ↦ m.listeners
      | some info ↦ set_at primary (some (with_secondary sec info)) m.listeners
    ]
  ];
}

-- At the front of the list; the iterator is the new node.
unfoldable pub add_listener : Place → ℕ → SubscriptionId → EventManager → Option EventManager
add_listener p function id m = elim (list_at p m) [
  | none ↦ none
  | some ls ↦
      some
        (record (set_list p (record { node = m.next_node; function = function; id = id } ∷ ls) m) {
          next_node = suc m.next_node;
        })
]

-- `mRemoveById.insert`: an id that is in the map keeps its entry.
abbrev pub remember :
    SubscriptionId → SubscriptionInfo → (ℕ → Option SubscriptionInfo) → ℕ → Option SubscriptionInfo
remember none info map = map
remember (some id) info map = elim (map id) [ none ↦ set_at id (some info) map | some old ↦ map ]

unfoldable pub do_subscribe_id : SubscriptionId → Place → ℕ → EventManager → Option EventManager
do_subscribe_id id p function m =
    elim (add_listener p function id
      (insert_sec_id p.primary p.secondary (insert_pri_id p.primary m))) [
        | none ↦ none
        | some m' ↦ some (record m' {
          remove_by_id = remember id (record { place = p; node = m.next_node }) m'.remove_by_id;
        })
      ]

-- Removal.

abbrev pub without : SubscriptionId → (ℕ → Option SubscriptionInfo) → ℕ → Option SubscriptionInfo
without none map = map
without (some id) map = set_at id none map

unfoldable pub clear_remove_id : SubscriptionId → EventManager → EventManager
clear_remove_id id m = record m { remove_by_id = without id m.remove_by_id }

unfoldable pub find_node : ℕ → ListenerList → Option Listener
find_node node [] = none
find_node node (l ∷ ls) = if l.node == node then some l else find_node node ls

abbrev pub erase_node : ℕ → ListenerList → ListenerList
erase_node node [] = []
erase_node node (l ∷ ls) = if l.node == node then ls else l ∷ erase_node node ls

-- The listener at an iterator into the list at a place.
unfoldable pub listener_at : Place → ℕ → EventManager → Option Listener
listener_at p node m = elim (list_at p m) [ none ↦ none | some ls ↦ find_node node ls ]

unfoldable pub erase_at : Place → ℕ → EventManager → Option EventManager
erase_at p node m = elim (list_at p m) [
  | none ↦ none
  | some ls ↦ elim (find_node node ls) [
    | none ↦ none
    | some l ↦ some (set_list p (erase_node node ls) m)
  ]
]

abbrev pub all_empty : PartiallyOrdered → Bool
all_empty lists = is_empty (lists 0) && is_empty (lists 1) && is_empty (lists 2)

-- The lists of a secondary id go when they are empty.
unfoldable pub clean_up : ℕ → ℕ → EventManager → Option EventManager
clean_up primary sec m = elim (m.listeners primary) [
  | none ↦ none
  | some info ↦ elim (info.secondaries sec) [
    | none ↦ none
    | some lists ↦
        if all_empty lists
        then some (record m {
          listeners =
              set_at primary (some (record info { secondaries = set_at sec none info.secondaries }))
                m.listeners;
        })
        else some m
  ]
]
