-- ===== src/Task/Events/Run.antt =====
-- A run of the event queue (libcore/src/task/EventManager.cpp): the requests that wait are carried
-- out, then the listeners are told of the events.
use sirikata.Base.{
  ℕ, Bool, true, false, ◌||◌, Option, none, some, List, [], ◌∷◌, ◌++◌, if◌then◌else◌,
}
use sirikata.Task.Events.{
  SubscriptionId, EventHistory, canceled, handled, unhandled, Event, ListenerRequest, subscription,
  unsubscription, Listener, ListenerList, Place, Call, told, notified, finished, EventManager,
  Reply, is_empty, list_at,
}
use sirikata.Task.Events.Lists.{
  do_subscribe_id, clear_remove_id, listener_at, erase_at, clean_up, subscribe, subscribe_id,
  unsubscribe, fire,
}

-- What one event has come to.
pub record Round : Type 0 where
  pub cancel : Bool
  pub history : EventHistory
  pub manager : EventManager

abbrev pub is_found {ℓ} : {A : Type ℓ} → Option A → Bool
is_found none = false
is_found (some a) = true

-- A secondary id that has no listeners left goes.
abbrev pub clean_up_after : Place → EventManager → Option EventManager
clean_up_after p m = elim p.secondary [ none ↦ some m | some sec ↦ clean_up p.primary sec m ]

-- The functions that are called answer by what has been called before.
module _ (answer : List Call → Call → Reply) where
  unfoldable pub call : Call → EventManager → EventManager
  call c m = record m {
    calls = m.calls ++ c ∷ [];
    unprocessed = m.unprocessed ++ (answer m.calls c).fires;
    requests = m.requests ++ (answer m.calls c).asks;
  }

  unfoldable pub do_unsubscribe : SubscriptionId → Bool → EventManager → Option EventManager
  do_unsubscribe none notify m = some m
  do_unsubscribe (some id) notify m = elim (m.remove_by_id id) [
    | none ↦ some m
    | some info ↦ elim (listener_at info.place info.node m) [
      | none ↦ none
      | some l ↦
          elim (erase_at info.place info.node
            (if notify then call (notified l.function) m else m)) [
              | none ↦ none
              | some m1 ↦ elim (clean_up_after info.place m1) [
                | none ↦ none
                | some m2 ↦ some (clear_remove_id (some id) m2)
              ]
            ]
    ]
  ]

  -- A listener that was told and may go.
  unfoldable pub dismiss : Bool → Place → Listener → EventManager → Option EventManager
  dismiss false p l m = some m
  dismiss true p l m = erase_at p l.node (clear_remove_id l.id m)

  unfoldable pub call_all_listeners :
      Event → Place → ListenerList → EventManager → Option (Bool × EventManager)
  call_all_listeners ev p [] m = some (false, m)
  call_all_listeners ev p (l ∷ ls) m =
      elim (dismiss (answer m.calls (told l.function ev.number)).delete_listener p l
        (call (told l.function ev.number) m)) [
          | none ↦ none
          | some m1 ↦ elim (call_all_listeners ev p ls m1) [
            | none ↦ none
            | some (cancel, m2) ↦
                some ((answer m.calls (told l.function ev.number)).cancel_event || cancel, m2)
          ]
        ]

  -- The listeners of one list.
  unfoldable pub visit : Event → Place → Round → Option Round
  visit ev p r = elim (list_at p r.manager) [
    | none ↦ none
    | some ls ↦ elim (call_all_listeners ev p ls r.manager) [
      | none ↦ none
      | some (cancel, m) ↦ some (record {
        cancel = cancel || r.cancel;
        history = if is_empty ls then r.history else handled;
        manager = m;
      })
    ]
  ]

  -- One order: the listeners of the primary id, then those of the pair, if there are any.
  unfoldable pub run_order : Event → Bool → ℕ → Round → Option Round
  run_order ev found order r =
      elim (visit ev (record { primary = ev.primary; secondary = none; order = order }) r) [
        | none ↦ none
        | some r1 ↦
            if found
            then visit ev
                (record { primary = ev.primary; secondary = some ev.secondary; order = order }) r1
            else some r1
      ]

  -- No order is begun after one in which a listener cancelled.
  unfoldable pub run_orders : Event → Bool → List ℕ → Round → Option Round
  run_orders ev found [] r = some r
  run_orders ev found (order ∷ orders) r = elim r.cancel [
    | true ↦ some r
    | false ↦ elim (run_order ev found order r) [
      | none ↦ none
      | some r1 ↦ run_orders ev found orders r1
    ]
  ]

  unfoldable pub finish_event : Event → Bool → Round → Option EventManager
  finish_event ev found r =
      elim (if found then clean_up ev.primary ev.secondary r.manager else some r.manager) [
        | none ↦ none
        | some m ↦ some (call (finished ev.number (if r.cancel then canceled else r.history)) m)
      ]

  unfoldable pub process_event : Event → EventManager → Option EventManager
  process_event ev m = elim (m.listeners ev.primary) [
    | none ↦ some m
    | some info ↦
        elim (run_orders ev (is_found (info.secondaries ev.secondary)) (0 ∷ 1 ∷ 2 ∷ [])
          (record { cancel = false; history = unhandled; manager = m })) [
            | none ↦ none
            | some r ↦ finish_event ev (is_found (info.secondaries ev.secondary)) r
          ]
  ]

  unfoldable pub do_request : ListenerRequest → EventManager → Option EventManager
  do_request (subscription id primary secondary listener order) m =
      do_subscribe_id id (record { primary = primary; secondary = secondary; order = order })
        listener m
  do_request (unsubscription id notify) m = do_unsubscribe id notify m

  unfoldable pub do_requests : List ListenerRequest → EventManager → Option EventManager
  do_requests [] m = some m
  do_requests (r ∷ rs) m = elim (do_request r m) [ none ↦ none | some m1 ↦ do_requests rs m1 ]

  unfoldable pub process_events : List Event → EventManager → Option EventManager
  process_events [] m = some m
  process_events (ev ∷ evs) m = elim (process_event ev m) [
    | none ↦ none
    | some m1 ↦ process_events evs m1
  ]

  -- What is requested or fired meanwhile waits for the next run.
  unfoldable pub process_event_queue : EventManager → Option EventManager
  process_event_queue m =
      elim (do_requests m.requests (record m { unprocessed = []; requests = [] })) [
        | none ↦ none
        | some m1 ↦ process_events m.unprocessed m1
      ]

-- A use of an event manager from outside.
pub data Action : Type 0 where
  subscribing subscribing_id : (primary : ℕ) (secondary : Option ℕ) (listener order : ℕ) → Action
  unsubscribing : (id : SubscriptionId) (notify : Bool) → Action
  firing : Event → Action
  processing : Action

module _ (answer : List Call → Call → Reply) where
  -- An exception of `subscribe` leaves the manager as it was.
  abbrev pub act : Action → EventManager → Option EventManager
  act (subscribing primary secondary listener order) m =
      elim (subscribe primary secondary listener order m) [ none ↦ some m | some m' ↦ some m' ]
  act (subscribing_id primary secondary listener order) m =
      elim (subscribe_id primary secondary listener order m) [
        | none ↦ some m
        | some (id, m') ↦ some m'
      ]
  act (unsubscribing id notify) m = some (unsubscribe id notify m)
  act (firing ev) m = some (fire ev m)
  act processing m = process_event_queue answer m

  abbrev pub act_all : List Action → EventManager → Option EventManager
  act_all [] m = some m
  act_all (a ∷ more) m = elim (act a m) [ none ↦ none | some m' ↦ act_all more m' ]
