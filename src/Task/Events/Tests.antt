-- ===== src/Task/Events/Tests.antt =====
-- Runs of an event manager (libcore/src/task/EventManager.cpp).
use sirikata.Base.{
  ℕ, ◌≡◌, refl, sym, ap, subst, true, false, Option, none, some, List, [], ◌∷◌, ◌++◌, ◌==◌,
  if◌then◌else◌,
}
use sirikata.Task.Events.{
  canceled, Event, Listener, Place, SubscriptionInfo, Call, told, notified, finished, EventManager,
  Reply, new_manager,
}
use sirikata.Task.Events.Lists.{
  find_node, erase_node, subscribe, subscribe_id, unsubscribe, fire, push_request, do_subscribe_id,
  insert_pri_id, insert_sec_id, add_listener, clear_remove_id, erase_at, listener_at, clean_up,
}
use sirikata.Task.Events.Run.{
  call, do_unsubscribe, dismiss, call_all_listeners, visit, run_order, run_orders, finish_event,
  process_event, do_request, do_requests, process_events, process_event_queue, is_found, Action,
  subscribing, subscribing_id, unsubscribing, firing, processing, act_all,
}
use sirikata.Task.Events.Places.{entries, place_eq}
use sirikata.Task.Events.Tracked.{IsTracked, AllInBounds}
use sirikata.Task.Events.Valid.{IsBounded}
use sirikata.Task.Events.Told.{calls_of, at_order}
use sirikata.Task.Events.Queue.{all_orders, history_of, process_event-calls}
use sirikata.Task.Events.Requests.{act_all-IsTracked}
use sirikata.Task.Events.Unsubscribe.{do_unsubscribe-entries}

-- Listener 2 cancels; listener 3 is for one event only.
abbrev answer : List Call → Call → Reply
answer calls (told function event) = record {
  delete_listener = function == 3;
  cancel_event = function == 2;
  fires = [];
  asks = [];
}
answer calls c = record { delete_listener = false; cancel_event = false; fires = []; asks = [] }

answer-IsBounded : IsBounded answer
answer-IsBounded calls (told function event) = tt
answer-IsBounded calls (notified function) = tt
answer-IsBounded calls (finished event history) = tt

abbrev event : ℕ → Event
event number = record { number = number; primary = 7; secondary = 5 }

abbrev listening : List Action
listening =
    subscribing_id 7 (some 5) 1 1
    ∷ subscribing_id 7 none 3 0
    ∷ subscribing 7 (some 5) 2 2
    ∷ subscribing 7 none 4 2
    ∷ processing
    ∷ []

abbrev actions : List Action
actions =
    listening
    ++ firing (event 9)
      ∷ processing
      ∷ unsubscribing (some 0) true
      ∷ firing (event 10)
      ∷ processing
      ∷ []

abbrev from_some : Option EventManager → EventManager
from_some none = new_manager
from_some (some m) = m

-- The listener of one event is told once, and no other order is begun after a cancellation.
actions-calls :
    (from_some (act_all answer actions new_manager)).calls
    ≡ told 3 9
      ∷ told 1 9
      ∷ told 4 9
      ∷ told 2 9
      ∷ finished 9 canceled
      ∷ notified 1
      ∷ told 4 10
      ∷ told 2 10
      ∷ finished 10 canceled
      ∷ []
unfolding call do_unsubscribe dismiss call_all_listeners visit run_order run_orders finish_event
    process_event do_request do_requests process_events process_event_queue new_manager find_node
    subscribe subscribe_id unsubscribe fire push_request do_subscribe_id insert_pri_id insert_sec_id
    add_listener clear_remove_id erase_at listener_at clean_up
actions-calls = refl

act_all-IsTracked_example :
    (m' : EventManager) × (act_all answer actions new_manager ≡ some m') × IsTracked m'
act_all-IsTracked_example = act_all-IsTracked answer answer-IsBounded actions

abbrev busy : EventManager
busy = from_some (act_all answer listening new_manager)

busy-IsTracked : IsTracked busy
busy-IsTracked =
    let (m, done, tracked) = act_all-IsTracked answer answer-IsBounded listening in
    subst IsTracked (sym (ap from_some done)) tracked

process_event-calls_example :
    (m' : EventManager) × (process_event answer (event 9) busy ≡ some m')
    × IsTracked m'
    × (AllInBounds busy.requests → AllInBounds m'.requests)
    × (m'.calls ≡ (
        if is_found (busy.listeners 7)
        then calls_of answer (event 9) (at_order (event 9) busy) all_orders busy.calls
          ++ finished 9 (history_of answer (event 9) busy) ∷ []
        else busy.calls))
process_event-calls_example =
    process_event-calls answer answer-IsBounded (event 9) busy busy-IsTracked

abbrev first_subscription : SubscriptionInfo
first_subscription = record {
  place = record { primary = 7; secondary = some 5; order = 1 };
  node = 0;
}

do_unsubscribe-entries_example :
    (m' : EventManager) × (l : Listener) × (do_unsubscribe answer (some 0) true busy ≡ some m')
    × IsTracked m'
    × (AllInBounds busy.requests → AllInBounds m'.requests)
    × (find_node 0 (entries first_subscription.place busy) ≡ some l)
    × ((q : Place)
        → entries q m' ≡ (
            if place_eq q first_subscription.place
            then erase_node 0 (entries first_subscription.place busy)
            else entries q busy))
    × (m'.remove_by_id 0 ≡ none)
    × (m'.calls ≡ busy.calls ++ (if true then notified l.function ∷ [] else []))
unfolding call do_unsubscribe dismiss call_all_listeners visit run_order run_orders finish_event
    process_event do_request do_requests process_events process_event_queue new_manager find_node
    subscribe subscribe_id unsubscribe fire push_request do_subscribe_id insert_pri_id insert_sec_id
    add_listener clear_remove_id erase_at listener_at clean_up
do_unsubscribe-entries_example =
    do_unsubscribe-entries answer answer-IsBounded 0 true busy first_subscription busy-IsTracked
      refl
