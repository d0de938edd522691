-- ===== src/Task/Events/Requests.antt =====
-- Requests, whole runs of the queue, and any use of an event manager
-- (libcore/src/task/EventManager.cpp).
use sirikata.Base.{
  suc, ◌≡◌, refl, inl, inr, none, some, List, [], ◌∷◌, ◌++◌, arith, Bool-cases, Option-cases, ltb,
  ltb→lt,
}
use sirikata.Task.Events.{
  ListenerRequest, subscription, unsubscription, EventManager, Call, Reply, num_eventorder,
  new_manager,
}
use sirikata.Task.Events.Lists.{subscribe, subscribe_id, unsubscribe, fire, push_request}
use sirikata.Task.Events.Run.{
  process_event_queue, Action, subscribing, subscribing_id, unsubscribing, firing, processing, act,
  act_all, do_request, do_requests, do_unsubscribe,
}
use sirikata.Task.Events.Tracked.{AllInBounds, InBounds, IsTracked}
use sirikata.Task.Events.Valid.{IsBounded, do_subscribe_id-IsTracked}
use sirikata.Task.Events.Queue.{process_events-IsTracked}
use sirikata.Task.Events.Unsubscribe.{do_unsubscribe-entries}

AllInBounds-push :
    (r : ListenerRequest) (rs : List ListenerRequest)
    → InBounds r
    → AllInBounds rs
    → AllInBounds (rs ++ r ∷ [])
AllInBounds-push r [] h k = (h, tt)
AllInBounds-push r (s ∷ rs) h k = (k.0, AllInBounds-push r rs h k.1)

module _ (answer : List Call → Call → Reply) (bounded : IsBounded answer) where
  do_request-IsTracked :
      (r : ListenerRequest) (m : EventManager)
      → IsTracked m
      → InBounds r
      → AllInBounds m.requests
      → (m' : EventManager) × (do_request answer r m ≡ some m')
        × IsTracked m'
        × AllInBounds m'.requests
  unfolding do_request do_unsubscribe
  do_request-IsTracked (subscription id primary secondary listener order) m t h asked =
      let (m', done, t', same, write) =
        do_subscribe_id-IsTracked id
          (record { primary = primary; secondary = secondary; order = order }) listener m t h in
      (m', done, t', rw same asked)
  do_request-IsTracked (unsubscription none notify) m t h asked = (m, refl, t, asked)
  do_request-IsTracked (unsubscription (some id) notify) m t h asked =
      elim (Option-cases (m.remove_by_id id)) [
        | inl unknown ↦ (m, rw (do_unsubscribe, unknown) refl, t, asked)
        | inr (info, known) ↦
            let (m', l, done, t', kept, at, write, gone, calls) =
              do_unsubscribe-entries answer bounded id notify m info t known in
            (m', done, t', kept asked)
      ]

  do_requests-IsTracked :
      (rs : List ListenerRequest) (m : EventManager)
      → IsTracked m
      → AllInBounds rs
      → AllInBounds m.requests
      → (m' : EventManager) × (do_requests answer rs m ≡ some m')
        × IsTracked m'
        × AllInBounds m'.requests
  unfolding do_requests
  do_requests-IsTracked [] m t h asked = (m, refl, t, asked)
  do_requests-IsTracked (r ∷ rs) m t h asked =
      let (m1, done, t1, asked1) = do_request-IsTracked r m t h.0 asked in
      let (m2, done2, t2, asked2) = do_requests-IsTracked rs m1 t1 h.1 asked1 in
      (m2, rw (do_requests, done) done2, t2, asked2)

  process_event_queue-IsTracked :
      (m : EventManager)
      → IsTracked m
      → AllInBounds m.requests
      → (m' : EventManager) × (process_event_queue answer m ≡ some m')
        × IsTracked m'
        × AllInBounds m'.requests
  unfolding process_event_queue
  process_event_queue-IsTracked m t asked =
      let cleared : IsTracked (record m { unprocessed = []; requests = [] }) = record {
        in_bounds = t.in_bounds;
        below = t.below;
        distinct = t.distinct;
        tracked = t.tracked;
      } in
      let (m1, done, t1, asked1) = do_requests-IsTracked m.requests _ cleared asked tt in
      let (m2, done2, t2, asked2) =
        process_events-IsTracked answer bounded m.unprocessed m1 t1 asked1 in
      (m2, rw (process_event_queue, done) done2, t2, asked2)

  act-IsTracked :
      (a : Action) (m : EventManager)
      → IsTracked m
      → AllInBounds m.requests
      → (m' : EventManager) × (act answer a m ≡ some m') × IsTracked m' × AllInBounds m'.requests
  unfolding subscribe subscribe_id unsubscribe fire push_request
  act-IsTracked (subscribing primary secondary listener order) m t asked =
      elim (Bool-cases (ltb order num_eventorder)) [
        | inl valid ↦ (
          push_request (subscription none primary secondary listener order) m,
          ground arith,
          record {
            in_bounds = t.in_bounds;
            below = t.below;
            distinct = t.distinct;
            tracked = t.tracked;
          },
          AllInBounds-push _ m.requests (ltb→lt _ _ valid) asked,
        )
        | inr invalid ↦ (m, ground arith, t, asked)
      ]
  act-IsTracked (subscribing_id primary secondary listener order) m t asked =
      elim (Bool-cases (ltb order num_eventorder)) [
        | inl valid ↦ (
          push_request (subscription (some m.next_id) primary secondary listener order)
              (record m { next_id = suc m.next_id }),
          ground arith,
          record {
            in_bounds = t.in_bounds;
            below = t.below;
            distinct = t.distinct;
            tracked = t.tracked;
          },
          AllInBounds-push _ m.requests (ltb→lt _ _ valid) asked,
        )
        | inr invalid ↦ (m, ground arith, t, asked)
      ]
  act-IsTracked (unsubscribing id notify) m t asked = (
    unsubscribe id notify m,
    refl,
    record { in_bounds = t.in_bounds; below = t.below; distinct = t.distinct; tracked = t.tracked },
    AllInBounds-push (unsubscription id notify) m.requests tt asked,
  )
  act-IsTracked (firing ev) m t asked = (
    fire ev m,
    refl,
    record { in_bounds = t.in_bounds; below = t.below; distinct = t.distinct; tracked = t.tracked },
    asked,
  )
  act-IsTracked processing m t asked = process_event_queue-IsTracked m t asked

  acts-IsTracked :
      (actions : List Action) (m : EventManager)
      → IsTracked m
      → AllInBounds m.requests
      → (m' : EventManager) × (act_all answer actions m ≡ some m') × IsTracked m'
  acts-IsTracked [] m t asked = (m, refl, t)
  acts-IsTracked (a ∷ more) m t asked =
      let (m1, done, t1, asked1) = act-IsTracked a m t asked in
      let (m2, done2, t2) = acts-IsTracked more m1 t1 asked1 in (m2, rw (act_all, done) done2, t2)

  -- However a new event manager is used, with functions that request within bounds what they
  -- request while they are called, no iterator, list or secondary id is met that is gone, and at
  -- the end each id that it keeps still leads to a listener with that id.
  pub act_all-IsTracked :
      (actions : List Action)
      → (m' : EventManager) × (act_all answer actions new_manager ≡ some m') × IsTracked m'
  unfolding new_manager
  act_all-IsTracked actions =
      acts-IsTracked actions new_manager
        (record {
          in_bounds = λ p le. refl;
          below = λ p. tt;
          distinct = λ p. tt;
          tracked = λ id info e. absurd (ground arith);
        })
        tt
