-- ===== src/Task/Events/Queue.antt =====
-- Events, requests and whole runs of the queue (libcore/src/task/EventManager.cpp).
use sirikata.Base.{
  ℕ, ◌≡◌, refl, ap, subst, ◌∙◌, inl, inr, Bool, true, false, none, some, List, [], ◌∷◌, ◌++◌,
  if◌then◌else◌, arith, Option-cases,
}
use sirikata.Task.Events.{
  EventHistory, canceled, handled, unhandled, Event, PrimaryInfo, EventManager, Call, finished,
  Reply,
}
use sirikata.Task.Events.Run.{Round, call, finish_event, process_event, process_events, is_found}
use sirikata.Task.Events.Places.{is_present}
use sirikata.Task.Events.Tracked.{AllInBounds, IsTracked, IsTracked-listeners}
use sirikata.Task.Events.Valid.{clean_up_after-entries, IsBounded, call-Keeps}
use sirikata.Task.Events.Told.{calls_of, is_canceled, place_of, at_order}
use sirikata.Task.Events.Rounds.{HasPair, none_listen, run_orders-Comes}

abbrev pub all_orders : List ℕ
all_orders = 0 ∷ 1 ∷ 2 ∷ []

pair_of :
    (ev : Event) (m : EventManager) (info : PrimaryInfo) (order : ℕ)
    → m.listeners ev.primary ≡ some info
    → HasPair (is_found (info.secondaries ev.secondary)) ev order m
pair_of ev m info order there = elim (Option-cases (info.secondaries ev.secondary)) [
  | inl none_there ↦ rw none_there (ground arith)
  | inr (lists, found) ↦ rw found (ground arith)
]

pair_present :
    (ev : Event) (m : EventManager) (info : PrimaryInfo)
    → m.listeners ev.primary ≡ some info
    → is_found (info.secondaries ev.secondary) ≡ true
    → is_present (place_of ev (some ev.secondary) 0) m ≡ true
pair_present ev m info there found = subst (λ b. HasPair b ev 0 m) found (pair_of ev m info 0 there)

history_lem :
    (b c : Bool) (h k : EventHistory)
    → b ≡ c
    → (b ≡ false → h ≡ k)
    → (if b then canceled else h) ≡ (if c then canceled else k)
history_lem true c h k e same = ap (λ x. if x then canceled else k) e
history_lem false c h k e same = same refl ∙ ap (λ x. if x then canceled else k) e

ap_append : {cs cs' ds ds' : List Call} → cs ≡ cs' → ds ≡ ds' → cs ++ ds ≡ cs' ++ ds'
ap_append e f = λ i. e i ++ f i

module _ (answer : List Call → Call → Reply) where
  -- The history that an event is told at its end.
  abbrev pub history_of : Event → EventManager → EventHistory
  history_of ev m =
      if is_canceled answer ev (at_order ev m) all_orders m.calls
      then canceled
      else if none_listen (at_order ev m) all_orders
      then unhandled
      else handled

module _ (answer : List Call → Call → Reply) (bounded : IsBounded answer) where
  finish_event-calls :
      (ev : Event) (found : Bool) (r : Round)
      → IsTracked r.manager
      → (found ≡ true → is_present (place_of ev (some ev.secondary) 0) r.manager ≡ true)
      → (m' : EventManager) × (finish_event answer ev found r ≡ some m')
        × IsTracked m'
        × (AllInBounds r.manager.requests → AllInBounds m'.requests)
        × (m'.calls
            ≡ r.manager.calls ++ finished ev.number (if r.cancel then canceled else r.history) ∷ [])
  unfolding finish_event call
  finish_event-calls ev true r t there =
      let (f, done, same) =
        clean_up_after-entries ev.primary (some ev.secondary) 0 r.manager t.in_bounds
          (there refl) in
      let c = finished ev.number (if r.cancel then canceled else r.history) in
      let kept =
        call-Keeps answer bounded c (place_of ev none 0) (record r.manager { listeners = f })
          (IsTracked-listeners r.manager f t same) in
      (
        call answer c (record r.manager { listeners = f }),
        rw (finish_event, done) refl,
        kept.tracked,
        kept.asked,
        refl,
      )
  finish_event-calls ev false r t there =
      let c = finished ev.number (if r.cancel then canceled else r.history) in
      let kept = call-Keeps answer bounded c (place_of ev none 0) r.manager t in
      (call answer c r.manager, refl, kept.tracked, kept.asked, refl)

  -- On a tracked manager, an event whose primary id is known is told, order by order up to one in
  -- which a listener cancels, to the listeners of the primary id and then to those of the pair,
  -- each list from its front; then the event is told what has come of it. An event whose primary id
  -- is not known is dropped. No iterator or list that is met is gone, and the manager stays
  -- tracked.
  pub process_event-calls :
      (ev : Event) (m : EventManager)
      → IsTracked m
      → (m' : EventManager) × (process_event answer ev m ≡ some m')
        × IsTracked m'
        × (AllInBounds m.requests → AllInBounds m'.requests)
        × (m'.calls ≡ (
            if is_found (m.listeners ev.primary)
            then calls_of answer ev (at_order ev m) all_orders m.calls
              ++ finished ev.number (history_of answer ev m) ∷ []
            else m.calls))
  unfolding process_event
  process_event-calls ev m t = elim (Option-cases (m.listeners ev.primary)) [
    | inl unknown ↦ (m, rw (process_event, unknown) refl, t, λ h. h, rw unknown refl)
    | inr (info, there) ↦
        let found = is_found (info.secondaries ev.secondary) in
        let r0 : Round = record { cancel = false; history = unhandled; manager = m } in
        let (r, done, comes) =
          run_orders-Comes answer bounded ev found (at_order ev m) 0 all_orders r0 t refl
            (omega arith, (omega arith, (omega arith, tt))) (λ order. ground arith)
            (λ order le. pair_of ev m info order there) (λ order le. refl) in
        let (m', end, t', asked, calls) = finish_event-calls ev found r comes.tracked (λ e.
          comes.present (place_of ev (some ev.secondary) 0) (pair_present ev m info there e)) in
        (
          m',
          rw (process_event, there, done, end) refl,
          t',
          λ h. asked (comes.asked h),
          rw there (
              calls
              ∙ ap_append comes.calls (
                  ap (λ h. finished ev.number h ∷ [])
                    (history_lem _ _ _ _ comes.cancel comes.history))),
        )
  ]

  pub process_events-IsTracked :
      (evs : List Event) (m : EventManager)
      → IsTracked m
      → AllInBounds m.requests
      → (m' : EventManager) × (process_events answer evs m ≡ some m')
        × IsTracked m'
        × AllInBounds m'.requests
  unfolding process_events
  process_events-IsTracked [] m t asked = (m, refl, t, asked)
  process_events-IsTracked (ev ∷ evs) m t asked =
      let (m1, done, t1, asked1, calls1) = process_event-calls ev m t in
      let (m2, done2, t2, asked2) = process_events-IsTracked evs m1 t1 (asked1 asked) in
      (m2, rw (process_events, done) done2, t2, asked2)
