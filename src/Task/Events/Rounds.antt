-- ===== src/Task/Events/Rounds.antt =====
-- The rounds of one event (libcore/src/task/EventManager.cpp): one order after the other, up to one
-- in which a listener cancels, and the end of the event.
use sirikata.Base.{
  ℕ, suc, ◌≤◌, ◌<◌, ◌≡◌, refl, ap, subst, ◌∙◌, inl, inr, Bool, true, false, ◌||◌, ◌&&◌, none, some,
  List, [], ◌∷◌, ◌++◌, if◌then◌else◌, append-nil, arith, Bool-cases,
}
use sirikata.Task.Events.{
  EventHistory, handled, Event, ListenerList, Place, EventManager, Call, Reply, is_empty,
}
use sirikata.Task.Events.Run.{Round, run_order, run_orders}
use sirikata.Task.Events.Places.{entries, is_present}
use sirikata.Task.Events.Tracked.{AllInBounds, IsTracked}
use sirikata.Task.Events.Valid.{cancels, IsBounded}
use sirikata.Task.Events.Told.{
  calls_of, is_canceled, place_of, at_order, Leaves, Keeps-Leaves, Leaves-trans, Tells,
  Tells-append, told_round, visit-Keeps,
}

-- The lists of the pair are there, or known to be empty.
abbrev pub HasPair : Bool → Event → ℕ → EventManager → Type 0
HasPair true ev order m = is_present (place_of ev (some ev.secondary) order) m ≡ true
HasPair false ev order m = entries (place_of ev (some ev.secondary) order) m ≡ []

abbrev pub Ascending : ℕ → List ℕ → Type 0
Ascending k [] = Unit {0}
Ascending k (order ∷ orders) = (k ≤ order) × Ascending (suc order) orders

abbrev pub none_listen : (ℕ → ListenerList) → List ℕ → Bool
none_listen lists [] = true
none_listen lists (order ∷ orders) = is_empty (lists order) && none_listen lists orders

history_and :
    (a b : Bool) (h : EventHistory)
    → (if b then (if a then h else handled) else handled) ≡ (if a && b then h else handled)
history_and true b h = refl
history_and false true h = refl
history_and false false h = refl

HasPair-later :
    (found : Bool) (ev : Event) (k order : ℕ) (m m' : EventManager)
    → Leaves k m m'
    → k < order
    → HasPair found ev order m
    → HasPair found ev order m'
HasPair-later true ev k order m m' leaves lt h =
    leaves.present (place_of ev (some ev.secondary) order) h
HasPair-later false ev k order m m' leaves lt h =
    leaves.later (place_of ev (some ev.secondary) order) lt ∙ h

at_order-later :
    (ev : Event) (k order : ℕ) (m m' : EventManager)
    → Leaves k m m'
    → k < order
    → at_order ev m' order ≡ at_order ev m order
at_order-later ev k order m m' leaves lt = λ i.
    leaves.later (place_of ev none order) lt i
    ++ leaves.later (place_of ev (some ev.secondary) order) lt i

module _ (answer : List Call → Call → Reply) (bounded : IsBounded answer) where
  run_order-Tells :
      (ev : Event) (found : Bool) (order : ℕ) (r : Round)
      → IsTracked r.manager
      → is_present (place_of ev none order) r.manager ≡ true
      → HasPair found ev order r.manager
      → (r' : Round) × (run_order answer ev found order r ≡ some r')
        × Leaves order r.manager r'.manager
        × Tells answer ev (at_order ev r.manager order) r r'
  unfolding run_order
  run_order-Tells ev true order r t here there =
      let (m1, done1, k1, calls1) =
        visit-Keeps answer bounded ev (place_of ev none order) r t here in
      let r1 : Round = told_round answer bounded ev (place_of ev none order) r m1 in
      let (m2, done2, k2, calls2) =
        visit-Keeps answer bounded ev (place_of ev (some ev.secondary) order) r1 k1.tracked
          (k1.present (place_of ev (some ev.secondary) order) there) in
      let r2 : Round = told_round answer bounded ev (place_of ev (some ev.secondary) order) r1 m2 in
      let same = k1.elsewhere (place_of ev (some ev.secondary) order) (ground arith) in
      (
        r2,
        rw (run_order, done1, done2) refl,
        Leaves-trans (Keeps-Leaves (place_of ev none order) r.manager m1 k1)
            (Keeps-Leaves (place_of ev (some ev.secondary) order) m1 m2 k2),
        Tells-append answer ev _ _ r r1 r2
            (record { calls = calls1; cancel = refl; history = refl })
            (subst (λ ls. Tells answer ev ls r1 r2) same
              (record { calls = calls2; cancel = refl; history = refl })),
      )
  run_order-Tells ev false order r t here there =
      let (m1, done1, k1, calls1) =
        visit-Keeps answer bounded ev (place_of ev none order) r t here in
      (
        told_round answer bounded ev (place_of ev none order) r m1,
        rw (run_order, done1) refl,
        Keeps-Leaves (place_of ev none order) r.manager m1 k1,
        rw (there, append-nil (entries (place_of ev none order) r.manager))
            (record { calls = calls1; cancel = refl; history = refl }),
      )

  -- What the rounds of an event come to, for the listeners that it has at the start.
  pub record Comes (ev : Event) (lists : ℕ → ListenerList) (orders : List ℕ) (r r' : Round)
      : Type 0 where
    pub tracked : IsTracked r'.manager
    pub present : (q : Place) → is_present q r.manager ≡ true → is_present q r'.manager ≡ true
    pub asked : AllInBounds r.manager.requests → AllInBounds r'.manager.requests
    pub calls : r'.manager.calls ≡ calls_of answer ev lists orders r.manager.calls
    pub cancel : r'.cancel ≡ is_canceled answer ev lists orders r.manager.calls
    pub history :
        r'.cancel ≡ false → r'.history ≡ (if none_listen lists orders then r.history else handled)

  run_orders_canceled :
      (ev : Event) (found : Bool) (orders : List ℕ) (r : Round)
      → r.cancel ≡ true
      → run_orders answer ev found orders r ≡ some r
  unfolding run_orders
  run_orders_canceled ev found [] r e = refl
  run_orders_canceled ev found (order ∷ orders) r e = ground arith

  run_orders-go :
      (ev : Event) (found : Bool) (order : ℕ) (orders : List ℕ) (r r1 : Round)
      → r.cancel ≡ false
      → run_order answer ev found order r ≡ some r1
      → run_orders answer ev found (order ∷ orders) r ≡ run_orders answer ev found orders r1
  unfolding run_orders
  run_orders-go ev found order orders r r1 e done = ground arith

  pub run_orders-Comes :
      (ev : Event) (found : Bool) (lists : ℕ → ListenerList) (k : ℕ) (orders : List ℕ) (r : Round)
      → IsTracked r.manager
      → r.cancel ≡ false
      → Ascending k orders
      → ((order : ℕ) → is_present (place_of ev none order) r.manager ≡ true)
      → ((order : ℕ) → k ≤ order → HasPair found ev order r.manager)
      → ((order : ℕ) → k ≤ order → at_order ev r.manager order ≡ lists order)
      → (r' : Round) × (run_orders answer ev found orders r ≡ some r') × Comes ev lists orders r r'
  unfolding run_orders
  run_orders-Comes ev found lists k [] r t e up here there same = (
    r,
    refl,
    record {
      tracked = t;
      present = λ q h. h;
      asked = λ h. h;
      calls = refl;
      cancel = e;
      history = λ h. refl;
    },
  )
  run_orders-Comes ev found lists k (order ∷ orders) r t e up here there same =
      let (r1, done, leaves, all_told) =
        run_order-Tells ev found order r t (here order) (there order up.0) in
      let tells = subst (λ ls. Tells answer ev ls r r1) (same order up.0) all_told in
      elim (Bool-cases (cancels answer ev r.manager.calls (lists order))) [
        | inl stop ↦
            let canceled_now : r1.cancel ≡ true = tells.cancel ∙ ap (λ b. b || r.cancel) stop in
            (
              r1,
              run_orders-go ev found order orders r r1 e done
                  ∙ run_orders_canceled ev found orders r1 canceled_now,
              record {
                tracked = leaves.tracked;
                present = leaves.present;
                asked = leaves.asked;
                calls = rw stop tells.calls;
                cancel = rw stop canceled_now;
                history = λ h. absurd (ground arith);
              },
            )
        | inr go ↦
            let goes_on : r1.cancel ≡ false = tells.cancel ∙ ap (λ b. b || r.cancel) go ∙ e in
            let (r', done', comes) =
              run_orders-Comes ev found lists (suc order) orders r1 leaves.tracked goes_on up.1
                (λ o. leaves.present (place_of ev none o) (here o))
                (λ o lt.
                  HasPair-later found ev order o r.manager r1.manager leaves lt
                    (there o (omega (arith, up.0))))
                (λ o lt.
                  at_order-later ev order o r.manager r1.manager leaves lt
                  ∙ same o (omega (arith, up.0))) in
            (
              r',
              run_orders-go ev found order orders r r1 e done ∙ done',
              record {
                tracked = comes.tracked;
                present = λ q h. comes.present q (leaves.present q h);
                asked = λ h. comes.asked (leaves.asked h);
                calls = rw go (comes.calls ∙ ap (calls_of answer ev lists orders) tells.calls);
                cancel = rw go (comes.cancel ∙ ap (is_canceled answer ev lists orders) tells.calls);
                history = λ h.
                    rw (comes.history h, tells.history)
                      (history_and (is_empty (lists order)) (none_listen lists orders) r.history);
              },
            )
      ]
