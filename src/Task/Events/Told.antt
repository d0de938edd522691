-- ===== src/Task/Events/Told.antt =====
-- Whom an event is told to (libcore/src/task/EventManager.cpp): the rounds of
-- `temporary_processEventQueue` against a description of the calls.
use sirikata.Base.{
  ℕ, ◌<◌, ◌≡◌, refl, sym, ap, ◌∙◌, Bool, true, false, ◌||◌, Option, none, some, List, [], ◌∷◌, ◌++◌,
  if◌then◌else◌, append-nil, append_assoc,
}
use sirikata.Task.Events.{
  EventHistory, handled, Event, ListenerList, Place, EventManager, Call, told, Reply, is_empty,
}
use sirikata.Task.Events.Run.{Round, visit}
use sirikata.Task.Events.Nodes.{AllFound-self}
use sirikata.Task.Events.Places.{entries, is_present, present-list_at, place_eq_later}
use sirikata.Task.Events.Tracked.{AllInBounds, IsTracked}
use sirikata.Task.Events.Valid.{Keeps, tellings, cancels, IsBounded, call_all_listeners-Keeps}

or_assoc : (a b c : Bool) → ((a || b) || c) ≡ (a || (b || c))
or_assoc true b c = refl
or_assoc false b c = refl

-- The description: the listeners of one order after the other are told, until one of the order
-- cancels.
module _ (answer : List Call → Call → Reply) where
  abbrev pub calls_of : Event → (ℕ → ListenerList) → List ℕ → List Call → List Call
  calls_of ev lists [] calls = calls
  calls_of ev lists (order ∷ orders) calls =
      if cancels answer ev calls (lists order)
      then calls ++ tellings ev (lists order)
      else calls_of ev lists orders (calls ++ tellings ev (lists order))

  abbrev pub is_canceled : Event → (ℕ → ListenerList) → List ℕ → List Call → Bool
  is_canceled ev lists [] calls = false
  is_canceled ev lists (order ∷ orders) calls =
      cancels answer ev calls (lists order)
      || is_canceled ev lists orders (calls ++ tellings ev (lists order))

  cancels-append :
      (ev : Event) (calls : List Call) (ls ks : ListenerList)
      → cancels answer ev calls (ls ++ ks)
        ≡ (cancels answer ev calls ls || cancels answer ev (calls ++ tellings ev ls) ks)
  cancels-append ev calls [] ks = ap (λ cs. cancels answer ev cs ks) (sym (append-nil calls))
  cancels-append ev calls (l ∷ ls) ks =
      let c = told l.function ev.number in
      let first = (answer calls c).cancel_event in
      ap (λ b. first || b)
        (cancels-append ev (calls ++ c ∷ []) ls ks
          ∙ ap (λ cs. cancels answer ev (calls ++ c ∷ []) ls || cancels answer ev cs ks)
              (append_assoc calls (c ∷ []) (tellings ev ls)))
      ∙ sym (or_assoc first (cancels answer ev (calls ++ c ∷ []) ls) _)

tellings-append :
    (ev : Event) (ls ks : ListenerList) → tellings ev (ls ++ ks) ≡ tellings ev ls ++ tellings ev ks
tellings-append ev [] ks = refl
tellings-append ev (l ∷ ls) ks =
    ap (λ cs. told l.function ev.number ∷ cs) (tellings-append ev ls ks)

abbrev pub place_of : Event → Option ℕ → ℕ → Place
place_of ev sec order = record { primary = ev.primary; secondary = sec; order = order }

-- The listeners of an event in one order: those of its primary id, then those of the pair.
abbrev pub at_order : Event → EventManager → ℕ → ListenerList
at_order ev m order =
    entries (place_of ev none order) m ++ entries (place_of ev (some ev.secondary) order) m

-- One order leaves the later ones as they are.
pub record Leaves (order : ℕ) (m m' : EventManager) : Type 0 where
  pub tracked : IsTracked m'
  pub present : (q : Place) → is_present q m ≡ true → is_present q m' ≡ true
  pub later : (q : Place) → order < q.order → entries q m' ≡ entries q m
  pub asked : AllInBounds m.requests → AllInBounds m'.requests

pub Keeps-Leaves : (p : Place) (m m' : EventManager) → Keeps p m m' → Leaves p.order m m'
Keeps-Leaves p m m' k = record {
  tracked = k.tracked;
  present = k.present;
  later = λ q lt. k.elsewhere q (place_eq_later p q lt);
  asked = k.asked;
}

pub Leaves-trans :
    {order : ℕ} {m m' m'' : EventManager}
    → Leaves order m m'
    → Leaves order m' m''
    → Leaves order m m''
Leaves-trans k k' = record {
  tracked = k'.tracked;
  present = λ q e. k'.present q (k.present q e);
  later = λ q e. k'.later q e ∙ k.later q e;
  asked = λ h. k'.asked (k.asked h);
}

or_swap : (a b c : Bool) → (a || (b || c)) ≡ ((b || a) || c)
or_swap true true c = refl
or_swap true false c = refl
or_swap false b c = sym (or_assoc b false c) ∙ ap (λ x. x || c) refl

history-append :
    (ls ks : ListenerList) (h : EventHistory)
    → (if is_empty ks then (if is_empty ls then h else handled) else handled)
      ≡ (if is_empty (ls ++ ks) then h else handled)
history-append [] ks h = refl
history-append (l ∷ ls) [] h = refl
history-append (l ∷ ls) (k ∷ ks) h = refl

module _ (answer : List Call → Call → Reply) where
  -- What a round has come to after it told these listeners.
  pub record Tells (ev : Event) (ls : ListenerList) (r r' : Round) : Type 0 where
    pub calls : r'.manager.calls ≡ r.manager.calls ++ tellings ev ls
    pub cancel : r'.cancel ≡ (cancels answer ev r.manager.calls ls || r.cancel)
    pub history : r'.history ≡ (if is_empty ls then r.history else handled)

  pub Tells-append :
      (ev : Event) (ls ks : ListenerList) (r r' r'' : Round)
      → Tells ev ls r r'
      → Tells ev ks r' r''
      → Tells ev (ls ++ ks) r r''
  Tells-append ev ls ks r r' r'' a b = record {
    calls =
        b.calls
        ∙ ap (λ cs. cs ++ tellings ev ks) a.calls
        ∙ append_assoc r.manager.calls (tellings ev ls) (tellings ev ks)
        ∙ ap (λ cs. r.manager.calls ++ cs) (sym (tellings-append ev ls ks));
    cancel =
        rw (b.cancel, a.calls, a.cancel, cancels-append answer ev r.manager.calls ls ks)
          (or_swap (cancels answer ev (r.manager.calls ++ tellings ev ls) ks)
            (cancels answer ev r.manager.calls ls) r.cancel);
    history = rw (b.history, a.history) (history-append ls ks r.history);
  }

module _ (answer : List Call → Call → Reply) (bounded : IsBounded answer) where
  -- A round after it told the listeners at a place.
  abbrev pub told_round : Event → Place → Round → EventManager → Round
  told_round ev p r m = record {
    cancel = cancels answer ev r.manager.calls (entries p r.manager) || r.cancel;
    history = if is_empty (entries p r.manager) then r.history else handled;
    manager = m;
  }

  pub visit-Keeps :
      (ev : Event) (p : Place) (r : Round)
      → IsTracked r.manager
      → is_present p r.manager ≡ true
      → (m' : EventManager) × (visit answer ev p r ≡ some (told_round ev p r m'))
        × Keeps p r.manager m'
        × (m'.calls ≡ r.manager.calls ++ tellings ev (entries p r.manager))
  unfolding visit
  visit-Keeps ev p r t present =
      let ls = entries p r.manager in
      let (m', done, keeps, calls) =
        call_all_listeners-Keeps answer bounded ev p ls r.manager t
          (AllFound-self ls (t.distinct p)) (t.distinct p) in
      (m', rw (visit, present-list_at p r.manager present, done) refl, keeps, calls)
