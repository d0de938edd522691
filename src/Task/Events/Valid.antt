-- ===== src/Task/Events/Valid.antt =====
-- What each step of a run does to the listeners (libcore/src/task/EventManager.cpp), and that none
-- of them meets an iterator or a list that is gone.
use sirikata.Base.{
  ℕ, suc, ◌≤◌, ◌<◌, ◌≡◌, ◌≢◌, refl, sym, ◌∙◌, ◌⊎◌, inl, inr, Bool, true, false, ◌||◌, Option, none,
  some, List, [], ◌∷◌, ◌++◌, ◌==◌, if◌then◌else◌, append-nil, append_assoc, arith, Bool-cases,
  Option-cases,
}
use sirikata.Task.Events.{
  SubscriptionId, Event, ListenerRequest, Listener, ListenerList, PrimaryInfo, Place,
  SubscriptionInfo, EventManager, Call, told, Reply, num_eventorder,
}
use sirikata.Task.Events.Lists.{
  do_subscribe_id, insert_pri_id, insert_sec_id, remember, without, clear_remove_id,
}
use sirikata.Task.Events.Run.{call, dismiss, call_all_listeners, clean_up_after}
use sirikata.Task.Events.Nodes.{AllFound, AllFound-erase_node, DistinctNodes}
use sirikata.Task.Events.Places.{
  entries, is_present, place_eq, place_eq_refl, entries-clean_up, erase_at-Writes,
  add_listener-Writes, present-insert, entries-insert_pri_id, entries-insert_sec_id,
}
use sirikata.Task.Events.Tracked.{AllInBounds, IsTracked, dropped, added}

subscription_kept :
    (id : SubscriptionId) (new : SubscriptionInfo) (map : ℕ → Option SubscriptionInfo) (k : ℕ)
    (info : SubscriptionInfo)
    → remember id new map k ≡ some info
    → (map k ≡ some info) ⊎ ((info ≡ new) × (id ≡ some k))
subscription_kept none new map k info e = inl e
subscription_kept (some id) new map k info e = elim (Option-cases (map id)) [
  | inl free ↦ elim (Bool-cases (k == id)) [
    | inl same ↦ inr (ground arith, ground arith)
    | inr other ↦ inl (ground arith)
  ]
  | inr (old, taken) ↦ inl (ground arith)
]

pub do_subscribe_id-IsTracked :
    (id : SubscriptionId) (p : Place) (function : ℕ) (m : EventManager)
    → IsTracked m
    → p.order < num_eventorder
    → (m' : EventManager) × (do_subscribe_id id p function m ≡ some m')
      × IsTracked m'
      × (m'.requests ≡ m.requests)
      × ((q : Place)
          → entries q m' ≡ (
              if place_eq q p
              then record { node = m.next_node; function = function; id = id } ∷ entries p m
              else entries q m))
unfolding do_subscribe_id insert_pri_id insert_sec_id
do_subscribe_id-IsTracked id p function m t lt =
    let l : Listener = record { node = m.next_node; function = function; id = id } in
    let m1 = insert_sec_id p.primary p.secondary (insert_pri_id p.primary m) in
    let (f, done, writes) = add_listener-Writes p function id m1 (present-insert p m) in
    let write : (q : Place)
        → entries q (record m1 { listeners = f })
          ≡ (if place_eq q p then l ∷ entries p m else entries q m) =
      λ q. writes.0 q ∙ (λ i. if place_eq q p then l ∷ same p i else same q i) in
    (
      record m1 {
        listeners = f;
        next_node = suc m.next_node;
        remove_by_id = remember id (record { place = p; node = m.next_node }) m.remove_by_id;
      },
      rw (do_subscribe_id, done) refl,
      added m _ p l t lt refl write refl
          (λ k info e. subscription_kept id _ m.remove_by_id k info e),
      refl,
      write,
    )
  where
    same :
        (q : Place)
        → entries q (insert_sec_id p.primary p.secondary (insert_pri_id p.primary m)) ≡ entries q m
    same q =
        entries-insert_sec_id p.primary p.secondary q (insert_pri_id p.primary m)
        ∙ entries-insert_pri_id p.primary q m

pub without-kept :
    (id : SubscriptionId) (map : ℕ → Option SubscriptionInfo) (k : ℕ) (info : SubscriptionInfo)
    → without id map k ≡ some info
    → (map k ≡ some info) × (id ≢ some k)
without-kept none map k info e = (e, λ never. absurd (ground arith))
without-kept (some id) map k info e = ground arith

-- What a step leaves as it is: the other lists, and the requests within bounds.
pub record Keeps (p : Place) (m m' : EventManager) : Type 0 where
  pub tracked : IsTracked m'
  pub present : (q : Place) → is_present q m ≡ true → is_present q m' ≡ true
  pub elsewhere : (q : Place) → place_eq q p ≡ false → entries q m' ≡ entries q m
  pub asked : AllInBounds m.requests → AllInBounds m'.requests

AllInBounds-append :
    (rs ss : List ListenerRequest) → AllInBounds rs → AllInBounds ss → AllInBounds (rs ++ ss)
AllInBounds-append [] ss h k = k
AllInBounds-append (r ∷ rs) ss h k = (h.0, AllInBounds-append rs ss h.1 k)

pub Keeps-trans :
    {p : Place} {m m' m'' : EventManager} → Keeps p m m' → Keeps p m' m'' → Keeps p m m''
Keeps-trans k k' = record {
  tracked = k'.tracked;
  present = λ q e. k'.present q (k.present q e);
  elsewhere = λ q e. k'.elsewhere q e ∙ k.elsewhere q e;
  asked = λ h. k'.asked (k.asked h);
}

-- The calls that tell listeners of an event.
abbrev pub tellings : Event → ListenerList → List Call
tellings ev [] = []
tellings ev (l ∷ ls) = told l.function ev.number ∷ tellings ev ls

-- Whether one of these listeners cancels the event, told after these calls.
abbrev pub cancels : (List Call → Call → Reply) → Event → List Call → ListenerList → Bool
cancels answer ev calls [] = false
cancels answer ev calls (l ∷ ls) =
    (answer calls (told l.function ev.number)).cancel_event
    || cancels answer ev (calls ++ told l.function ev.number ∷ []) ls

-- What is requested during a call is within bounds, as `subscribe` sees to.
abbrev pub IsBounded : (List Call → Call → Reply) → Type 0
IsBounded answer = (calls : List Call) (c : Call) → AllInBounds (answer calls c).asks

module _ (answer : List Call → Call → Reply) (bounded : IsBounded answer) where
  pub call-Keeps :
      (c : Call) (p : Place) (m : EventManager) → IsTracked m → Keeps p m (call answer c m)
  unfolding call
  call-Keeps c p m t = record {
    tracked = record {
      in_bounds = t.in_bounds;
      below = t.below;
      distinct = t.distinct;
      tracked = t.tracked;
    };
    present = λ q e. e;
    elsewhere = λ q e. refl;
    asked = λ h. AllInBounds-append m.requests (answer m.calls c).asks h (bounded m.calls c);
  }

  -- Only the entry of the listener goes, if any.
  dismiss-Keeps :
      (del : Bool) (p : Place) (l : Listener) (ls : ListenerList) (m : EventManager)
      → IsTracked m
      → AllFound (l ∷ ls) (entries p m)
      → DistinctNodes (l ∷ ls)
      → (m' : EventManager) × (dismiss answer del p l m ≡ some m')
        × Keeps p m m'
        × AllFound ls (entries p m')
        × (m'.calls ≡ m.calls)
  unfolding dismiss clear_remove_id
  dismiss-Keeps false p l ls m t found distinct = (
    m,
    refl,
    record { tracked = t; present = λ q e. e; elsewhere = λ q e. refl; asked = λ h. h },
    found.1,
    refl,
  )
  dismiss-Keeps true p l ls m t found distinct =
      let m1 = clear_remove_id l.id m in
      let (f, done, writes) = erase_at-Writes p l.node m1 l found.0 in
      (
        record m1 { listeners = f },
        done,
        record {
          tracked =
              dropped m _ p l.node l t found.0 writes.0 refl (without-kept l.id m.remove_by_id);
          present = writes.1;
          elsewhere = λ q other. rw (writes.0 q, other) refl;
          asked = λ h. h;
        },
        rw (writes.0 p, place_eq_refl p)
            (AllFound-erase_node ls (entries p m) l.node (t.distinct p) distinct.0 found.1),
        refl,
      )

  pub call_all_listeners-Keeps :
      (ev : Event) (p : Place) (ls : ListenerList) (m : EventManager)
      → IsTracked m
      → AllFound ls (entries p m)
      → DistinctNodes ls
      → (m' : EventManager) × (call_all_listeners answer ev p ls m
          ≡ some (cancels answer ev m.calls ls, m'))
        × Keeps p m m'
        × (m'.calls ≡ m.calls ++ tellings ev ls)
  unfolding call_all_listeners call
  call_all_listeners-Keeps ev p [] m t found distinct = (
    m,
    refl,
    record { tracked = t; present = λ q e. e; elsewhere = λ q e. refl; asked = λ h. h },
    sym (append-nil m.calls),
  )
  call_all_listeners-Keeps ev p (l ∷ ls) m t found distinct =
      let c = told l.function ev.number in
      let called = call-Keeps c p m t in
      let (m1, gone, k1, found1, calls1) =
        dismiss-Keeps (answer m.calls c).delete_listener p l ls (call answer c m) called.tracked
          found distinct in
      let (m2, done, k2, calls2) =
        call_all_listeners-Keeps ev p ls m1 k1.tracked found1 distinct.1 in
      (
        m2,
        rw (call_all_listeners, gone, done, calls1) refl,
        Keeps-trans called (Keeps-trans k1 k2),
        rw (calls2, calls1) (append_assoc m.calls (c ∷ []) (tellings ev ls)),
      )

-- Cleaning up after an event or a subscription: no listener is lost.
pub clean_up_after-entries :
    (primary : ℕ) (secondary : Option ℕ) (order : ℕ) (m : EventManager)
    → (let p : Place = record { primary = primary; secondary = secondary; order = order } in
        ((q : Place) → num_eventorder ≤ q.order → entries q m ≡ [])
        → is_present p m ≡ true
        → (f : ℕ → Option PrimaryInfo) × (clean_up_after p m ≡ some (record m { listeners = f }))
          × ((q : Place) → entries q (record m { listeners = f }) ≡ entries q m))
clean_up_after-entries primary none order m bounds present = (m.listeners, refl, λ q. refl)
clean_up_after-entries primary (some sec) order m bounds present =
    entries-clean_up primary sec m (ground arith)
      (λ o le. bounds (record { primary = primary; secondary = some sec; order = o }) le)
