-- ===== src/Task/Events/Unsubscribe.antt =====
-- Unsubscription (libcore/src/task/EventManager.cpp).
use sirikata.Base.{
  ℕ, ◌≡◌, refl, sym, ap, ◌∙◌, inl, inr, Bool, true, false, none, some, List, [], ◌∷◌, ◌++◌,
  if◌then◌else◌, append-nil, arith, Bool-cases,
}
use sirikata.Task.Events.{Listener, Place, SubscriptionInfo, EventManager, Call, notified, Reply}
use sirikata.Task.Events.Lists.{find_node, erase_node, listener_at, erase_at, clear_remove_id}
use sirikata.Task.Events.Run.{call, do_unsubscribe, clean_up_after}
use sirikata.Task.Events.Places.{
  entries, is_present, place_eq, present_not, present-list_at, erase_at-Writes,
}
use sirikata.Task.Events.Tracked.{AllInBounds, IsTracked, IsTracked-listeners, dropped}
use sirikata.Task.Events.Valid.{clean_up_after-entries, IsBounded, call-Keeps, without-kept}

found-present :
    (p : Place) (node : ℕ) (m : EventManager) (l : Listener)
    → find_node node (entries p m) ≡ some l
    → is_present p m ≡ true
unfolding find_node
found-present p node m l at = elim (Bool-cases (is_present p m)) [
  | inl present ↦ present
  | inr missing ↦ absurd (ground (arith, ap (find_node node) (present_not p m missing)))
]

listener_at_lem :
    (p : Place) (node : ℕ) (m : EventManager) (l : Listener)
    → find_node node (entries p m) ≡ some l
    → listener_at p node m ≡ some l
unfolding listener_at
listener_at_lem p node m l at =
    rw (listener_at, present-list_at p m (found-present p node m l at)) at

-- The node of a subscription is erased, its lists are cleaned up, and its id is forgotten.
take_away :
    (id : ℕ) (m : EventManager) (info : SubscriptionInfo) (l : Listener)
    → IsTracked m
    → m.remove_by_id id ≡ some info
    → find_node info.node (entries info.place m) ≡ some l
    → l.id ≡ some id
    → (m1 : EventManager) × (m2 : EventManager) × (erase_at info.place info.node m ≡ some m1)
      × (clean_up_after info.place m1 ≡ some m2)
      × IsTracked (clear_remove_id (some id) m2)
      × ((q : Place)
          → entries q m2 ≡ (
              if place_eq q info.place
              then erase_node info.node (entries info.place m)
              else entries q m))
      × (m2.calls ≡ m.calls)
      × (m2.requests ≡ m.requests)
unfolding clear_remove_id
take_away id m info l t known at its =
    let p = info.place in
    let (f, erased, writes) = erase_at-Writes p info.node m l at in
    let m1 : EventManager = record m { listeners = f } in
    let t1 : IsTracked (clear_remove_id (some id) m1) =
      dropped m _ p info.node l t at writes.0 refl (λ k kept e.
        let (old, other) = without-kept (some id) m.remove_by_id k kept e in
        (old, λ same. other (sym its ∙ same))) in
    let (g, cleaned, same) =
      clean_up_after-entries p.primary p.secondary p.order m1 t1.in_bounds
        (writes.1 p (found-present p info.node m l at)) in
    (
      m1,
      record m1 { listeners = g },
      erased,
      cleaned,
      IsTracked-listeners (clear_remove_id (some id) m1) g t1 same,
      λ q. same q ∙ writes.0 q,
      refl,
      refl,
    )

module _ (answer : List Call → Call → Reply) (bounded : IsBounded answer) where
  -- On a tracked manager, an unsubscription of an id that is known takes exactly its listener away,
  -- tells it if that was asked for, and forgets the id; the manager stays tracked.
  pub do_unsubscribe-entries :
      (id : ℕ) (notify : Bool) (m : EventManager) (info : SubscriptionInfo)
      → IsTracked m
      → m.remove_by_id id ≡ some info
      → (m' : EventManager) × (l : Listener) × (do_unsubscribe answer (some id) notify m ≡ some m')
        × IsTracked m'
        × (AllInBounds m.requests → AllInBounds m'.requests)
        × (find_node info.node (entries info.place m) ≡ some l)
        × ((q : Place)
            → entries q m' ≡ (
                if place_eq q info.place
                then erase_node info.node (entries info.place m)
                else entries q m))
        × (m'.remove_by_id id ≡ none)
        × (m'.calls ≡ m.calls ++ (if notify then notified l.function ∷ [] else []))
  unfolding do_unsubscribe call clear_remove_id
  do_unsubscribe-entries id true m info t known =
      let (l, at, its) = t.tracked id info known in
      let keeps = call-Keeps answer bounded (notified l.function) info.place m t in
      let (m1, m2, erased, cleaned, t2, write, calls, requests) =
        take_away id (call answer (notified l.function) m) info l keeps.tracked known at its in
      (
        clear_remove_id (some id) m2,
        l,
        rw (do_unsubscribe, known, listener_at_lem info.place info.node m l at, erased, cleaned)
            refl,
        t2,
        λ h. rw requests (keeps.asked h),
        at,
        write,
        ground arith,
        calls,
      )
  do_unsubscribe-entries id false m info t known =
      let (l, at, its) = t.tracked id info known in
      let (m1, m2, erased, cleaned, t2, write, calls, requests) =
        take_away id m info l t known at its in
      (
        clear_remove_id (some id) m2,
        l,
        rw (do_unsubscribe, known, listener_at_lem info.place info.node m l at, erased, cleaned)
            refl,
        t2,
        λ h. rw requests h,
        at,
        write,
        ground arith,
        calls ∙ sym (append-nil m.calls),
      )
