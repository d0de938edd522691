-- ===== src/Task/Events/Tracked.antt =====
-- The iterators that an `EventManager` keeps by subscription id (libcore/src/task/EventManager.cpp)
-- stay valid.
use sirikata.Base.{
  ℕ, suc, ◌≤◌, ◌<◌, ◌≡◌, ◌≢◌, sym, ap, subst, ◌∙◌, ◌⊎◌, inl, inr, Option, some, List, [], ◌∷◌,
  if◌then◌else◌, arith, Bool-cases,
}
use sirikata.Task.Events.{
  ListenerRequest, subscription, unsubscription, Listener, ListenerList, PrimaryInfo, Place,
  SubscriptionInfo, EventManager, num_eventorder,
}
use sirikata.Task.Events.Lists.{find_node, erase_node}
use sirikata.Task.Events.Nodes.{
  NodesBelow, DistinctNodes, find_node-fresh, find_node-erased, find_node-newer, find_node_front,
  erase_node-NodesBelow, erase_node-DistinctNodes, NodesBelow-suc,
}
use sirikata.Task.Events.Places.{entries, place_eq, place_eq→≡, place_eq_refl}

abbrev pub InBounds : ListenerRequest → Type 0
InBounds (subscription id primary secondary listener order) = order < num_eventorder
InBounds (unsubscription id notify) = Unit {0}

abbrev pub AllInBounds : List ListenerRequest → Type 0
AllInBounds [] = Unit {0}
AllInBounds (r ∷ rs) = InBounds r × AllInBounds rs

-- A node with this id stands at the place of the subscription.
abbrev pub IsAt : EventManager → ℕ → SubscriptionInfo → Type 0
IsAt m id info =
    (l : Listener) × (find_node info.node (entries info.place m) ≡ some l) × (l.id ≡ some id)

pub record IsTracked (m : EventManager) : Type 0 where
  pub in_bounds : (p : Place) → num_eventorder ≤ p.order → entries p m ≡ []
  pub below : (p : Place) → NodesBelow m.next_node (entries p m)
  pub distinct : (p : Place) → DistinctNodes (entries p m)
  pub tracked : (id : ℕ) (info : SubscriptionInfo) → m.remove_by_id id ≡ some info → IsAt m id info

-- What holds of the lists before a write, and of the list that is written.
written :
    {E E' : Place → ListenerList} {p : Place} {new : ListenerList}
    (P : Place → ListenerList → Type 0)
    → ((q : Place) → E' q ≡ (if place_eq q p then new else E q))
    → P p new
    → ((q : Place) → P q (E q))
    → (q : Place) → P q (E' q)
written {E} {E'} {p} {new} P write here there q = elim (Bool-cases (place_eq q p)) [
  | inl same ↦
      let e : E' q ≡ new = write q ∙ ap (λ b. if b then new else E q) same in
      subst (P q) (sym e) (subst (λ place. P place new) (sym (place_eq→≡ q p same)) here)
  | inr other ↦
      let e : E' q ≡ E q = write q ∙ ap (λ b. if b then new else E q) other in
      subst (P q) (sym e) (there q)
]

-- A node goes, and its id with it.
pub dropped :
    (m m' : EventManager) (p : Place) (node : ℕ) (l : Listener)
    → IsTracked m
    → find_node node (entries p m) ≡ some l
    → ((q : Place)
        → entries q m' ≡ (if place_eq q p then erase_node node (entries p m) else entries q m))
    → m'.next_node ≡ m.next_node
    → ((id : ℕ) (info : SubscriptionInfo)
        → m'.remove_by_id id ≡ some info
        → (m.remove_by_id id ≡ some info) × (l.id ≢ some id))
    → IsTracked m'
dropped m m' p node l t found write next kept = record {
  in_bounds =
      written {E = λ q. entries q m} {E' = λ q. entries q m'}
        (λ q ls. num_eventorder ≤ q.order → ls ≡ []) write
        (λ le. ap (erase_node node) (t.in_bounds p le)) t.in_bounds;
  below =
      written {E = λ q. entries q m} {E' = λ q. entries q m'} (λ q ls. NodesBelow m'.next_node ls)
        write (rw next (erase_node-NodesBelow node m.next_node (entries p m) (t.below p)))
        (λ q. rw next (t.below q));
  distinct =
      written {E = λ q. entries q m} {E' = λ q. entries q m'} (λ q ls. DistinctNodes ls) write
        (erase_node-DistinctNodes node (entries p m) (t.distinct p)) t.distinct;
  tracked = λ id info e.
      let (old, other) = kept id info e in
      let (k, at, its) = t.tracked id info old in
      (
        k,
        written {E = λ q. entries q m} {E' = λ q. entries q m'}
            (λ q ls. find_node info.node (entries q m) ≡ some k → find_node info.node ls ≡ some k)
            write
            (λ here.
              find_node-erased info.node node (entries p m) k l id (t.distinct p) found other its
                here)
            (λ q there. there) info.place at,
        its,
      );
}

-- A listener is added under a new node, with its id or without.
pub added :
    (m m' : EventManager) (p : Place) (l : Listener)
    → IsTracked m
    → p.order < num_eventorder
    → l.node ≡ m.next_node
    → ((q : Place) → entries q m' ≡ (if place_eq q p then l ∷ entries p m else entries q m))
    → m'.next_node ≡ suc m.next_node
    → ((id : ℕ) (info : SubscriptionInfo)
        → m'.remove_by_id id ≡ some info
        → (m.remove_by_id id ≡ some info)
          ⊎ ((info ≡ record { place = p; node = l.node }) × (l.id ≡ some id)))
    → IsTracked m'
added m m' p l t lt fresh write next kept = record {
  in_bounds =
      written {E = λ q. entries q m} {E' = λ q. entries q m'}
        (λ q ls. num_eventorder ≤ q.order → ls ≡ []) write (λ le. absurd (omega arith)) t.in_bounds;
  below =
      written {E = λ q. entries q m} {E' = λ q. entries q m'} (λ q ls. NodesBelow m'.next_node ls)
        write
        (
          omega arith,
          subst (λ n. NodesBelow n (entries p m)) (sym next)
              (NodesBelow-suc m.next_node (entries p m) (t.below p)),
        )
        (λ q. rw next (NodesBelow-suc m.next_node (entries q m) (t.below q)));
  distinct =
      written {E = λ q. entries q m} {E' = λ q. entries q m'} (λ q ls. DistinctNodes ls) write
        (rw fresh (find_node-fresh m.next_node (entries p m) (t.below p)), t.distinct p) t.distinct;
  tracked = λ id info e. elim (kept id info e) [
    | inl old ↦
        let (k, at, its) = t.tracked id info old in
        (
          k,
          written {E = λ q. entries q m} {E' = λ q. entries q m'}
              (λ q ls. find_node info.node (entries q m) ≡ some k → find_node info.node ls ≡ some k)
              write
              (λ here. find_node-newer info.node (entries p m) k l (rw fresh (t.below p)) here)
              (λ q there. there) info.place at,
          its,
        )
    | inr (new, its) ↦
        (l, rw new (rw (write p, place_eq_refl p) (find_node_front l (entries p m))), its)
  ];
}

-- The lists of the maps may change where the listeners do not.
pub IsTracked-listeners :
    (m : EventManager) (f : ℕ → Option PrimaryInfo)
    → IsTracked m
    → ((q : Place) → entries q (record m { listeners = f }) ≡ entries q m)
    → IsTracked (record m { listeners = f })
IsTracked-listeners m f t same = record {
  in_bounds = λ q le. same q ∙ t.in_bounds q le;
  below = λ q. subst (NodesBelow m.next_node) (sym (same q)) (t.below q);
  distinct = λ q. subst DistinctNodes (sym (same q)) (t.distinct q);
  tracked = λ id info e.
      let (l, at, its) = t.tracked id info e in
      (l, ap (find_node info.node) (same info.place) ∙ at, its);
}
