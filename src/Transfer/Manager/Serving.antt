-- ===== src/Transfer/Manager/Serving.antt =====
-- Every listener of an `EventTransferManager` hears of what it asked for: while it has not, a
-- download that covers its range is under way, or an event that serves it is about to be fired.
use sirikata.Base.{
  ℕ, ◌≡◌, refl, ap, subst, ◌∙◌, Bool, true, false, not, ◌&&◌, ◌||◌, Option, none, some, List, [],
  ◌∷◌, ◌++◌, ◌==◌, arith, inl, inr, Bool-cases,
}
use sirikata.Base.Quantify.{
  any, any-cons, any-middle, any_mono, reject, All, All-map, All-append, All-reject,
}
use sirikata.Transfer.Range.{Range, eqb, contains, is_contained_by}
use sirikata.Transfer.Range.Coverage.{Covers, IsSorted, is_contained_by-contains}
use sirikata.Transfer.Sparse.{SparseData, range_of}
use sirikata.Transfer.Manager.{
  Status, success, fail_download, RemoteFileId, DownloadEvent, download_event, Act, told,
  subscribed, fired, answered, Active, finishes, remaining, found_range, download_finished,
  under_way, name_lookup_success,
}
use sirikata.Transfer.Manager.Steps.{
  Lookup, Get, System, Step, download, answer_lookup, return, answer_get, fire, cleanup, Reach,
  start, later, looked_up, got,
}

-- A listener that has subscribed, with the fingerprint and the range that it asked for.
abbrev pub Wait : Type 0
Wait = ℕ × ℕ × Range

abbrev is_success : Status → Bool
is_success success = true
is_success _ = false

-- The event tells a subscriber of the fingerprint of a failure, or brings its range.
unfoldable pub serves : DownloadEvent → Wait → Bool
serves e (fp, _, range) = elim e.file [
  | none ↦ false
  | some f ↦
      f.fingerprint == fp
      && (not (is_success e.status) || is_contained_by range_of range e.contents)
]

-- The subscriptions that no later event has served; the newest call stands first.
unfoldable pub unserved : List Act → List Wait
unserved [] = []
unserved (told l e ∷ older) = unserved older
unserved (subscribed fp l range ∷ older) = (fp, l, range) ∷ unserved older
unserved (fired e ∷ older) = reject (serves e) (unserved older)
unserved (answered f range d ∷ older) = unserved older

-- The listeners ask for ranges with a first byte; and a cache layer that answers with data brings a
-- sorted list of pieces that covers what it was asked for.
abbrev IsFair : Act → Type 0
IsFair (told l e) = Unit
IsFair (subscribed fp l range) = Covers range range.start
IsFair (fired e) = Unit
IsFair (answered f range none) = Unit
IsFair (answered f range (some d)) = IsSorted range_of d × (is_contained_by range_of range d ≡ true)

abbrev pub AllFair : List Act → Type 0
AllFair = All IsFair

abbrev owns : ℕ × Range → Get → Bool
owns (fp, range) (f, r) = f.fingerprint == fp && eqb r range

abbrev pub covers : Wait → Get → Bool
covers (fp, _, range) (f, r) = f.fingerprint == fp && contains r range

-- The waiting listener will be served.
abbrev Promised : List Get → List DownloadEvent → Wait → Type 0
Promised gets finishing w =
    (Covers w.2 w.2.start) × ((any (covers w) gets || any (λ e. serves e w) finishing) ≡ true)

record IsKept (s : System) : Type 0 where
  owned : All (λ (a : ℕ × Range). any (owns a) s.gets ≡ true) s.manager.active
  promised : All (Promised s.gets s.finishing) (unserved s.log)

eqb→eq : (r s : Range) → eqb r s ≡ true → r ≡ s
unfolding eqb
eqb→eq r s h = ground arith

eqb_self : (r : Range) → eqb r r ≡ true
unfolding eqb
eqb_self r = ground arith

contains_self : (r : Range) → contains r r ≡ true
unfolding contains
contains_self r = ground arith

-- A range that is under way has its own `getData`, which covers what lies in the range.
under_way-covers :
    (fp l : ℕ) (range : Range) (gets : List Get) (active : Active)
    → All (λ (a : ℕ × Range). any (owns a) gets ≡ true) active
    → under_way fp range active ≡ true
    → any (covers (fp, l, range)) gets ≡ true
unfolding under_way
under_way-covers fp l range gets [] own h = absurd (cc)
under_way-covers fp l range gets ((k, r) ∷ active) own h =
    elim (Bool-cases (k == fp && contains r range)) [
      | inl here ↦
          any_mono (owns (k, r)) (covers (fp, l, range)) gets
            (λ (f, g) e.
              ground (arith, eqb→eq g r, ap (λ x. contains x range) (eqb→eq g r (ground arith))))
            own.0
      | inr there ↦ under_way-covers fp l range gets active own.1 (ground arith)
    ]

remaining-reject :
    (fp : ℕ) (range : Range) (d : Option SparseData) (active : Active)
    → remaining fp range d active ≡ reject (λ (k, r). k == fp && finishes range d r) active
unfolding remaining reject
remaining-reject fp range d [] = refl
remaining-reject fp range d ((k, r) ∷ active) = ground (arith, remaining-reject fp range d active)

found_range-true :
    (fp : ℕ) (range : Range) (d : Option SparseData) (active : Active)
    → found_range fp range d true active ≡ true
unfolding found_range
found_range-true fp range d [] = refl
found_range-true fp range d ((k, r) ∷ active) = ground (arith, found_range-true fp range d active)

-- The event that a finished download fires.
abbrev event_of : Get → Option SparseData → DownloadEvent
event_of (file, range) none = download_event fail_download (some file) none
event_of (file, range) (some d) = download_event success (some file) (some d)

got_lem :
    (get : Get) (d : Option SparseData) (others : List Get) (s : System)
    → got get d others s ≡ record s {
      manager = record s.manager { active = remaining get.0.fingerprint get.1 d s.manager.active };
      gets = others;
      finishing = event_of get d ∷ s.finishing;
      log = answered get.0 get.1 d ∷ s.log;
    }
unfolding download_finished
got_lem (file, range) none others s =
    rw (found_range-true file.fingerprint range none s.manager.active) refl
got_lem (file, range) (some d) others s =
    rw (found_range-true file.fingerprint range (some d) s.manager.active) refl

-- What is finished with a download is all that it owned.
owns-finishes :
    (get : Get) (d : Option SparseData) (a : ℕ × Range)
    → IsFair (answered get.0 get.1 d)
    → owns a get ≡ true
    → (a.0 == get.0.fingerprint && finishes get.1 d a.1) ≡ true
unfolding finishes
owns-finishes (f, g) none (k, r) fair h = ground (arith, eqb→eq g r, eqb_self g)
owns-finishes (f, g) (some d) (k, r) fair h =
    let same : g ≡ r = eqb→eq g r (ground arith) in
    ground (arith, ap (λ x. is_contained_by range_of x d) same)

-- The event serves all whose range the download covers.
covers-serves :
    (get : Get) (d : Option SparseData) (w : Wait)
    → IsFair (answered get.0 get.1 d)
    → Covers w.2 w.2.start
    → covers w get ≡ true
    → serves (event_of get d) w ≡ true
unfolding serves
covers-serves (f, g) none (fp, l, range) fair c h = ground arith
covers-serves (f, g) (some d) (fp, l, range) fair c h =
    ground (arith, is_contained_by-contains range_of g range d (ground arith) c fair.0 fair.1)

got-IsKept :
    (before after : List Get) (get : Get) (d : Option SparseData) (s : System)
    → IsFair (answered get.0 get.1 d)
    → s.gets ≡ before ++ get ∷ after
    → IsKept s
    → IsKept (got get d (before ++ after) s)
unfolding unserved
got-IsKept before after get d s fair e k = rw (got_lem get d (before ++ after) s) (record {
  owned = rw (remaining-reject get.0.fingerprint get.1 d s.manager.active) (
      All-reject _ s.manager.active
        (λ a stays own.
          let mid = any-middle (owns a) before get after in
          let not_mine : owns a get ≡ false = elim (Bool-cases (owns a get)) [
            | inl mine ↦ absurd (cc (stays, owns-finishes get d a fair mine))
            | inr other ↦ other
          ] in
          cc (own, mid, not_mine, ap (any (owns a)) e))
        k.owned);
  promised =
      All-map (unserved s.log)
        (λ w p.
          let mid = any-middle (covers w) before get after in
          let all = ap (any (covers w)) e in
          (
            p.0,
            elim (Bool-cases (covers w get)) [
              | inl mine ↦ ground (
                arith,
                covers-serves get d w fair p.0 mine,
                any-cons (λ e. serves e w) (event_of get d) s.finishing,
              )
              | inr other ↦
                  ground
                    (arith, p.1, mid, all, any-cons (λ e. serves e w) (event_of get d) s.finishing)
            ],
          ))
        k.promised;
})

looked_up-IsKept :
    (lookup : Lookup) (remote : Option RemoteFileId) (others : List Lookup) (s : System)
    → IsFair (name_lookup_success lookup.0 lookup.1 remote s.manager).1
    → IsKept s
    → IsKept (looked_up lookup remote others s)
unfolding name_lookup_success unserved
looked_up-IsKept (l, range) none others s fair k = record { owned = k.owned; promised = k.promised }
looked_up-IsKept (l, range) (some file) others s fair k =
    let fp = file.fingerprint in
    elim (Bool-cases s.manager.cleanup) [
      | inl closing ↦ rw closing (record { owned = k.owned; promised = k.promised })
      | inr open_ ↦ elim (Bool-cases (under_way fp range s.manager.active)) [
        | inl shared ↦
            let some_byte : Covers range range.start = rw (open_, shared) at fair in
            let covered = under_way-covers fp l range s.gets s.manager.active k.owned shared in
            rw (open_, shared)
              (record { owned = k.owned; promised = ((some_byte, rw covered refl), k.promised) })
        | inr alone ↦
            let some_byte : Covers range range.start = rw (open_, alone) at fair in
            let mine : any (owns (fp, range)) ((file, range) ∷ s.gets) ≡ true =
              any-cons (owns (fp, range)) (file, range) s.gets ∙ ground (arith, eqb_self range) in
            rw (open_, alone)
              (record {
                owned =
                    All-append _ s.manager.active _
                      (All-map s.manager.active
                        (λ a own. any-cons (owns a) (file, range) s.gets ∙ ground (arith, own))
                        k.owned)
                      (mine, tt);
                promised = (
                  (
                    some_byte,
                    ground (
                      arith,
                      any-cons (covers (fp, l, range)) (file, range) s.gets,
                      contains_self range,
                    ),
                  ),
                  All-map (unserved s.log)
                      (λ w p. (p.0, ground (arith, p.1, any-cons (covers w) (file, range) s.gets)))
                      k.promised,
                );
              })
      ]
    ]

fired-IsKept :
    (before after : List DownloadEvent) (event : DownloadEvent) (s : System)
    → s.finishing ≡ before ++ event ∷ after
    → IsKept s
    → IsKept (record s { finishing = before ++ after; log = fired event ∷ s.log })
unfolding unserved
fired-IsKept before after event s e k = record {
  owned = k.owned;
  promised =
      All-reject (serves event) (unserved s.log)
        (λ w not_served p. (
          p.0,
          ground (
            arith,
            p.1,
            not_served,
            any-middle (λ e. serves e w) before event after,
            ap (any (λ e. serves e w)) e,
          ),
        ))
        k.promised;
}

Step-IsKept : {s t : System} → AllFair t.log → Step s t → IsKept s → IsKept t
Step-IsKept fair (download l range) k = record { owned = k.owned; promised = k.promised }
Step-IsKept {s} fair (answer_lookup before after lookup remote e) k =
    looked_up-IsKept lookup remote (before ++ after) s fair.0 k
Step-IsKept fair (return n e) k = record { owned = k.owned; promised = k.promised }
Step-IsKept {s} fair (answer_get before after get downloaded e) k =
    got-IsKept before after get downloaded s fair.0 e k
Step-IsKept {s} fair (fire before after event e) k = fired-IsKept before after event s e k
Step-IsKept fair (cleanup) k = record { owned = k.owned; promised = k.promised }

-- A step only adds to the log.
Step-AllFair : {s t : System} → Step s t → AllFair t.log → AllFair s.log
Step-AllFair (download l range) fair = fair
Step-AllFair (answer_lookup before after lookup remote e) fair = fair.1
Step-AllFair (return n e) fair = fair
Step-AllFair (answer_get before after get downloaded e) fair = fair.1
Step-AllFair (fire before after event e) fair = fair.1
Step-AllFair cleanup fair = fair

Reach-IsKept : {s : System} → Reach s → AllFair s.log → IsKept s
unfolding unserved
Reach-IsKept start fair = record { owned = tt; promised = tt }
Reach-IsKept (later r st) fair = Step-IsKept fair st (Reach-IsKept r (Step-AllFair st fair))

none-Promised : (ws : List Wait) → All (Promised [] []) ws → ws ≡ []
unfolding any
none-Promised [] h = refl
none-Promised (w ∷ ws) h = absurd (cc (h.0.1))

-- In every state that is reached, where all listeners asked for ranges with a first byte and the
-- cache layers answered with NULL or with sorted data that covers what they were asked for: a
-- subscription that no later event has served, by a failure or by data that covers its range, has a
-- `getData` under way for a range that contains its own, or an event that serves it is about to be
-- fired. When no `getData` and no event is left, all subscriptions have been served.
pub unserved_promised :
    {s : System}
    → Reach s
    → AllFair s.log
    → All
        (λ w. (any (covers w) s.gets || any (λ e. serves e w) s.finishing) ≡ true)
        (unserved s.log)
      × (s.gets ≡ [] → s.finishing ≡ [] → unserved s.log ≡ [])
unserved_promised {s} r fair =
    let k = Reach-IsKept r fair in
    (
      All-map (unserved s.log) (λ w p. p.1) k.promised,
      λ e f. none-Promised (unserved s.log) (
          subst (λ g. All (Promised g []) (unserved s.log)) e
            (subst (λ h. All (Promised s.gets h) (unserved s.log)) f k.promised)),
    )
