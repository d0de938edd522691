-- ===== src/Transfer/Manager/Stale.antt =====
-- A download of an `EventTransferManager` that brings less than it was asked for.
use sirikata.Base.{
  Option, List, ◌++◌, ◌∙◌, ℕ, ◌≡◌, ◌⊎◌, refl, ap, true, false, ◌&&◌, none, some, [], ◌∷◌, ◌==◌,
  arith, inl, inr, Bool-cases,
}
use sirikata.Base.Quantify.{All}
use sirikata.Transfer.Range.{Range, contains, is_contained_by}
use sirikata.Transfer.Sparse.{SparseData, range_of}
use sirikata.Transfer.Manager.{
  RemoteFileId, subscribed, Active, Manager, finishes, remaining, download_finished, under_way,
  name_lookup_success,
}

-- The range is in the list of the active transfers.
abbrev pub Holds : ℕ → Range → Active → Type 0
Holds fp range [] = ⊥
Holds fp range ((k, r) ∷ active) = ((k ≡ fp) × (r ≡ range)) ⊎ Holds fp range active

Holds-under_way :
    (fp : ℕ) (range sub : Range) (active : Active)
    → contains range sub ≡ true
    → Holds fp range active
    → under_way fp sub active ≡ true
unfolding under_way
Holds-under_way fp range sub [] c h = absurd h
Holds-under_way fp range sub ((k, r) ∷ active) c (inr h) =
    ground (arith, Holds-under_way fp range sub active c h)
Holds-under_way fp range sub ((k, r) ∷ active) c (inl (e, f)) =
    ground (arith, c, ap (λ x. contains x sub) f)

-- What may happen meanwhile: another listener's name is found, or another download is finished.
pub data Meanwhile : Type 0 where
  found_name : ℕ → Range → RemoteFileId → Meanwhile
  finished : RemoteFileId → Range → Option SparseData → Meanwhile

unfoldable pub go_on : List Meanwhile → Manager → Manager
go_on [] m = m
go_on (found_name listener range file ∷ more) m =
    go_on more (name_lookup_success listener range (some file) m).0
go_on (finished file range downloaded ∷ more) m =
    go_on more (download_finished file range downloaded m).0

-- Nothing that is finished for the file has to do with the range: no data that cover it, and no
-- failure of a download of just this range.
abbrev pub Leaves : ℕ → Range → Meanwhile → Type 0
Leaves fp range (found_name listener other file) = Unit
Leaves fp range (finished file other downloaded) =
    (file.fingerprint == fp && finishes other downloaded range) ≡ false

remaining-Leaves :
    (fp k : ℕ) (range other : Range) (downloaded : Option SparseData) (active : Active)
    → (k == fp && finishes other downloaded range) ≡ false
    → Holds fp range active
    → Holds fp range (remaining k other downloaded active)
unfolding remaining
remaining-Leaves fp k range other downloaded [] leaves h = h
remaining-Leaves fp k range other downloaded ((j, r) ∷ active) leaves (inr h) =
    let later = remaining-Leaves fp k range other downloaded active leaves h in
    elim (Bool-cases (j == k && finishes other downloaded r)) [
      | inl out ↦ rw out later
      | inr stays ↦ rw stays (inr later)
    ]
remaining-Leaves fp k range other downloaded ((j, r) ∷ active) leaves (inl (e, f)) =
    let kept : (j == k && finishes other downloaded r) ≡ false =
      ground (arith, leaves, e, ap (finishes other downloaded) f) in
    rw kept (inl (e, f))

Holds-append :
    (fp : ℕ) (range : Range) (active more : Active)
    → Holds fp range active
    → Holds fp range (active ++ more)
Holds-append fp range [] more h = absurd h
Holds-append fp range ((k, r) ∷ active) more (inl here) = inl here
Holds-append fp range ((k, r) ∷ active) more (inr h) = inr (Holds-append fp range active more h)

Holds-name_lookup_success :
    (fp listener : ℕ) (range other : Range) (file : RemoteFileId) (m : Manager)
    → Holds fp range m.active
    → Holds fp range (name_lookup_success listener other (some file) m).0.active
unfolding name_lookup_success
Holds-name_lookup_success fp listener range other file m h = elim (Bool-cases m.cleanup) [
  | inl closing ↦ rw closing h
  | inr at_work ↦ elim (Bool-cases (under_way file.fingerprint other m.active)) [
    | inl shared ↦ rw (at_work, shared) h
    | inr new ↦
        rw (at_work, new) (Holds-append fp range m.active ((file.fingerprint, other) ∷ []) h)
  ]
]

name_lookup_success-cleanup :
    (listener : ℕ) (range : Range) (file : RemoteFileId) (m : Manager)
    → (name_lookup_success listener range (some file) m).0.cleanup ≡ m.cleanup
unfolding name_lookup_success
name_lookup_success-cleanup listener range file m = ground arith

go_on-Holds :
    (fp : ℕ) (range : Range) (more : List Meanwhile) (m : Manager)
    → All (Leaves fp range) more
    → Holds fp range m.active
    → Holds fp range (go_on more m).active × ((go_on more m).cleanup ≡ m.cleanup)
unfolding go_on download_finished
go_on-Holds fp range [] m leaves h = (h, refl)
go_on-Holds fp range (found_name listener other file ∷ more) m leaves h =
    let m1 = (name_lookup_success listener other (some file) m).0 in
    let (held, same) =
      go_on-Holds fp range more m1 leaves.1
        (Holds-name_lookup_success fp listener range other file m h) in
    (held, same ∙ name_lookup_success-cleanup listener other file m)
go_on-Holds fp range (finished file other downloaded ∷ more) m leaves h =
    go_on-Holds fp range more (download_finished file other downloaded m).0 leaves.1
      (remaining-Leaves fp file.fingerprint range other downloaded m.active leaves.0 h)

-- If a download is answered by data that does not cover its range, the range stays marked as under
-- way although its `getData` has been answered. That lasts through any names found for other
-- listeners and any other downloads finished meanwhile, as long as none of these, for the same
-- file, brings data that cover the range or is a failure for just this range: a listener for a
-- range in it, whose name is found then, before the cleanup, is subscribed and no `getData` is
-- called for it.
pub name_lookup_success-download_finished :
    (file : RemoteFileId) (range sub : Range) (listener : ℕ) (d : SparseData)
    (more : List Meanwhile) (m : Manager)
    → m.cleanup ≡ false
    → Holds file.fingerprint range m.active
    → is_contained_by range_of range d ≡ false
    → All (Leaves file.fingerprint range) more
    → contains range sub ≡ true
    → let m' = go_on more (download_finished file range (some d) m).0 in
      name_lookup_success listener sub (some file) m'
      ≡ (m', subscribed file.fingerprint listener sub, none)
unfolding name_lookup_success download_finished finishes
name_lookup_success-download_finished file range sub listener d more m open_ there short leaves
      inside =
    let m1 = (download_finished file range (some d) m).0 in
    let (stays, same) = go_on-Holds file.fingerprint range more m1 leaves (
      remaining-Leaves file.fingerprint file.fingerprint range range (some d) m.active
        (ground (arith, short)) there) in
    let shared = Holds-under_way file.fingerprint range sub (go_on more m1).active inside stays in
    let at_work : (go_on more m1).cleanup ≡ false = same ∙ open_ in rw (at_work, shared) refl
