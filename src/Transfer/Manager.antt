-- ===== src/Transfer/Manager.antt =====
-- `EventTransferManager` (libcore/src/transfer/EventTransferManager.hpp), its downloads: listeners
-- subscribe to the event of a file, and one download serves those whose ranges it covers. A
-- fingerprint and a listener are numbers.
use sirikata.Base.{
  ℕ, suc, ◌+◌, ◌≡◌, Bool, true, false, ◌&&◌, ◌||◌, Option, none, some, List, [], ◌∷◌, ◌++◌, ◌==◌,
  if◌then◌else◌,
}
use sirikata.Base.Int.{ℤ, pos, ◌+ℤ◌, ◌-ℤ◌}
use sirikata.Transfer.Range.{Range, eqb, contains, is_contained_by}
use sirikata.Transfer.Sparse.{SparseData, range_of}
pub use sirikata.Transfer.FileId.{RemoteFileId}
pub mod Steps
pub mod Serving
pub mod Stale
pub mod Pending
pub mod Uploads
mod Tests

pub data Status : Type 0 where
  success fail_unimplemented fail_namelookup fail_download : Status
  fail_nameupload fail_upload fail_auth fail_shutdown : Status

-- Where the source makes an event for `RemoteFileId()`, the file is `none`.
pub record DownloadEvent : Type 0 where
  pub status : Status
  pub file : Option RemoteFileId
  pub contents : SparseData

-- The constructor: without data the event holds an empty `SparseData`.
abbrev pub download_event : Status → Option RemoteFileId → Option SparseData → DownloadEvent
download_event stat file downloaded = record {
  status = stat;
  file = file;
  contents = elim downloaded [ none ↦ [] | some d ↦ d ];
}

-- A call of a listener, a call of the event system, and the answer of the first cache layer to a
-- `getData`. A subscription is made for the fingerprint; the range tells what it was made for.
pub data Act : Type 0 where
  told : ℕ → DownloadEvent → Act
  subscribed : ℕ → ℕ → Range → Act
  fired : DownloadEvent → Act
  answered : RemoteFileId → Range → Option SparseData → Act

abbrev pub Active : Type 0
Active = List (ℕ × Range)

pub record Manager : Type 0 where
  pub cleanup : Bool
  pub pending : ℤ
  pub active : Active

-- The test that `downloadFinished` erases by.
unfoldable pub finishes : Range → Option SparseData → Range → Bool
finishes range none r = eqb r range
finishes range (some d) r = is_contained_by range_of r d

-- The loop of `downloadFinished` over the ranges of one fingerprint: what stays, and `found`.
unfoldable pub remaining : ℕ → Range → Option SparseData → Active → Active
remaining fp range downloaded [] = []
remaining fp range downloaded ((k, r) ∷ active) =
    let rest = remaining fp range downloaded active in
    if k == fp && finishes range downloaded r then rest else (k, r) ∷ rest

unfoldable pub found_range : ℕ → Range → Option SparseData → Bool → Active → Bool
found_range fp range downloaded found [] = found
found_range fp range downloaded found ((k, r) ∷ active) =
    found_range fp range downloaded (if k == fp && finishes range downloaded r then true else found)
      active

unfoldable pub download_finished :
    RemoteFileId → Range → Option SparseData → Manager → Manager × Option DownloadEvent
unfolding found_range remaining
download_finished file range downloaded m =
    let found = found_range file.fingerprint range downloaded true m.active in
    let stat : Status = elim downloaded [ none ↦ fail_download | some d ↦ success ] in
    (
      record m { active = remaining file.fingerprint range downloaded m.active },
      if found then some (download_event stat (some file) downloaded) else none,
    )

-- Whether a download that is under way covers the range.
unfoldable pub under_way : ℕ → Range → Active → Bool
under_way fp range [] = false
under_way fp range ((k, r) ∷ active) = (k == fp && contains r range) || under_way fp range active

-- `downloadNameLookupSuccess` up to its last count: the manager, the call that is made, and the
-- `getData` that is to be called without the lock.
unfoldable pub name_lookup_success :
    ℕ → Range → Option RemoteFileId → Manager → Manager × Act × Option (RemoteFileId × Range)
name_lookup_success listener range none m =
    (m, told listener (download_event fail_namelookup none none), none)
name_lookup_success listener range (some file) m =
    let fp = file.fingerprint in
    if m.cleanup
    then (m, told listener (download_event fail_shutdown (some file) none), none)
    else if under_way fp range m.active
    then (m, subscribed fp listener range, none)
    else (
      record m { active = m.active ++ (fp, range) ∷ [] },
      subscribed fp listener range,
      some (file, range),
    )

-- `++mPendingCleanup` of `download` and `downloadByHash`, and `--mPendingCleanup`.
abbrev pub enter : Manager → Manager
enter m = record m { pending = m.pending +ℤ pos 1 }

abbrev pub leave : Manager → Manager
leave m = record m { pending = m.pending -ℤ pos 1 }
