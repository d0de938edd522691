-- ===== src/Transfer/Manager/Steps.antt =====
-- The downloads of an `EventTransferManager` as steps of several threads: name lookups, the answers
-- of the cache layers and the events that are fired come in any order.
use sirikata.Base.{ℕ, suc, ◌≡◌, true, false, Option, none, some, List, [], ◌∷◌, ◌++◌}
use sirikata.Base.Int.{pos}
use sirikata.Transfer.Range.{Range}
use sirikata.Transfer.Sparse.{SparseData}
use sirikata.Transfer.Manager.{
  RemoteFileId, DownloadEvent, Act, fired, answered, Manager, download_finished,
  name_lookup_success, enter, leave,
}

-- A lookup that has not been answered, for a listener and a range.
abbrev pub Lookup : Type 0
Lookup = ℕ × Range

-- A `getData` that has not been answered.
abbrev pub Get : Type 0
Get = RemoteFileId × Range

-- `returning` counts the answered lookups before their last count, `finishing` has the events that
-- are about to be fired, and the log has the newest call first.
pub record System : Type 0 where
  pub manager : Manager
  pub lookups : List Lookup
  pub returning : ℕ
  pub gets : List Get
  pub finishing : List DownloadEvent
  pub log : List Act

abbrev pub added {ℓ} : {A : Type ℓ} → Option A → List A → List A
added none xs = xs
added (some x) xs = x ∷ xs

abbrev pub looked_up : Lookup → Option RemoteFileId → List Lookup → System → System
looked_up (listener, range) remote others s =
    let (m, act, get) = name_lookup_success listener range remote s.manager in
    record {
      manager = m;
      lookups = others;
      returning = suc s.returning;
      gets = added get s.gets;
      finishing = s.finishing;
      log = act ∷ s.log;
    }

abbrev pub got : Get → Option SparseData → List Get → System → System
got (file, range) downloaded others s =
    let (m, event) = download_finished file range downloaded s.manager in
    record s {
      manager = m;
      gets = others;
      finishing = added event s.finishing;
      log = answered file range downloaded ∷ s.log;
    }

-- `download` and `downloadByHash` begin a lookup; the latter's has its answer at once.
pub data Step (s : System) : System → Type 0 where
  download :
      (listener : ℕ) (range : Range)
      → Step s (record s { manager = enter s.manager; lookups = (listener, range) ∷ s.lookups })
  answer_lookup :
      (before after : List Lookup) (lookup : Lookup) (remote : Option RemoteFileId)
      → s.lookups ≡ before ++ lookup ∷ after
      → Step s (looked_up lookup remote (before ++ after) s)
  return :
      (n : ℕ) → s.returning ≡ suc n → Step s (record s { manager = leave s.manager; returning = n })
  answer_get :
      (before after : List Get) (get : Get) (downloaded : Option SparseData)
      → s.gets ≡ before ++ get ∷ after
      → Step s (got get downloaded (before ++ after) s)
  fire :
      (before after : List DownloadEvent) (event : DownloadEvent)
      → s.finishing ≡ before ++ event ∷ after
      → Step s (record s { finishing = before ++ after; log = fired event ∷ s.log })
  cleanup : Step s (record s { manager = record s.manager { cleanup = true } })

abbrev pub start_system : System
start_system = record {
  manager = record { cleanup = false; pending = pos 0; active = [] };
  lookups = [];
  returning = 0;
  gets = [];
  finishing = [];
  log = [];
}

pub data Reach : System → Type 0 where
  start : Reach start_system
  later : {s t : System} → Reach s → Step s t → Reach t
