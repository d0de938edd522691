-- ===== src/Transfer/NetworkCache.antt =====
-- `NetworkCacheLayer` (libcore/src/transfer/NetworkCacheLayer.hpp): a request is tried at one
-- service after the other, and then handed to the next layer. A request is named by a number, for
-- its iterator; a handler that is asked to download answers later, once.
use sirikata.Base.{
  ℕ, suc, ◌+◌, ◌≡◌, Bool, true, false, Option, none, some, List, [], ◌∷◌, drop, if◌then◌else◌,
}
use sirikata.Base.Assoc.{lookup, remove, modify}
use sirikata.Transfer.Range.{Range}
use sirikata.Transfer.Sparse.{DenseData, SparseData, add_valid_data}
use sirikata.Transfer.Uri.{Uri}
use sirikata.Transfer.FileId.{RemoteFileId}
use sirikata.Transfer.Services.{ListOfServices, Services, Registry, lookup_uri}
pub mod Once
pub mod Rounds
pub mod Outcome
mod Tests

-- What the request waits for: `gotServices`, or `httpCallback` for the service of this number.
pub data Waiting : Type 0 where
  for_services : Waiting
  for_download : ℕ → Waiting

pub record RequestInfo : Type 0 where
  pub file : RemoteFileId
  pub range : Range
  pub services : Services
  pub waiting : Waiting

-- What the layer calls: `populateParentCaches`, the callback of a request, `getData` of the next
-- layer, and `download` of a handler for the service of this number.
pub data Act : Type 0 where
  populated : ℕ → DenseData → Act
  called_back : ℕ → SparseData → Act
  passed_on : ℕ → Act
  downloads : ℕ → ℕ → Uri → Act

-- The log has the newest call first; `next_request` is the number of requests so far.
pub record Layer : Type 0 where
  pub cleanup : Bool
  pub active : List (ℕ × RequestInfo)
  pub next_request : ℕ
  pub log : List Act

-- The end of a request that no service has served.
unfoldable pub give_up : ℕ → Layer → Layer
give_up id m = record m { active = remove id m.active; log = passed_on id ∷ m.log }

unfoldable pub start_download : ℕ → RequestInfo → ℕ → Uri → Layer → Layer
start_download id info which uri m = record m {
  active = modify id (record info { waiting = for_download which }) m.active;
  log = downloads id which uri ∷ m.log;
}

abbrev pub proceed : ℕ → RequestInfo → Option (ℕ × Uri) → Layer → Layer
proceed id info none m = give_up id m
proceed id info (some (which, uri)) m = start_download id info which uri m

module _ {H : Type 0} (tolower : ℕ → ℕ) (isspace : ℕ → Bool) (registry : Registry H) where
  -- The first service from a number on that has a handler, and the URI there.
  unfoldable pub next_service : Bool → RemoteFileId → ListOfServices → ℕ → Option (ℕ × Uri)
  next_service cleanup file [] which = none
  next_service cleanup file ((service, params) ∷ services) which =
      let next = next_service cleanup file services (suc which) in
      let (uri, handler) = lookup_uri tolower isspace registry service file.uri in
      if cleanup then none else elim handler [ none ↦ next | some h ↦ some (which, uri) ]

  unfoldable pub fetchable : Bool → RemoteFileId → Services → ℕ → Option (ℕ × Uri)
  fetchable cleanup file none which = none
  fetchable cleanup file (some services) which =
      next_service cleanup file (drop which services) which

  -- `doFetch`, with the calls of itself that it makes where a service has no handler.
  unfoldable pub do_fetch : ℕ → RequestInfo → ℕ → Layer → Layer
  do_fetch id info which m = proceed id info (fetchable m.cleanup info.file info.services which) m

  unfoldable pub got_services : ℕ → RequestInfo → Services → Layer → Layer
  got_services id info services m = do_fetch id (record info { services = services }) 0 m

  -- With the data, if there are any, and whether the download succeeded.
  unfoldable pub http_callback : ℕ → RequestInfo → ℕ → Option DenseData → Bool → Layer → Layer
  http_callback id info which none ok m = do_fetch id info (which + 1) m
  http_callback id info which (some d) false m = do_fetch id info (which + 1) m
  http_callback id info which (some d) true m = record m {
    active = remove id m.active;
    log = called_back id (add_valid_data d []) ∷ populated info.file.fingerprint d ∷ m.log;
  }

  unfoldable pub get_data : RemoteFileId → Range → Layer → Layer
  get_data file range m = record m {
    active =
        (
          m.next_request,
          record { file = file; range = range; services = none; waiting = for_services },
        )
        ∷ m.active;
    next_request = suc m.next_request;
  }

  -- The steps of several threads; each answer comes to a request that waits for it.
  pub data Step (m : Layer) : Layer → Type 0 where
    request : (file : RemoteFileId) (range : Range) → Step m (get_data file range m)
    services :
        (id : ℕ) (info : RequestInfo) (found : Services)
        → lookup id m.active ≡ some info
        → info.waiting ≡ for_services
        → Step m (got_services id info found m)
    downloaded :
        (id which : ℕ) (info : RequestInfo) (received : Option DenseData) (success : Bool)
        → lookup id m.active ≡ some info
        → info.waiting ≡ for_download which
        → Step m (http_callback id info which received success m)
    close : Step m (record m { cleanup = true })

abbrev pub start_layer : Layer
start_layer = record { cleanup = false; active = []; next_request = 0; log = [] }

module _ {H : Type 0} (tolower : ℕ → ℕ) (isspace : ℕ → Bool) (registry : Registry H) where
  pub data Reach : Layer → Type 0 where
    start : Reach start_layer
    later : {m n : Layer} → Reach m → Step tolower isspace registry m n → Reach n
