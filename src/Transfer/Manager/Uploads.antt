-- ===== src/Transfer/Manager/Uploads.antt =====
-- The uploads of an `EventTransferManager` (libcore/src/transfer/EventTransferManager.hpp). What the
-- handlers answer is a function; a fired event goes to the listener that subscribed to it. `none` is
-- the use of a null pointer.
use sirikata.Base.{
  ℕ, ◌≡◌, refl, ap, ◌∙◌, ◌↔◌, Bool, true, false, ◌&&◌, Option, none, some, List, [], ◌∷◌, map,
  if◌then◌else◌, arith, inl, inr, Bool-cases, Option-cases,
}
use sirikata.Base.Quantify.{All}
use sirikata.Transfer.Sparse.{DenseData}
use sirikata.Transfer.Uri.{Text, UriContext, Uri, find_slash}
use sirikata.Transfer.Services.{
  ServiceParams, ListOfServices, Services, Registry, lookup, lookup_services,
}
use sirikata.Transfer.Manager.{Status, success, fail_nameupload, fail_upload, RemoteFileId}
pub mod Told

pub data UploadId : Type 0 where
  upload_event_id upload_data_event_id : UploadId

pub record UploadEvent : Type 0 where
  pub status : Status
  pub uri : Uri
  pub id : UploadId

infixl 5 ◌>>=◌
abbrev pub ◌>>=◌ {ℓ κ} : {A : Type ℓ} {B : Type κ} → Option A → (A → Option B) → Option B
none >>= f = none
some a >>= f = f a

-- An upload succeeds only if there was a service.
abbrev pub status_of : Status → Services → Bool → Status
status_of failure none ok = failure
status_of failure (some []) ok = failure
status_of failure (some (s ∷ services)) ok = if ok then success else failure

abbrev pub is_success : Status → Bool
is_success success = true
is_success _ = false

abbrev pub listed : Services → ListOfServices
listed none = []
listed (some services) = services

module _ (tolower : ℕ → ℕ) (isspace : ℕ → Bool) where
  module _ {H : Type 0} where
    -- The URI to upload to, and the handler of the service's protocol.
    unfoldable pub upload_uri : Registry H → UriContext → Text → Uri × Option H
    upload_uri registry service filename =
        let (proto, handler) = lookup service.proto registry in
        let uri = find_slash tolower isspace service filename in
        (record uri { context = record uri.context { proto = proto } }, handler)

    -- The rounds of `doUploadName` and of `doUploadData`: the URIs in order, and whether all
    -- uploads have succeeded. A handler is used without a test.
    unfoldable pub upload_round :
        (H → ServiceParams → Uri → Bool)
        → Registry H
        → Text
        → ListOfServices
        → Bool
        → Option (List Uri × Bool)
    upload_round send registry filename [] ok = some ([], ok)
    upload_round send registry filename ((service, params) ∷ services) ok =
        let (uri, handler) = upload_uri registry service filename in
        handler >>= λ h.
        upload_round send registry filename services (ok && send h params uri) >>= λ (asked, ok').
        some (uri ∷ asked, ok')

  module _ {N D : Type 0} (send_name : N → RemoteFileId → ServiceParams → Uri → Bool)
      (send_data : D → DenseData → ServiceParams → Uri → Bool) where
    -- `uploadName` from the lookup on, with the URIs and the event that is fired.
    unfoldable pub upload_name :
        Option (Registry N) → Uri → RemoteFileId → Option (List Uri × UploadEvent)
    upload_name registry name file = do
      names ← registry
      let services = (lookup_services name.context true names).0
      (asked, ok) ← upload_round (λ h. send_name h file) names name.path (listed services) true
      some (
        asked,
        record { status = status_of fail_nameupload services ok; uri = name; id = upload_event_id },
      )

    -- `uploadByHash` from the lookup on.
    unfoldable pub upload_by_hash :
        Option (Registry D) → RemoteFileId → DenseData → Option (List Uri × UploadEvent)
    upload_by_hash registry file d = do
      contents ← registry
      let services = (lookup_services file.uri.context true contents).0
      (asked, ok) ← upload_round (λ h. send_data h d) contents file.uri.path (listed services) true
      some (
        asked,
        record {
          status = status_of fail_upload services ok;
          uri = file.uri;
          id = upload_data_event_id;
        },
      )

    -- `upload` where both registries are there: the data, and `uploadDataFinishedDoName` on their
    -- event. What the listener is told, and the URIs that the name was sent to.
    unfoldable pub upload :
        Option (Registry N)
        → Option (Registry D)
        → Uri
        → RemoteFileId
        → DenseData
        → Option (List Uri × List UploadEvent)
    upload names contents name file d = do
      (sent, event) ← upload_by_hash contents file d
      if is_success event.status
          then (do (asked, event') ← upload_name names name file; some (asked, event' ∷ []))
          else some ([], event ∷ [])
