-- ===== src/Transfer/Manager/Uploads/Told.antt =====
-- What the listener of an upload is told.
use sirikata.Base.{
  ℕ, ◌≡◌, refl, Bool, true, false, ◌&&◌, none, some, [], ◌∷◌, map, if◌then◌else◌, arith,
}
use sirikata.Base.Quantify.{All, every}
use sirikata.Transfer.Sparse.{DenseData}
use sirikata.Transfer.Uri.{Text, UriContext, Uri}
use sirikata.Transfer.Services.{ServiceParams, ListOfServices, Services, Registry, lookup_services}
use sirikata.Transfer.Manager.{Status, success, fail_nameupload, fail_upload, RemoteFileId}
use sirikata.Transfer.Manager.Uploads.{
  UploadEvent, upload_event_id, upload_data_event_id, status_of, listed, upload_uri, upload_round,
  upload_name, upload_by_hash, upload,
}

-- There is a service, and what is asked of each succeeds.
abbrev pub went : (UriContext × ServiceParams → Bool) → Services → Bool
went sends none = false
went sends (some []) = false
went sends (some (s ∷ services)) = sends s && every sends services

status_of-went :
    (failure : Status) (sends : UriContext × ServiceParams → Bool) (services : Services)
    → status_of failure services (every sends (listed services))
      ≡ (if went sends services then success else failure)
status_of-went failure sends none = refl
status_of-went failure sends (some []) = refl
status_of-went failure sends (some (s ∷ services)) = ground arith

module _ (tolower : ℕ → ℕ) (isspace : ℕ → Bool) where
  module _ {H : Type 0} (registry : Registry H) (filename : Text) where
    -- Every service has a handler.
    abbrev pub AllHandled : ListOfServices → Type 0
    AllHandled = All (λ (s : UriContext × ServiceParams).
        (h : H) × ((upload_uri tolower isspace registry s.0 filename).1 ≡ some h))

    abbrev pub uri_at : UriContext × ServiceParams → Uri
    uri_at s = (upload_uri tolower isspace registry s.0 filename).0

    abbrev pub sends : (H → ServiceParams → Uri → Bool) → UriContext × ServiceParams → Bool
    sends send s = elim (upload_uri tolower isspace registry s.0 filename).1 [
      | none ↦ false
      | some h ↦ send h s.1 (uri_at s)
    ]

    upload_round-every :
        (send : H → ServiceParams → Uri → Bool) (services : ListOfServices) (ok : Bool)
        → AllHandled services
        → upload_round tolower isspace send registry filename services ok
          ≡ some (map uri_at services, ok && every (sends send) services)
    unfolding upload_round
    upload_round-every send [] ok h = ground arith
    upload_round-every send ((service, params) ∷ services) ok ((handler, known), h) =
        let uri = (upload_uri tolower isspace registry service filename).0 in
        rw (known, upload_round-every send services (ok && send handler params uri) h)
          (ground arith)

  module _ {N D : Type 0} (send_name : N → RemoteFileId → ServiceParams → Uri → Bool)
      (send_data : D → DenseData → ServiceParams → Uri → Bool) (names : Registry N)
      (contents : Registry D) (name : Uri) (file : RemoteFileId) (d : DenseData) where
    abbrev pub name_services : Services
    name_services = (lookup_services name.context true names).0

    abbrev pub data_services : Services
    data_services = (lookup_services file.uri.context true contents).0

    -- There was a service for the data, and each upload of them succeeded; the same for the name.
    abbrev pub data_went : Bool
    data_went = went (sends contents file.uri.path (λ h. send_data h d)) data_services

    abbrev pub name_went : Bool
    name_went = went (sends names name.path (λ h. send_name h file)) name_services

    abbrev pub data_event : Status → UploadEvent
    data_event status = record { status = status; uri = file.uri; id = upload_data_event_id }

    abbrev pub name_event : Status → UploadEvent
    name_event status = record { status = status; uri = name; id = upload_event_id }

    upload_by_hash_event :
        AllHandled contents file.uri.path (listed data_services)
        → upload_by_hash tolower isspace send_name send_data (some contents) file d
          ≡ some (
            map (uri_at contents file.uri.path) (listed data_services),
            data_event (if data_went then success else fail_upload),
          )
    unfolding upload_by_hash
    upload_by_hash_event h =
        rw
          (
            upload_round-every contents file.uri.path (λ h. send_data h d) (listed data_services)
                true h,
            status_of-went fail_upload (sends contents file.uri.path (λ h. send_data h d))
                data_services,
          )
          refl

    upload_name_event :
        AllHandled names name.path (listed name_services)
        → upload_name tolower isspace send_name send_data (some names) name file
          ≡ some (
            map (uri_at names name.path) (listed name_services),
            name_event (if name_went then success else fail_nameupload),
          )
    unfolding upload_name
    upload_name_event h =
        rw
          (
            upload_round-every names name.path (λ h. send_name h file) (listed name_services) true
                h,
            status_of-went fail_nameupload (sends names name.path (λ h. send_name h file))
                name_services,
          )
          refl

    -- If both registries are there and every service that is found has a handler: where there is no
    -- service for the data, or an upload of the data fails, the name is sent nowhere and the event
    -- that the listener is told says that the data were not uploaded. Otherwise the name is sent to
    -- all its services in order, and the event says success if there is such a service and all
    -- uploads of the name succeed, and else that the name was not uploaded.
    pub upload_told :
        AllHandled contents file.uri.path (listed data_services)
        → AllHandled names name.path (listed name_services)
        → let result =
            upload tolower isspace send_name send_data (some names) (some contents) name file d in
          let asked = map (uri_at names name.path) (listed name_services) in
          (data_went ≡ false → result ≡ some ([], data_event fail_upload ∷ []))
          × (data_went ≡ true
              → name_went ≡ false
              → result ≡ some (asked, name_event fail_nameupload ∷ []))
          × (data_went ≡ true → name_went ≡ true → result ≡ some (asked, name_event success ∷ []))
    unfolding upload
    upload_told h k = (
      λ failed. rw (upload_by_hash_event h, failed) refl,
      λ sent failed. rw (upload_by_hash_event h, sent, upload_name_event k, failed) refl,
      λ sent all. rw (upload_by_hash_event h, sent, upload_name_event k, all) refl,
    )
