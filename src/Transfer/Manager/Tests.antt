-- ===== src/Transfer/Manager/Tests.antt =====
-- Two listeners of one file share its download (libcore/src/transfer/EventTransferManager.hpp).
use sirikata.Base.{
  ℕ, ◌≡◌, refl, Bool, List, inl, inr, true, false, ◌||◌, map, none, some, [], ◌∷◌, arith,
}
use sirikata.Base.Int.{pos, ◌+ℤ◌}
use sirikata.Base.Quantify.{any, reject, All}
use sirikata.Transfer.Range.{Range, endbyte, contains, is_contained_by, follow}
use sirikata.Transfer.Sparse.{DenseData}
use sirikata.Transfer.Uri.{UriContext, Uri}
use sirikata.Transfer.Uri.Order.{text_less}
use sirikata.Transfer.Services
use sirikata.Transfer.Services.{ServiceParams, Registry, lookup_services}
use sirikata.Transfer.Manager.Uploads.{upload_uri, upload_event_id, upload_data_event_id, upload}
use sirikata.Transfer.Manager.Uploads.Told.{AllHandled, uri_at, data_went, name_went, upload_told}
use sirikata.Transfer.Manager.{
  success, fail_upload, fail_nameupload, finishes, RemoteFileId, download_event, Act, subscribed,
  download_finished, under_way, name_lookup_success,
}
use sirikata.Transfer.Manager.Steps.{
  System, download, answer_lookup, start_system, Reach, start, later,
}
use sirikata.Transfer.Manager.Serving.{AllFair, covers, serves, unserved, unserved_promised}
use sirikata.Transfer.Manager.Stale.{
  Meanwhile, found_name, finished, go_on, name_lookup_success-download_finished,
}

abbrev bytes_at : ℕ → ℕ → Range
bytes_at from n = record { start = from; length = n; whole_file = false }

abbrev nowhere : Uri
nowhere = record {
  context = record { proto = []; host = []; user = []; directory = [] };
  path = [];
}

abbrev file : RemoteFileId
file = record { fingerprint = 9; uri = nowhere }

abbrev piece : DenseData
piece = record { range = bytes_at 0 4; bytes = 1 ∷ 2 ∷ 3 ∷ 4 ∷ [] }

abbrev asked : System
asked = record start_system {
  manager = record { cleanup = false; pending = pos 2; active = [] };
  lookups = (6, bytes_at 1 2) ∷ (5, bytes_at 0 4) ∷ [];
}

asked-Reach : Reach asked
unfolding ◌+ℤ◌
asked-Reach = later (later start (download 5 (bytes_at 0 4))) (download 6 (bytes_at 1 2))

abbrev waiting : System
waiting = record {
  manager = record { cleanup = false; pending = pos 2; active = (9, bytes_at 0 4) ∷ [] };
  lookups = [];
  returning = 2;
  gets = (file, bytes_at 0 4) ∷ [];
  finishing = [];
  log = subscribed 9 6 (bytes_at 1 2) ∷ subscribed 9 5 (bytes_at 0 4) ∷ [];
}

waiting-Reach : Reach waiting
unfolding name_lookup_success under_way contains endbyte
waiting-Reach =
    later
      (later asked-Reach
        (answer_lookup ((6, bytes_at 1 2) ∷ []) [] (5, bytes_at 0 4) (some file) refl))
      (answer_lookup [] [] (6, bytes_at 1 2) (some file) refl)

waiting-AllFair : AllFair waiting.log
unfolding endbyte
waiting-AllFair = ((omega arith, inr (omega arith)), ((omega arith, inr (omega arith)), tt))

unserved_promised_example :
    All
      (λ w. (any (covers w) waiting.gets || any (λ e. serves e w) waiting.finishing) ≡ true)
      (unserved waiting.log)
    × (waiting.gets ≡ [] → waiting.finishing ≡ [] → unserved waiting.log ≡ [])
unserved_promised_example = unserved_promised {s = waiting} waiting-Reach waiting-AllFair

-- One event serves both.
both_served :
    unserved (Act.fired (download_event success (some file) (some (piece ∷ []))) ∷ waiting.log) ≡ []
unfolding unserved serves is_contained_by follow endbyte reject
both_served = refl

-- Another range is asked for, which is downloaded too.
abbrev more : List Meanwhile
more = found_name 8 (bytes_at 4 6) file ∷ finished file (bytes_at 4 6) (some (piece ∷ [])) ∷ []

name_lookup_success-download_finished_example :
    let m' =
      go_on more
        (download_finished file
          (bytes_at 0 8)
          (some (piece ∷ []))
          (record { cleanup = false; pending = pos 0; active = (9, bytes_at 0 8) ∷ [] })).0 in
    name_lookup_success 7 (bytes_at 2 3) (some file) m' ≡ (m', subscribed 9 7 (bytes_at 2 3), none)
unfolding is_contained_by follow endbyte contains finishes
name_lookup_success-download_finished_example =
    name_lookup_success-download_finished file (bytes_at 0 8) (bytes_at 2 3) 7 (piece ∷ []) more
      (record { cleanup = false; pending = pos 0; active = (9, bytes_at 0 8) ∷ [] }) refl
      (inl (refl, refl)) refl (tt, (refl, tt)) refl

abbrev server : UriContext
server = record { proto = 104 ∷ []; host = 115 ∷ []; user = []; directory = [] }

abbrev registry : Registry ℕ
registry = record {
  handlers = (104 ∷ [], (104 ∷ [], some 5)) ∷ [];
  services = none;
  allow_non_service = true;
}

abbrev name : Uri
name = record { context = server; path = 102 ∷ [] }

abbrev stored : RemoteFileId
stored = record { fingerprint = 9; uri = name }

handled : AllHandled (λ c. c) (λ c. false) registry (102 ∷ []) ((server, []) ∷ [])
unfolding upload_uri Services.lookup Services.find text_less
handled = ((5, refl), tt)

-- No upload of a name succeeds, and all of data do.
abbrev no_name : ℕ → RemoteFileId → ServiceParams → Uri → Bool
no_name h f params uri = false

abbrev all_data : ℕ → DenseData → ServiceParams → Uri → Bool
all_data h d params uri = true

upload_told_example :
    let result =
      upload
        (λ c. c)
        (λ c. false)
        no_name
        all_data
        (some registry)
        (some registry)
        name
        stored
        piece in
    let asked = map (uri_at (λ c. c) (λ c. false) registry name.path) ((server, []) ∷ []) in
    (data_went (λ c. c) (λ c. false) no_name all_data registry registry name stored piece ≡ false
      → result
        ≡ some ([], record { status = fail_upload; uri = name; id = upload_data_event_id } ∷ []))
    × (data_went (λ c. c) (λ c. false) no_name all_data registry registry name stored piece ≡ true
        → name_went (λ c. c) (λ c. false) no_name all_data registry registry name stored piece
          ≡ false
        → result
          ≡ some
              (asked, record { status = fail_nameupload; uri = name; id = upload_event_id } ∷ []))
    × (data_went (λ c. c) (λ c. false) no_name all_data registry registry name stored piece ≡ true
        → name_went (λ c. c) (λ c. false) no_name all_data registry registry name stored piece
          ≡ true
        → result ≡ some (asked, record { status = success; uri = name; id = upload_event_id } ∷ []))
unfolding lookup_services Services.find text_less
upload_told_example =
    upload_told (λ c. c) (λ c. false) no_name all_data registry registry name stored piece handled
      handled

-- Of these, the second: the data arrive, and the name does not.
only_data_went :
    (data_went (λ c. c) (λ c. false) no_name all_data registry registry name stored piece ≡ true)
    × (name_went (λ c. c) (λ c. false) no_name all_data registry registry name stored piece ≡ false)
unfolding lookup_services Services.find text_less upload_uri Services.lookup
only_data_went = (refl, refl)
