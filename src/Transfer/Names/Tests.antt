-- ===== src/Transfer/Names/Tests.antt =====
-- One name, looked up twice (libcore/src/transfer/CachedNameLookupManager.hpp).
use sirikata.Base.{ℕ, ◌≡◌, refl, true, false, none, some, [], ◌∷◌}
use sirikata.Transfer.Uri.{Uri, find_slash, find, rfind}
use sirikata.Transfer.Uri.Order.{text_less}
use sirikata.Transfer.FileId.{RemoteFileId}
use sirikata.Transfer.Services.{Registry, lookup, lookup_uri, lookup_services}
use sirikata.Transfer.Services
use sirikata.Transfer.Names.{
  found, Names, try_service, do_name_lookup, ask_services, cached_lookup_hash,
}
use sirikata.Transfer.Names.Cached.{Answers, after_lookups, cached_lookup_hash-after_lookups}

abbrev name : Uri
name = record {
  context = record { proto = 104 ∷ []; host = 115 ∷ []; user = []; directory = [] };
  path = 102 ∷ [];
}

abbrev names : Names ℕ ℕ
names = record {
  handlers = record {
    handlers = (104 ∷ [], (104 ∷ [], some 5)) ∷ [];
    services = none;
    allow_non_service = true;
  };
  downloads = none;
  cache = [];
}

-- The handler has the file's hash, and later it has none.
abbrev answers : Answers ℕ
answers h uri = some (9, 103 ∷ [])

abbrev silent : Answers ℕ
silent h uri = none

abbrev file : RemoteFileId
file = record { fingerprint = 9; uri = record name { path = 103 ∷ [] } }

asked : (ask_services (λ c. c) (λ c. false) answers name names).0 ≡ some file
unfolding ask_services lookup_services do_name_lookup try_service lookup_uri lookup find_slash find
    rfind Services.find text_less
asked = refl

cached_lookup_hash-after_lookups_example :
    let first = cached_lookup_hash (λ c. c) (λ c. false) answers name names in
    let n' = after_lookups (λ c. c) (λ c. false) ((file.uri, silent) ∷ []) first.1 in
    (first.0 ≡ found file)
    × (cached_lookup_hash (λ c. c) (λ c. false) silent name n' ≡ (found file, n'))
unfolding Services.find
cached_lookup_hash-after_lookups_example =
    cached_lookup_hash-after_lookups (λ c. c) (λ c. false) answers silent name file names
      ((file.uri, silent) ∷ []) refl asked
