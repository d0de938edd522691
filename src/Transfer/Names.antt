-- ===== src/Transfer/Names.antt =====
-- `NameLookupManager` and `CachedNameLookupManager` (libcore/src/transfer/NameLookupManager.hpp,
-- CachedNameLookupManager.hpp): from the URI of a file to its hash value. What a handler answers to
-- a lookup is a function of the handler and of the URI; `tolower` and `isspace` are the locale's.
use sirikata.Base.{ℕ, ◌≡◌, Bool, true, false, Option, none, some, List, [], ◌∷◌, if◌then◌else◌}
use sirikata.Transfer.Uri.{Text, UriContext, Uri, find_slash}
use sirikata.Transfer.Uri.Order.{uri_less}
use sirikata.Transfer.FileId.{RemoteFileId, file_id_of}
use sirikata.Transfer.Services.{
  find, insert, ListOfServices, Services, Registry, lookup_uri, lookup_services,
}
pub mod Cached
mod Tests

-- What the callback is called with: an id or NULL; or the hash value in a file name is none, which
-- throws an exception.
pub data Result : Type 0 where
  found : RemoteFileId → Result
  failed thrown : Result

-- The managers' registries, of which the one for downloads may be NULL, and the cache.
pub record Names (H D : Type 0) : Type 0 where
  pub handlers : Registry H
  pub downloads : Option (Registry D)
  pub cache : List (Uri × RemoteFileId)

-- `hashedDownload`, when no service has succeeded.
unfoldable pub hashed_download : Uri → Services → Result
hashed_download name none = failed
hashed_download name (some []) = failed
hashed_download name (some (service ∷ services)) = elim (file_id_of name) [
  | none ↦ thrown
  | some file ↦ found file
]

module _ {H D : Type 0} where
  unfoldable pub no_more_services : Uri → Names H D → Result × Names H D
  no_more_services name n = elim n.downloads [
    | none ↦ (failed, n)
    | some registry ↦
        let (services, registry') = lookup_services name.context true registry in
        (hashed_download name services, record n { downloads = some registry' })
  ]

  -- `addToCache` of the manager with a cache.
  abbrev pub add_to_cache : Uri → RemoteFileId → Names H D → Names H D
  add_to_cache name file n = record n { cache = insert uri_less name file n.cache }

module _ {H : Type 0} (tolower : ℕ → ℕ) (isspace : ℕ → Bool) where
  module _ (name_lookup : H → Uri → Option (ℕ × Text)) where
    -- What one service gives: the file id of `gotNameLookup`, where it has a handler that succeeds.
    unfoldable pub try_service : Registry H → UriContext → Uri → Option RemoteFileId
    try_service handlers service name =
        let (uri, handler) = lookup_uri tolower isspace handlers service name in
        elim handler [
          | none ↦ none
          | some h ↦ elim (name_lookup h uri) [
            | none ↦ none
            | some (hash, str) ↦
                some
                  (record { fingerprint = hash; uri = find_slash tolower isspace name.context str })
          ]
        ]

    -- `doNameLookup` from one service on.
    unfoldable pub do_name_lookup : Registry H → Uri → ListOfServices → Option RemoteFileId
    do_name_lookup handlers name [] = none
    do_name_lookup handlers name ((service, params) ∷ services) =
        let next = do_name_lookup handlers name services in
        elim (try_service handlers service name) [ none ↦ next | some file ↦ some file ]

    module _ {D : Type 0} where
      -- The lookup of the services, and `doNameLookup` over all of them.
      unfoldable pub ask_services : Uri → Names H D → Option RemoteFileId × Names H D
      ask_services name n =
          let (services, handlers') = lookup_services name.context true n.handlers in
          let list : ListOfServices = elim services [ none ↦ [] | some list ↦ list ] in
          (do_name_lookup handlers' name list, record n { handlers = handlers' })

      -- `NameLookupManager::lookupHash`, of an object that has a cache or none.
      unfoldable pub lookup_hash : Bool → Uri → Names H D → Result × Names H D
      lookup_hash caches name n =
          let (answer, n') = ask_services name n in
          elim answer [
            | none ↦ no_more_services name n'
            | some file ↦ (found file, if caches then add_to_cache name file n' else n')
          ]

      -- `CachedNameLookupManager::lookupHash`.
      unfoldable pub cached_lookup_hash : Uri → Names H D → Result × Names H D
      cached_lookup_hash name n = elim (find uri_less name n.cache) [
        | none ↦ lookup_hash true name n
        | some file ↦ (found file, n)
      ]
