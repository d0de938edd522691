-- ===== src/Transfer/NetworkCache/Rounds.antt =====
-- The rounds of one request to a `NetworkCacheLayer`, and what it should come to.
use sirikata.Base.{
  ℕ, zero, suc, ◌+◌, ◌≡◌, refl, ap, Bool, true, false, Option, none, some, List, [], ◌∷◌, drop,
  if◌then◌else◌, arith,
}
use sirikata.Base.Assoc.{lookup, remove, has, lookup-modify, remove-modify}
use sirikata.Transfer.Sparse.{DenseData, add_valid_data}
use sirikata.Transfer.Uri.{UriContext, Uri}
use sirikata.Transfer.FileId.{RemoteFileId}
use sirikata.Transfer.Services.{ServiceParams, ListOfServices, Registry, lookup_uri}
use sirikata.Transfer.NetworkCache.{
  for_services, for_download, RequestInfo, Act, populated, called_back, passed_on, downloads, Layer,
  proceed, start_download, next_service, fetchable, do_fetch, http_callback,
}

-- What a handler answers for the service of a number.
abbrev pub Answers : Type 0
Answers = ℕ → Option DenseData × Bool

-- The data of an answer that is taken.
abbrev pub usable : Option DenseData × Bool → Option DenseData
usable (d, ok) = if ok then d else none

pub drop-suc {ℓ} :
    {A : Type ℓ} (n : ℕ) (xs : List A) {x : A} {rest : List A}
    → drop n xs ≡ x ∷ rest
    → drop (suc n) xs ≡ rest
drop-suc zero [] e = absurd (cc)
drop-suc zero (x ∷ xs) e = ground arith
drop-suc (suc n) [] e = absurd (cc)
drop-suc (suc n) (x ∷ xs) e = drop-suc n xs e

-- The layer when the request has ended.
abbrev pub ended : ℕ → List Act → Layer → Layer
ended id log m = record m { active = remove id m.active; log = log }

pub ended-start :
    (id : ℕ) (info : RequestInfo) (which : ℕ) (uri : Uri) (m : Layer) (log : List Act)
    → ended id log (start_download id info which uri m) ≡ ended id log m
unfolding start_download
ended-start id info which uri m log =
    ap (λ a. record m { active = a; log = log }) (remove-modify id _ m.active)

pub start_download-waits :
    (id : ℕ) (info : RequestInfo) (which : ℕ) (uri : Uri) (m : Layer)
    → has id m.active ≡ true
    → lookup id (start_download id info which uri m).active
      ≡ some (record info { waiting = for_download which })
unfolding start_download
start_download-waits id info which uri m there =
    let w : RequestInfo = record info { waiting = for_download which } in
    ground (arith, lookup-modify id id w m.active there)

module _ {H : Type 0} (tolower : ℕ → ℕ) (isspace : ℕ → Bool) (registry : Registry H) where
  -- The callbacks of one request until it waits no more, with as many rounds as there is fuel.
  unfoldable pub serve : ℕ → Answers → ℕ → Layer → Layer
  serve zero answers id m = m
  serve (suc fuel) answers id m =
      let next = λ (info : RequestInfo) (k : ℕ).
        serve fuel answers id
          (http_callback tolower isspace registry id info k (answers k).0 (answers k).1 m) in
      elim (lookup id m.active) [
        | none ↦ m
        | some info ↦ elim info.waiting [ for_services ↦ m | for_download k ↦ next info k ]
      ]

  -- The calls of a request, the newest first, in front of those before: the services are asked in
  -- order, from a number on.
  unfoldable pub outcome : Answers → ℕ → RemoteFileId → ListOfServices → ℕ → List Act → List Act
  outcome answers id file [] which log = passed_on id ∷ log
  outcome answers id file ((service, params) ∷ services) which log =
      let (uri, handler) = lookup_uri tolower isspace registry service file.uri in
      let asked = downloads id which uri ∷ log in
      let skipped = outcome answers id file services (suc which) log in
      let failed = outcome answers id file services (suc which) asked in
      elim handler [
        | none ↦ skipped
        | some h ↦ elim (usable (answers which)) [
          | none ↦ failed
          | some d ↦ called_back id (add_valid_data d []) ∷ populated file.fingerprint d ∷ asked
        ]
      ]

  module _ (answers : Answers) (id : ℕ) (file : RemoteFileId) (service : UriContext)
      (params : ServiceParams) (services : ListOfServices) (which : ℕ) (log : List Act) where
    pub outcome_skip :
        (lookup_uri tolower isspace registry service file.uri).1 ≡ none
        → outcome answers id file ((service, params) ∷ services) which log
          ≡ outcome answers id file services (suc which) log
    unfolding outcome
    outcome_skip e = rw (outcome, e) refl

    module _ (h : H) where
      pub outcome_failed :
          (lookup_uri tolower isspace registry service file.uri).1 ≡ some h
          → usable (answers which) ≡ none
          → outcome answers id file ((service, params) ∷ services) which log
            ≡ outcome answers id file services
                (suc which)
                (downloads id which (lookup_uri tolower isspace registry service file.uri).0 ∷ log)
      unfolding outcome
      outcome_failed e f = rw (outcome, e, f) refl

      pub outcome_taken :
          (d : DenseData)
          → (lookup_uri tolower isspace registry service file.uri).1 ≡ some h
          → usable (answers which) ≡ some d
          → outcome answers id file ((service, params) ∷ services) which log
            ≡ called_back id (add_valid_data d [])
              ∷ populated file.fingerprint d
              ∷ downloads id which (lookup_uri tolower isspace registry service file.uri).0
              ∷ log
      unfolding outcome
      outcome_taken d e f = rw (outcome, e, f) refl

  pub serve_done :
      (fuel : ℕ) (answers : Answers) (id : ℕ) (m : Layer)
      → lookup id m.active ≡ none
      → serve fuel answers id m ≡ m
  unfolding serve
  serve_done zero answers id m e = refl
  serve_done (suc fuel) answers id m e = rw (serve, e) refl

  pub serve_waits :
      (fuel : ℕ) (answers : Answers) (id : ℕ) (m : Layer) (info : RequestInfo) (k : ℕ)
      → lookup id m.active ≡ some (record info { waiting = for_download k })
      → serve (suc fuel) answers id m
        ≡ serve fuel answers id (
            http_callback tolower isspace registry id
              (record info { waiting = for_download k })
              k
              (answers k).0
              (answers k).1
              m)
  unfolding serve
  serve_waits fuel answers id m info k e = rw (serve, e) refl

  module _ (file : RemoteFileId) (all : ListOfServices) (which : ℕ) where
    pub fetchable_end :
        drop which all ≡ [] → fetchable tolower isspace registry false file (some all) which ≡ none
    unfolding fetchable next_service
    fetchable_end d = rw d refl

    module _ (service : UriContext) (params : ServiceParams) (rest : ListOfServices) where
      pub fetchable_skip :
          drop which all ≡ (service, params) ∷ rest
          → (lookup_uri tolower isspace registry service file.uri).1 ≡ none
          → fetchable tolower isspace registry false file (some all) which
            ≡ fetchable tolower isspace registry false file (some all) (suc which)
      unfolding fetchable next_service
      fetchable_skip d e =
          let later : drop (suc which) all ≡ rest = drop-suc which all d in
          rw (d, later, next_service, e) refl

      pub fetchable_start :
          (h : H)
          → drop which all ≡ (service, params) ∷ rest
          → (lookup_uri tolower isspace registry service file.uri).1 ≡ some h
          → fetchable tolower isspace registry false file (some all) which
            ≡ some (which, (lookup_uri tolower isspace registry service file.uri).0)
      unfolding fetchable next_service
      fetchable_start h d e = rw (d, next_service, e) refl

  pub do_fetch-proceed :
      (id : ℕ) (info : RequestInfo) (all : ListOfServices) (which : ℕ) (m : Layer)
      → info.services ≡ some all
      → m.cleanup ≡ false
      → do_fetch tolower isspace registry id info which m
        ≡ proceed id info (fetchable tolower isspace registry false info.file (some all) which) m
  unfolding do_fetch
  do_fetch-proceed id info all which m s open_ =
      λ i. proceed id info (fetchable tolower isspace registry (open_ i) info.file (s i) which) m

  pub http_callback-usable :
      (id : ℕ) (info : RequestInfo) (which : ℕ) (answer : Option DenseData × Bool) (d : DenseData)
      (m : Layer)
      → usable answer ≡ some d
      → http_callback tolower isspace registry id info which answer.0 answer.1 m ≡ record m {
        active = remove id m.active;
        log = called_back id (add_valid_data d []) ∷ populated info.file.fingerprint d ∷ m.log;
      }
  unfolding http_callback
  http_callback-usable id info which (none, true) d m e = absurd (cc)
  http_callback-usable id info which (none, false) d m e = absurd (cc)
  http_callback-usable id info which (some x, false) d m e = absurd (cc)
  http_callback-usable id info which (some x, true) d m e =
      let same : x ≡ d = ground arith in
      ap
        (λ y. record m {
          active = remove id m.active;
          log = called_back id (add_valid_data y []) ∷ populated info.file.fingerprint y ∷ m.log;
        })
        same

  pub http_callback-unusable :
      (id : ℕ) (info : RequestInfo) (which : ℕ) (answer : Option DenseData × Bool) (m : Layer)
      → usable answer ≡ none
      → http_callback tolower isspace registry id info which answer.0 answer.1 m
        ≡ do_fetch tolower isspace registry id info (which + 1) m
  unfolding http_callback
  http_callback-unusable id info which (none, ok) m e = refl
  http_callback-unusable id info which (some x, false) m e = refl
  http_callback-unusable id info which (some x, true) m e = absurd (cc)
