-- ===== src/Transfer/Names/Cached.antt =====
-- What a `CachedNameLookupManager` has found it answers again.
use sirikata.Base.{
  ℕ, ◌≡◌, refl, ap, ◌∙◌, Bool, true, Option, none, some, List, [], ◌∷◌, arith, inl, inr, Bool-cases,
  Option-cases,
}
use sirikata.Transfer.Uri.{Text, Uri}
use sirikata.Transfer.Uri.Order.{uri_less, uri_order}
use sirikata.Transfer.FileId.{RemoteFileId}
use sirikata.Transfer.Services.{same_key, find, insert}
use sirikata.Transfer.Names.{
  found, Names, add_to_cache, ask_services, no_more_services, lookup_hash, cached_lookup_hash,
}

same_key_self : (u : Uri) → same_key uri_less u u ≡ true
same_key_self u = ground (arith, uri_order.irreflexive u)

find-insert_new :
    (u : Uri) (f : RemoteFileId) (m : List (Uri × RemoteFileId))
    → find uri_less u m ≡ none
    → find uri_less u (insert uri_less u f m) ≡ some f
unfolding insert find
find-insert_new u f m e = ground (arith, e, same_key_self u)

find-insert_kept :
    (u v : Uri) (f g : RemoteFileId) (m : List (Uri × RemoteFileId))
    → find uri_less u m ≡ some f
    → find uri_less u (insert uri_less v g m) ≡ some f
unfolding insert find
find-insert_kept u v f g m e = elim (Option-cases (find uri_less v m)) [
  | inl fresh ↦ elim (Bool-cases (same_key uri_less v u)) [
    | inl same ↦
        let eq : v ≡ u = uri_order.total v u (ground arith) (ground arith) in
        absurd (cc (e, fresh, eq))
    | inr other ↦ ground (arith, fresh, other, e)
  ]
  | inr (w, there) ↦ ground (arith, there, e)
]

-- What the handlers answer at one time.
abbrev pub Answers : Type 0 → Type 0
Answers H = H → Uri → Option (ℕ × Text)

module _ {H D : Type 0} where
  no_more_services-cache :
      (name : Uri) (n : Names H D) → (no_more_services name n).1.cache ≡ n.cache
  unfolding no_more_services
  no_more_services-cache name n = ground (arith, Option-cases n.downloads)

  module _ (tolower : ℕ → ℕ) (isspace : ℕ → Bool) where
    ask_services-cache :
        (answers : Answers H) (name : Uri) (n : Names H D)
        → (ask_services tolower isspace answers name n).1.cache ≡ n.cache
    unfolding ask_services
    ask_services-cache answers name n = refl

    module _ (answers : Answers H) (name : Uri) (n : Names H D) where
      lookup_hash_failed :
          (ask_services tolower isspace answers name n).0 ≡ none
          → lookup_hash tolower isspace answers true name n
            ≡ no_more_services name (ask_services tolower isspace answers name n).1
      unfolding lookup_hash
      lookup_hash_failed e = rw (lookup_hash, e) refl

      lookup_hash_found :
          (f : RemoteFileId)
          → (ask_services tolower isspace answers name n).0 ≡ some f
          → lookup_hash tolower isspace answers true name n
            ≡ (found f, add_to_cache name f (ask_services tolower isspace answers name n).1)
      unfolding lookup_hash
      lookup_hash_found f e = rw (lookup_hash, e) refl

      cached_lookup_hash_fresh :
          find uri_less name n.cache ≡ none
          → cached_lookup_hash tolower isspace answers name n
            ≡ lookup_hash tolower isspace answers true name n
      unfolding cached_lookup_hash
      cached_lookup_hash_fresh e = rw (cached_lookup_hash, e) refl

      cached_lookup_hash_known :
          (f : RemoteFileId)
          → find uri_less name n.cache ≡ some f
          → cached_lookup_hash tolower isspace answers name n ≡ (found f, n)
      unfolding cached_lookup_hash
      cached_lookup_hash_known f e = rw (cached_lookup_hash, e) refl

    lookup_hash-kept :
        (answers : Answers H) (name u : Uri) (f : RemoteFileId) (n : Names H D)
        → find uri_less u n.cache ≡ some f
        → find uri_less u (lookup_hash tolower isspace answers true name n).1.cache ≡ some f
    lookup_hash-kept answers name u f n e =
        let n' = (ask_services tolower isspace answers name n).1 in
        let same : find uri_less u n'.cache ≡ some f =
          ap (find uri_less u) (ask_services-cache answers name n) ∙ e in
        elim (Option-cases (ask_services tolower isspace answers name n).0) [
          | inl nothing ↦
              rw (lookup_hash_failed answers name n nothing)
                (ap (find uri_less u) (no_more_services-cache name n') ∙ same)
          | inr (file, there) ↦
              rw (lookup_hash_found answers name n file there)
                (find-insert_kept u name f file n'.cache same)
        ]

    cached_lookup_hash-kept :
        (answers : Answers H) (name u : Uri) (f : RemoteFileId) (n : Names H D)
        → find uri_less u n.cache ≡ some f
        → find uri_less u (cached_lookup_hash tolower isspace answers name n).1.cache ≡ some f
    cached_lookup_hash-kept answers name u f n e =
        elim (Option-cases (find uri_less name n.cache)) [
          | inl fresh ↦
              rw (cached_lookup_hash_fresh answers name n fresh)
                (lookup_hash-kept answers name u f n e)
          | inr (g, there) ↦ rw (cached_lookup_hash_known answers name n g there) e
        ]

    cached_lookup_hash-first :
        (answers : Answers H) (name : Uri) (f : RemoteFileId) (n : Names H D)
        → find uri_less name n.cache ≡ none
        → (ask_services tolower isspace answers name n).0 ≡ some f
        → cached_lookup_hash tolower isspace answers name n
          ≡ (found f, add_to_cache name f (ask_services tolower isspace answers name n).1)
    cached_lookup_hash-first answers name f n fresh e =
        cached_lookup_hash_fresh answers name n fresh ∙ lookup_hash_found answers name n f e

    cached_lookup_hash-stored :
        (answers : Answers H) (name : Uri) (f : RemoteFileId) (n : Names H D)
        → find uri_less name n.cache ≡ none
        → (ask_services tolower isspace answers name n).0 ≡ some f
        → find uri_less name (cached_lookup_hash tolower isspace answers name n).1.cache ≡ some f
    cached_lookup_hash-stored answers name f n fresh e =
        let n' = (ask_services tolower isspace answers name n).1 in
        let still : find uri_less name n'.cache ≡ none =
          ap (find uri_less name) (ask_services-cache answers name n) ∙ fresh in
        rw (cached_lookup_hash-first answers name f n fresh e)
          (find-insert_new name f n'.cache still)

    -- Lookups one after the other, each with what the handlers answer then.
    unfoldable pub after_lookups : List (Uri × Answers H) → Names H D → Names H D
    after_lookups [] n = n
    after_lookups ((name, answers) ∷ lookups) n =
        after_lookups lookups (cached_lookup_hash tolower isspace answers name n).1

    after_lookups-kept :
        (lookups : List (Uri × Answers H)) (u : Uri) (f : RemoteFileId) (n : Names H D)
        → find uri_less u n.cache ≡ some f
        → find uri_less u (after_lookups lookups n).cache ≡ some f
    unfolding after_lookups
    after_lookups-kept [] u f n e = e
    after_lookups-kept ((name, answers) ∷ lookups) u f n e =
        after_lookups-kept lookups u f (cached_lookup_hash tolower isspace answers name n).1
          (cached_lookup_hash-kept answers name u f n e)

    -- Once a service has given the id of a URI that was not in the cache, the lookup answers with
    -- it; and each later lookup of the URI gives the same id and changes nothing, after any other
    -- lookups and whatever the handlers would answer by then.
    pub cached_lookup_hash-after_lookups :
        (answers now : Answers H) (name : Uri) (f : RemoteFileId) (n : Names H D)
        (lookups : List (Uri × Answers H))
        → find uri_less name n.cache ≡ none
        → (ask_services tolower isspace answers name n).0 ≡ some f
        → let first = cached_lookup_hash tolower isspace answers name n in
          let n' = after_lookups lookups first.1 in
          (first.0 ≡ found f) × (cached_lookup_hash tolower isspace now name n' ≡ (found f, n'))
    cached_lookup_hash-after_lookups answers now name f n lookups fresh e =
        let stored = cached_lookup_hash-stored answers name f n fresh e in
        let kept = after_lookups-kept lookups name f _ stored in
        (
          ap (λ p. p.0) (cached_lookup_hash-first answers name f n fresh e),
          cached_lookup_hash_known now name _ f kept,
        )
