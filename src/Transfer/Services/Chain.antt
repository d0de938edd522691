-- ===== src/Transfer/Services/Chain.antt =====
-- The caches in a chain of service lookups change no answer.
use sirikata.Base.{
  ◌≡◌, ◌≢◌, refl, sym, ap, ◌∙◌, ◌⊎◌, map, none, some, List, [], ◌∷◌, arith, inl, inr, Bool-cases,
  Option-cases,
}
use sirikata.Transfer.Uri.{UriContext}
use sirikata.Transfer.Uri.Order.{context_less, context_order}
use sirikata.Transfer.Services.{
  find, insert, same_key, ListOfServices, Services, Lookup, plain, cached, options, add_to_cache,
  rejoin, cached_services, lookup_service,
}

-- What the options in the chain answer: the first that has something.
unfoldable pub answer : UriContext → List Lookup → Services
answer context [] = none
answer context (plain ∷ below) = answer context below
answer context (cached m ∷ below) = answer context below
answer context (options f ∷ below) =
    let on = answer context below in elim (f context) [ none ↦ on | some v ↦ some v ]

-- Every list of services in a cache is what the options below answer.
abbrev pub IsCoherent : List Lookup → Type 0
IsCoherent [] = Unit
IsCoherent (plain ∷ below) = IsCoherent below
IsCoherent (cached m ∷ below) =
    ((context : UriContext)
      → cached_services context m ≢ none
      → cached_services context m ≡ answer context below)
    × IsCoherent below
IsCoherent (options f ∷ below) = IsCoherent below

module _ (context : UriContext) (above : List Lookup) where
  module _ (m : List (UriContext × Services)) (below : List Lookup) where
    cached_miss :
        cached_services context m ≡ none
        → lookup_service context above (cached m ∷ below)
          ≡ lookup_service context (cached m ∷ above) below
    unfolding lookup_service
    cached_miss e = rw (lookup_service, e) refl

    cached_hit :
        {v : ListOfServices}
        → cached_services context m ≡ some v
        → lookup_service context above (cached m ∷ below)
          ≡ (some v, rejoin above (cached m ∷ below))
    unfolding lookup_service
    cached_hit e = rw (lookup_service, e) refl

  module _ (f : UriContext → Services) (below : List Lookup) where
    options_miss :
        f context ≡ none
        → lookup_service context above (options f ∷ below)
          ≡ lookup_service context (options f ∷ above) below
    unfolding lookup_service
    options_miss e = rw e refl

    options_hit :
        {v : ListOfServices}
        → f context ≡ some v
        → lookup_service context above (options f ∷ below)
          ≡ (some v, rejoin (add_to_cache context (some v) above) (options f ∷ below))
    unfolding lookup_service
    options_hit e = rw e refl

  lookup_end : lookup_service context above [] ≡ (none, rejoin above [])
  unfolding lookup_service
  lookup_end = refl

  lookup_plain :
      (below : List Lookup)
      → lookup_service context above (plain ∷ below) ≡ lookup_service context (plain ∷ above) below
  unfolding lookup_service
  lookup_plain below = refl

lookup_service-answer :
    (context : UriContext) (above below : List Lookup)
    → IsCoherent below
    → (lookup_service context above below).0 ≡ answer context below
unfolding answer
lookup_service-answer context above [] h = ap (λ p. p.0) (lookup_end context above)
lookup_service-answer context above (plain ∷ below) h =
    ap (λ p. p.0) (lookup_plain context above below)
    ∙ lookup_service-answer context (plain ∷ above) below h
lookup_service-answer context above (cached m ∷ below) h =
    elim (Option-cases (cached_services context m)) [
      | inl nothing ↦
          ap (λ p. p.0) (cached_miss context above m below nothing)
          ∙ lookup_service-answer context (cached m ∷ above) below h.1
      | inr (v, there) ↦
          ap (λ p. p.0) (cached_hit context above m below there)
          ∙ sym there
          ∙ h.0 context (λ e. absurd (cc (e, there)))
    ]
lookup_service-answer context above (options f ∷ below) h = elim (Option-cases (f context)) [
  | inl nothing ↦
      ap (λ p. p.0) (options_miss context above f below nothing)
      ∙ rw nothing (lookup_service-answer context (options f ∷ above) below h)
  | inr (v, there) ↦ ap (λ p. p.0) (options_hit context above f below there) ∙ rw there refl
]

IsCoherent-rejoin : (above below : List Lookup) → IsCoherent (rejoin above below) → IsCoherent below
IsCoherent-rejoin [] below h = h
IsCoherent-rejoin (plain ∷ above) below h = IsCoherent-rejoin above (plain ∷ below) h
IsCoherent-rejoin (cached m ∷ above) below h = (IsCoherent-rejoin above (cached m ∷ below) h).1
IsCoherent-rejoin (options f ∷ above) below h = IsCoherent-rejoin above (options f ∷ below) h

abbrev SameAnswers : List Lookup → List Lookup → Type 0
SameAnswers xs ys = (context : UriContext) → answer context xs ≡ answer context ys

SameAnswers-rejoin :
    (above xs ys : List Lookup)
    → SameAnswers xs ys
    → SameAnswers (rejoin above xs) (rejoin above ys)
unfolding answer
SameAnswers-rejoin [] xs ys h = h
SameAnswers-rejoin (plain ∷ above) xs ys h = SameAnswers-rejoin above (plain ∷ xs) (plain ∷ ys) h
SameAnswers-rejoin (cached m ∷ above) xs ys h =
    SameAnswers-rejoin above (cached m ∷ xs) (cached m ∷ ys) h
SameAnswers-rejoin (options f ∷ above) xs ys h =
    SameAnswers-rejoin above (options f ∷ xs) (options f ∷ ys) (λ c. ground (arith, h c))

-- The lower part of a chain may be exchanged for a coherent one with the same answers.
exchange :
    (above xs ys : List Lookup)
    → SameAnswers xs ys
    → IsCoherent ys
    → IsCoherent (rejoin above xs)
    → IsCoherent (rejoin above ys)
unfolding answer
exchange [] xs ys same h k = h
exchange (plain ∷ above) xs ys same h k = exchange above (plain ∷ xs) (plain ∷ ys) same h k
exchange (cached m ∷ above) xs ys same h k =
    let (held, _) = IsCoherent-rejoin above (cached m ∷ xs) k in
    exchange above (cached m ∷ xs) (cached m ∷ ys) same (λ c e. held c e ∙ same c, h) k
exchange (options f ∷ above) xs ys same h k =
    exchange above (options f ∷ xs) (options f ∷ ys) (λ c. ground (arith, same c)) h k

SameAnswers-add_to_cache :
    (context : UriContext) (v : Services) (above below : List Lookup)
    → SameAnswers (rejoin (add_to_cache context v above) below) (rejoin above below)
unfolding add_to_cache answer
SameAnswers-add_to_cache context v [] below c = refl
SameAnswers-add_to_cache context v (plain ∷ above) below c =
    SameAnswers-add_to_cache context v above (plain ∷ below) c
SameAnswers-add_to_cache context v (cached m ∷ above) below c =
    SameAnswers-add_to_cache context v above (cached (insert context_less context v m) ∷ below) c
    ∙ SameAnswers-rejoin above (cached (insert context_less context v m) ∷ below) (cached m ∷ below)
        (λ x. refl) c
SameAnswers-add_to_cache context v (options f ∷ above) below c =
    SameAnswers-add_to_cache context v above (options f ∷ below) c

cached_services-insert :
    (context c : UriContext) (v : Services) (m : List (UriContext × Services))
    → (cached_services c (insert context_less context v m) ≡ cached_services c m)
      ⊎ ((context ≡ c) × (cached_services c (insert context_less context v m) ≡ v))
unfolding insert find cached_services
cached_services-insert context c v m = elim (Option-cases (find context_less context m)) [
  | inl fresh ↦ elim (Bool-cases (same_key context_less context c)) [
    | inl same ↦
        inr
          (context_order.total context c (ground arith) (ground arith), ground (arith, fresh, same))
    | inr other ↦ inl (ground (arith, fresh, other))
  ]
  | inr (w, there) ↦ inl (ground (arith, there))
]

-- The options among the objects have nothing for the context.
abbrev Passed : UriContext → List Lookup → Type 0
Passed context [] = Unit
Passed context (plain ∷ above) = Passed context above
Passed context (cached m ∷ above) = Passed context above
Passed context (options f ∷ above) = (f context ≡ none) × Passed context above

add_to_cache-IsCoherent :
    (context : UriContext) (v : Services) (above below : List Lookup)
    → Passed context above
    → answer context below ≡ v
    → IsCoherent (rejoin above below)
    → IsCoherent (rejoin (add_to_cache context v above) below)
unfolding add_to_cache answer
add_to_cache-IsCoherent context v [] below p a h = h
add_to_cache-IsCoherent context v (plain ∷ above) below p a h =
    add_to_cache-IsCoherent context v above (plain ∷ below) p a h
add_to_cache-IsCoherent context v (options f ∷ above) below p a h =
    add_to_cache-IsCoherent context v above (options f ∷ below) p.1 (rw p.0 a) h
add_to_cache-IsCoherent context v (cached m ∷ above) below p a h =
    let (held, rest) = IsCoherent-rejoin above (cached m ∷ below) h in
    add_to_cache-IsCoherent context v above (cached (insert context_less context v m) ∷ below) p a (
      exchange above (cached m ∷ below) (cached (insert context_less context v m) ∷ below)
        (λ c. refl)
        (
          λ c e. elim (cached_services-insert context c v m) [
            | inl old ↦ old ∙ held c (λ z. e (old ∙ z))
            | inr (same, new) ↦ new ∙ sym a ∙ ap (λ x. answer x below) same
          ],
          rest,
        )
        h)

lookup_service-chain :
    (context : UriContext) (above below : List Lookup)
    → Passed context above
    → IsCoherent (rejoin above below)
    → IsCoherent (lookup_service context above below).1
      × SameAnswers (lookup_service context above below).1 (rejoin above below)
unfolding answer
lookup_service-chain context above [] p h = rw (lookup_end context above) ((h, λ c. refl))
lookup_service-chain context above (plain ∷ below) p h =
    rw (lookup_plain context above below) (lookup_service-chain context (plain ∷ above) below p h)
lookup_service-chain context above (cached m ∷ below) p h =
    elim (Option-cases (cached_services context m)) [
      | inl nothing ↦
          rw (cached_miss context above m below nothing)
            (lookup_service-chain context (cached m ∷ above) below p h)
      | inr (v, there) ↦ rw (cached_hit context above m below there) ((h, λ c. refl))
    ]
lookup_service-chain context above (options f ∷ below) p h = elim (Option-cases (f context)) [
  | inl nothing ↦
      rw (options_miss context above f below nothing)
        (lookup_service-chain context (options f ∷ above) below (nothing, p) h)
  | inr (v, there) ↦ rw (options_hit context above f below there) (
      (
        add_to_cache-IsCoherent context (some v) above (options f ∷ below) p (rw there refl) h,
        SameAnswers-add_to_cache context (some v) above (options f ∷ below),
      ))
]

-- A sequence of lookups.
unfoldable pub run : List UriContext → List Lookup → List Services
run [] chain = []
run (c ∷ contexts) chain =
    let (found, chain') = lookup_service c [] chain in found ∷ run contexts chain'

run-same :
    (contexts : List UriContext) (chain base : List Lookup)
    → IsCoherent chain
    → SameAnswers chain base
    → run contexts chain ≡ map (λ c. answer c base) contexts
unfolding run
run-same [] chain base h e = refl
run-same (c ∷ contexts) chain base h e =
    let (coherent, same) = lookup_service-chain c [] chain tt h in
    let rest = run-same contexts (lookup_service c [] chain).1 base coherent (λ x. same x ∙ e x) in
    rw (rest, lookup_service-answer c [] chain h, e c) refl

-- In a chain whose caches hold what the options below them answer, every sequence of lookups is
-- answered as by the options alone, whatever the lookups store in the caches on their way.
pub run-answer :
    (contexts : List UriContext) (chain : List Lookup)
    → IsCoherent chain
    → run contexts chain ≡ map (λ c. answer c chain) contexts
run-answer contexts chain h = run-same contexts chain chain h (λ c. refl)
