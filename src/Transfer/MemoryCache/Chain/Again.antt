-- ===== src/Transfer/MemoryCache/Chain/Again.antt =====
-- What a chain of layers answers after a download, and after a file was purged.
use sirikata.Base.{
  ℕ, ◌≡◌, refl, ap, ◌∙◌, inl, inr, Bool, true, Option, none, some, List, [], ◌∷◌, map, arith,
}
use sirikata.Base.Quantify.{All}
use sirikata.Base.Assoc.{lookup}
use sirikata.Transfer.Range.{Range}
use sirikata.Transfer.Range.Coverage.{Covers, Covered, IsValid, HasByte}
use sirikata.Transfer.Sparse.{DenseData, SparseData, range_of}
use sirikata.Transfer.Policy.{CachePolicy, cachable}
use sirikata.Transfer.CacheMap.Alloc.{IsShare}
use sirikata.Transfer.MemoryCache.{Populated, ask_next, get_data, purge_from_cache}
use sirikata.Transfer.MemoryCache.Contents.{HoldsRange}
use sirikata.Transfer.MemoryCache.Reads.{get_data_answer, purge_from_cache-IsHealthy}
use sirikata.Transfer.MemoryCache.Chain.{Layer, store_all, respond, ask, purge}
use sirikata.Transfer.MemoryCache.Chain.Store.{IsReady, store_one, store_all-step}
use sirikata.Transfer.MemoryCache.Chain.Answers.{
  AnswerOf-unknown, fetched, hit_entry, ask-hit, ask-next, ask-AnswerOf,
}

module _ (over_share : ℕ → ℕ → Bool) (P : CachePolicy) (share : IsShare over_share) (id : ℕ) where
  -- The layer does not know the whole range.
  abbrev pub Unknown : Range → Layer over_share P → Type 0
  Unknown r m = ¬ HoldsRange r (lookup id m.entries)

  get_data-Unknown :
      (r : Range) (m : Layer over_share P)
      → IsReady over_share P share m
      → HasByte r
      → Unknown r m
      → get_data over_share P id r m ≡ some (ask_next, [])
  get_data-Unknown r m ready some_byte unknown =
      elim (get_data_answer over_share P id r m ready.healthy some_byte) [
        | inl (s, found, covers) ↦
            let (e, there, holds, _) =
              hit_entry over_share P (λ i q. none) id r m s (map (λ d. (id, d)) s) ready.healthy
                found in
            absurd (unknown (e, s, there, holds, covers))
        | inr (next, _) ↦ next
      ]

  respond_one :
      (d : DenseData) (m : Layer over_share P) (answer : Option SparseData)
      (layers : List (Layer over_share P))
      → IsReady over_share P share m
      → IsValid d.range
      → (m' : Layer over_share P) × (respond over_share P m (some (answer, layers, (id, d) ∷ []))
          ≡ some (answer, m' ∷ layers, (id, d) ∷ []))
        × IsReady over_share P share m'
        × (cachable over_share d.range.length (P.space m.policy) ≡ true
            → HoldsRange d.range (lookup id m'.entries))
  unfolding respond store_all
  respond_one d m answer layers ready v =
      let (m', done, ready', holds) = store_one over_share P share id d m ready v in
      let stored : store_all over_share P ((id, d) ∷ []) m ≡ some (m', (id, d) ∷ []) =
        store_all-step over_share P share id d [] [] m m' m' done refl in
      (m', rw (stored) refl, ready', holds)

  ask-Unknown :
      (fetch : ℕ → Range → Option DenseData) (r : Range) (d : DenseData)
      (layers : List (Layer over_share P))
      → All (IsReady over_share P share) layers
      → All (Unknown r) layers
      → HasByte r
      → fetch id r ≡ some d
      → IsValid d.range
      → (layers' : List (Layer over_share P)) × (ask over_share P fetch id r layers
          ≡ some (some (d ∷ []), layers', (id, d) ∷ []))
        × All (IsReady over_share P share) layers'
  unfolding ask
  ask-Unknown fetch r d [] ready unknown some_byte brought v = ([], rw (ask, brought) refl, tt)
  ask-Unknown fetch r d (m ∷ below) ready unknown some_byte brought v =
      let (layers', asked, ready') =
        ask-Unknown fetch r d below ready.1 unknown.1 some_byte brought v in
      let (m', responded, ready_m, _) = respond_one d m (some (d ∷ [])) layers' ready.0 v in
      let next = get_data-Unknown r m ready.0 some_byte unknown.0 in
      (
        m' ∷ layers',
        ask-next over_share P fetch id r m below [] next
            ∙ ap (respond over_share P m) asked
            ∙ responded,
        (ready_m, ready'),
      )

  -- Let each layer be healthy with a space below 2 ^ 64 and not know the range of a question, which
  -- has a first byte, and let the last layer bring a valid piece whose size the first layer may
  -- cache. Then the question is answered with that piece, and afterwards each question for a range
  -- within the piece that has a first byte is answered, with the layers unchanged, by a file that
  -- covers that range, whatever the last layer brings by then.
  pub ask_again :
      (fetch later : ℕ → Range → Option DenseData) (r : Range) (d : DenseData)
      (m : Layer over_share P) (below : List (Layer over_share P))
      → All (IsReady over_share P share) (m ∷ below)
      → All (Unknown r) (m ∷ below)
      → HasByte r
      → fetch id r ≡ some d
      → IsValid d.range
      → cachable over_share d.range.length (P.space m.policy) ≡ true
      → (layers : List (Layer over_share P)) × (ask over_share P fetch id r (m ∷ below)
          ≡ some (some (d ∷ []), layers, (id, d) ∷ []))
        × ((q : Range)
            → HasByte q
            → ((b : ℕ) → Covers q b → Covers d.range b)
            → (s : SparseData) × (ask over_share P later id q layers
                ≡ some (some s, layers, map (λ e. (id, e)) s))
              × ((b : ℕ) → Covers q b → Covered range_of s b))
  ask_again fetch later r d m below ready unknown some_byte brought v allowed =
      let (layers, asked, ready') =
        ask-Unknown fetch r d below ready.1 unknown.1 some_byte brought v in
      let (m', responded, ready_m, holds) = respond_one d m (some (d ∷ [])) layers ready.0 v in
      let next = get_data-Unknown r m ready.0 some_byte unknown.0 in
      (
        m' ∷ layers,
        ask-next over_share P fetch id r m below [] next
            ∙ ap (respond over_share P m) asked
            ∙ responded,
        λ q some_q within. elim (get_data_answer over_share P id q m' ready_m.healthy some_q) [
          | inl (s, found, covers) ↦
              (s, ask-hit over_share P later id q m' layers s (map (λ e. (id, e)) s) found, covers)
          | inr (_, missing) ↦
              let (e, s, there, contents, covers) = holds allowed in
              absurd (missing (e, s, there, contents, λ b c. covers b (within b c)))
        ],
      )

  purge-next :
      (m m' : Layer over_share P) (below below' : List (Layer over_share P))
      → purge_from_cache over_share P id m ≡ some (m', id)
      → purge over_share P id below ≡ some below'
      → purge over_share P id (m ∷ below) ≡ some (m' ∷ below')
  unfolding purge
  purge-next m m' below below' e f = rw (purge, e, f) refl

  purge_forgets :
      (layers : List (Layer over_share P))
      → All (IsReady over_share P share) layers
      → (layers' : List (Layer over_share P)) × (purge over_share P id layers ≡ some layers')
        × All (IsReady over_share P share) layers'
        × ((r : Range) → All (Unknown r) layers')
  unfolding purge
  purge_forgets [] ready = ([], refl, tt, λ r. tt)
  purge_forgets (m ∷ below) ready =
      let (m', purged, healthy, entries, total) =
        purge_from_cache-IsHealthy over_share P id m ready.0.healthy in
      let (below', rest, ready', unknown) = purge_forgets below ready.1 in
      let gone : lookup id m'.entries ≡ none = entries id ∙ ground arith in
      (
        m' ∷ below',
        purge-next m m' below below' purged rest,
        (record { healthy = healthy; fits = omega (arith, total, ready.0.fits) }, ready'),
        λ r. (λ h. absurd (cc (gone, h.2)), unknown r),
      )

  -- Let each layer be healthy with a space below 2 ^ 64. Then a purge of an id returns and leaves
  -- the layers healthy, and a question of that id for a range with a first byte, as `Range(true)`
  -- is, is then answered with just what the last layer brings, if that is valid.
  pub ask-purge :
      (layers : List (Layer over_share P))
      → All (IsReady over_share P share) layers
      → (purged : List (Layer over_share P)) × (purge over_share P id layers ≡ some purged)
        × All (IsReady over_share P share) purged
        × ((fetch : ℕ → Range → Option DenseData) (r : Range)
            → HasByte r
            → ((d : DenseData) → fetch id r ≡ some d → IsValid d.range)
            → (layers' : List (Layer over_share P)) × (pieces : Populated) × (ask over_share P fetch
                  id r purged
                ≡ some (fetched (fetch id r), layers', pieces)))
  ask-purge layers ready =
      let (purged, done, ready', unknown) = purge_forgets layers ready in
      (
        purged,
        done,
        ready',
        λ fetch r some_byte brings.
            let (answer, layers', pieces, asked, answers, _, _) =
              ask-AnswerOf over_share P fetch id r share some_byte brings purged ready' in
            let same = AnswerOf-unknown over_share P fetch id r purged answer (unknown r) answers in
            (layers', pieces, asked ∙ ap (λ a. some (a, layers', pieces)) same),
      )
