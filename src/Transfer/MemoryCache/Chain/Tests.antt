-- ===== src/Transfer/MemoryCache/Chain/Tests.antt =====
-- Two memory caches over a last layer that brings bytes 4 to 6 of file 3.
use sirikata.Base.{
  ℕ, ◌≡◌, refl, inl, true, Option, none, some, List, [], ◌∷◌, map, arith, ◌==◌, if◌then◌else◌,
}
use sirikata.Base.Quantify.{All}
use sirikata.Base.Assoc.{lookup}
use sirikata.Transfer.Range.{Range}
use sirikata.Transfer.Range.Coverage.{Covers, Covered, IsValid, HasByte}
use sirikata.Transfer.Sparse.{DenseData, SparseData, range_of}
use sirikata.Transfer.Policy.{cachable}
use sirikata.Transfer.LruPolicy.{lru_policy}
use sirikata.Transfer.MemoryCache.{Populated}
use sirikata.Transfer.MemoryCache.Chain.{Layer, ask, purge}
use sirikata.Transfer.MemoryCache.Chain.Store.{ValidPiece, IsReady}
use sirikata.Transfer.MemoryCache.Chain.Answers.{AnswerOf, fetched, ask-AnswerOf}
use sirikata.Transfer.MemoryCache.Chain.Again.{Unknown, ask_again, ask-purge}
use sirikata.Transfer.Tests.{second, second-IsValid, half, half-IsShare, cache, cache-IsHealthy}

abbrev layers : List (Layer half lru_policy)
layers = cache ∷ cache ∷ []

cache-IsReady : IsReady half lru_policy half-IsShare cache
unfolding lru_policy
cache-IsReady = record { healthy = cache-IsHealthy; fits = omega arith }

-- What the last layer brings, and what it brings when it cannot be reached.
abbrev brings_second : ℕ → Range → Option DenseData
brings_second id r = if id == 3 then some second else none

abbrev nothing : ℕ → Range → Option DenseData
nothing id r = none

brings-IsValid : (d : DenseData) → some second ≡ some d → IsValid (range_of d)
brings-IsValid d e = ground (arith, second-IsValid)

cache-Unknown : (r : Range) → Unknown half lru_policy half-IsShare 3 r cache
unfolding lookup lru_policy
cache-Unknown r (e, s, there, _, _) = absurd (cc)

-- `Range(true)`.
abbrev whole : Range
whole = record { start = 0; length = 0; whole_file = true }

abbrev whole-HasByte : HasByte whole
whole-HasByte = (omega arith, inl refl)

ask-AnswerOf_example :
    (answer : Option SparseData) × (layers' : List (Layer half lru_policy)) × (pieces : Populated)
    × (ask half lru_policy brings_second 3 whole layers ≡ some (answer, layers', pieces))
    × AnswerOf half lru_policy brings_second 3 whole layers answer
    × All (IsReady half lru_policy half-IsShare) layers'
    × All ValidPiece pieces
ask-AnswerOf_example =
    ask-AnswerOf half lru_policy brings_second 3 whole half-IsShare whole-HasByte brings-IsValid
      layers (cache-IsReady, (cache-IsReady, tt))

ask_again_example :
    (layers' : List (Layer half lru_policy)) × (ask half lru_policy brings_second 3 whole layers
      ≡ some (some (second ∷ []), layers', (3, second) ∷ []))
    × ((q : Range)
        → HasByte q
        → ((b : ℕ) → Covers q b → Covers (range_of second) b)
        → (s : SparseData) × (ask half lru_policy nothing 3 q layers'
            ≡ some (some s, layers', map (λ e. (3, e)) s))
          × ((b : ℕ) → Covers q b → Covered range_of s b))
unfolding cachable lru_policy
ask_again_example =
    ask_again half lru_policy half-IsShare 3 brings_second nothing whole second cache (cache ∷ [])
      (cache-IsReady, (cache-IsReady, tt)) (cache-Unknown whole, (cache-Unknown whole, tt))
      whole-HasByte refl second-IsValid refl

ask-purge_example :
    (purged : List (Layer half lru_policy)) × (purge half lru_policy 1 layers ≡ some purged)
    × All (IsReady half lru_policy half-IsShare) purged
    × ((fetch : ℕ → Range → Option DenseData) (r : Range)
        → HasByte r
        → ((d : DenseData) → fetch 1 r ≡ some d → IsValid d.range)
        → (layers' : List (Layer half lru_policy)) × (pieces : Populated) × (ask half lru_policy
              fetch 1 r purged
            ≡ some (fetched (fetch 1 r), layers', pieces)))
ask-purge_example =
    ask-purge half lru_policy half-IsShare 1 layers (cache-IsReady, (cache-IsReady, tt))
