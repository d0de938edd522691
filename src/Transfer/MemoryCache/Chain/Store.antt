-- ===== src/Transfer/MemoryCache/Chain/Store.antt =====
-- A healthy layer takes all pieces from below, and passes them on as they are.
use sirikata.Base.{
  ℕ, suc, ◌^◌, ◌<◌, ◌≡◌, refl, Option, some, List, [], ◌∷◌, length, map, arith, Bool, true,
}
use sirikata.Base.Quantify.{All}
use sirikata.Base.Assoc.{lookup}
use sirikata.Transfer.Range.Coverage.{IsValid, IsSorted}
use sirikata.Transfer.Sparse.{DenseData, SparseData, range_of}
use sirikata.Transfer.Policy.{CachePolicy, cachable}
use sirikata.Transfer.CacheMap.{CacheMap}
use sirikata.Transfer.CacheMap.Alloc.{IsShare}
use sirikata.Transfer.MemoryCache.{Populated, populate_cache}
use sirikata.Transfer.MemoryCache.Contents.{HoldsRange}
use sirikata.Transfer.MemoryCache.Populate.{IsHealthy, populate_cache-IsHealthy}
use sirikata.Transfer.MemoryCache.Chain.{Layer, store_all, respond}

abbrev pub ValidPiece : (ℕ × DenseData) → Type 0
ValidPiece p = IsValid p.1.range

pub map-ValidPiece :
    (id : ℕ) (s : SparseData) → IsSorted range_of s → All ValidPiece (map (λ d. (id, d)) s)
map-ValidPiece id [] h = tt
map-ValidPiece id (d ∷ s) h = (h.0, map-ValidPiece id s h.2)

module _ (over_share : ℕ → ℕ → Bool) (P : CachePolicy) (share : IsShare over_share) where
  -- A healthy layer whose space is a 64-bit number.
  pub record IsReady (m : CacheMap P SparseData) : Type 0 where
    pub healthy : IsHealthy over_share P m
    pub fits : (P.space m.policy).total_size < 2 ^ 64

  -- One piece is stored, and known from then on if its size may be cached.
  pub store_one :
      (id : ℕ) (d : DenseData) (m : CacheMap P SparseData)
      → IsReady m
      → IsValid d.range
      → (m' : CacheMap P SparseData) × (populate_cache over_share P (suc (length m.entries)) id d m
          ≡ some (m', (id, d) ∷ []))
        × IsReady m'
        × (cachable over_share d.range.length (P.space m.policy) ≡ true
            → HoldsRange d.range (lookup id m'.entries))
  store_one id d m ready v =
      let (m', done, healthy, total, holds, same) =
        populate_cache-IsHealthy over_share P (suc (length m.entries)) id d m share ready.healthy
          ready.fits (omega arith) v in
      (m', done, record { healthy = healthy; fits = omega (arith, total, ready.fits) }, holds)

  pub store_all-step :
      (id : ℕ) (d : DenseData) (pieces up : Populated) (m m1 m2 : CacheMap P SparseData)
      → populate_cache over_share P (suc (length m.entries)) id d m ≡ some (m1, (id, d) ∷ [])
      → store_all over_share P pieces m1 ≡ some (m2, up)
      → store_all over_share P ((id, d) ∷ pieces) m ≡ some (m2, (id, d) ∷ up)
  unfolding store_all
  store_all-step id d pieces up m m1 m2 e f = rw (store_all, e, f) refl

  pub store_all-IsReady :
      (pieces : Populated) (m : CacheMap P SparseData)
      → IsReady m
      → All ValidPiece pieces
      → (m' : CacheMap P SparseData) × (store_all over_share P pieces m ≡ some (m', pieces))
        × IsReady m'
  unfolding store_all
  store_all-IsReady [] m ready valid = (m, refl, ready)
  store_all-IsReady ((id, d) ∷ pieces) m ready valid =
      let (m1, done, ready1, holds) = store_one id d m ready valid.0 in
      let (m2, rest, ready2) = store_all-IsReady pieces m1 ready1 valid.1 in
      (m2, store_all-step id d pieces pieces m m1 m2 done rest, ready2)

  -- The layer stores what those below have passed on.
  pub respond-IsReady :
      (m : CacheMap P SparseData) (answer : Option SparseData) (layers : List (Layer over_share P))
      (pieces : Populated)
      → IsReady m
      → All ValidPiece pieces
      → (m' : CacheMap P SparseData) × (respond over_share P m (some (answer, layers, pieces))
          ≡ some (answer, m' ∷ layers, pieces))
        × IsReady m'
  unfolding respond
  respond-IsReady m answer layers pieces ready valid =
      let (m', done, ready') = store_all-IsReady pieces m ready valid in
      (m', rw (done) refl, ready')
