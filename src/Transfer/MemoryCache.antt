-- ===== src/Transfer/MemoryCache.antt =====
-- `MemoryCacheLayer` (libcore/src/transfer/MemoryCacheLayer.hpp), over the map and a policy, and
-- what `CacheLayer::populateParentCaches` (CacheLayer.hpp) is called with. `none` is a fault.
use sirikata.Base.{
  ℕ, ◌+◌, ◌≡◌, Bool, true, false, Option, none, some, List, [], ◌∷◌, map, if◌then◌else◌,
}
use sirikata.Transfer.Range.{Range, is_contained_by}
use sirikata.Transfer.Sparse.{DenseData, SparseData, range_of, add_valid_data, space_used}
use sirikata.Transfer.Policy.{CachePolicy}
use sirikata.Transfer.CacheMap.{
  MapEntry, CacheMap, find, erase, insert, use_at, update, assign, alloc,
}
pub mod Contents
pub mod Populate
pub mod Reads
pub mod Chain

infixl 5 ◌>>=◌
abbrev pub ◌>>=◌ {ℓ κ} : {A : Type ℓ} {B : Type κ} → Option A → (A → Option B) → Option B
none >>= f = none
some a >>= f = f a

-- The pieces that are passed on to the caches above.
abbrev Populated : Type 0
Populated = List (ℕ × DenseData)

pub data Answer : Type 0 where
  hit : SparseData → Answer
  ask_next : Answer

module _ (over_share : ℕ → ℕ → Bool) (P : CachePolicy) where
  abbrev Cache : Type 0
  Cache = CacheMap P SparseData

  -- An entry that is new gets its contents and is marked as used.
  unfoldable pub store_new : ℕ → DenseData → Cache → Option Cache
  store_new id d m = do m1 ← assign P id (add_valid_data d []) m; use_at P id m1

  -- An entry that was there gets the piece added, and its size updated.
  unfoldable pub store_more : ℕ → DenseData → Cache → Option Cache
  store_more id d m = do
    e ← find P id m
    sparse ← e.contents
    m1 ← assign P id (add_valid_data d sparse) m
    update P id (space_used (add_valid_data d sparse)) m1

  unfoldable pub populate_cache : ℕ → ℕ → DenseData → Cache → Option (Cache × Populated)
  populate_cache fuel id d m = do
    (m1, ok) ← alloc P over_share fuel d.range.length m
    m2 ←
        (if ok
          then (let (m', new) = insert P id d.range.length m1 in
              if new then store_new id d m' else store_more id d m')
          else some m1)
    some (m2, (id, d) ∷ [])

  -- With the id that the next cache is then asked to purge.
  unfoldable pub purge_from_cache : ℕ → Cache → Option (Cache × ℕ)
  purge_from_cache id m = do
    m1 ← elim (find P id m) [ none ↦ some m | some e ↦ erase P id m ]
    some (m1, id)

  -- The answer, or the question goes on to the next cache; a hit is passed on piece by piece.
  unfoldable pub get_data : ℕ → Range → Cache → Option (Answer × Populated)
  get_data id requested m = elim (find P id m) [
    | none ↦ some (ask_next, [])
    | some e ↦ do
      sparse ← e.contents
      some (
          if is_contained_by range_of requested sparse
          then (hit sparse, map (λ d. (id, d)) sparse)
          else (ask_next, []))
  ]
