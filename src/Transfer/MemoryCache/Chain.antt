-- ===== src/Transfer/MemoryCache/Chain.antt =====
-- Several memory caches over a last layer: `CacheLayer::getData`, `purgeFromCache` and
-- `populateParentCaches` (libcore/src/transfer/CacheLayer.hpp) from layer to layer. The first layer
-- is the one that is asked. What the last layer brings for a question is a parameter; it passes the
-- piece on to the layers above, like `NetworkCacheLayer`. Each layer has its own state, so that the
-- pieces may be stored layer by layer.
use sirikata.Base.{ℕ, suc, Bool, Option, none, some, List, [], ◌∷◌, ◌++◌, length}
use sirikata.Transfer.Range.{Range}
use sirikata.Transfer.Sparse.{DenseData, SparseData}
use sirikata.Transfer.Policy.{CachePolicy}
use sirikata.Transfer.CacheMap.{CacheMap}
use sirikata.Transfer.MemoryCache.{
  ◌>>=◌, Populated, Answer, hit, ask_next, populate_cache, purge_from_cache, get_data,
}
pub mod Store
pub mod Answers
pub mod Again
mod Tests

module _ (over_share : ℕ → ℕ → Bool) (P : CachePolicy) where
  abbrev pub Layer : Type 0
  Layer = CacheMap P SparseData

  -- The pieces that come from below, with what goes on to the layers above. The loop that makes room
  -- may run as often as there are entries.
  unfoldable pub store_all : Populated → Layer → Option (Layer × Populated)
  store_all [] m = some (m, [])
  store_all ((id, d) ∷ pieces) m = do
    (m1, up1) ← populate_cache over_share P (suc (length m.entries)) id d m
    (m2, up2) ← store_all pieces m1
    some (m2, up1 ++ up2)

  -- What a layer does once those below it have answered.
  unfoldable pub respond :
      Layer
      → Option (Option SparseData × List Layer × Populated)
      → Option (Option SparseData × List Layer × Populated)
  respond m below = do
    (answer, layers, pieces) ← below
    (m', up) ← store_all pieces m
    some (answer, m' ∷ layers, up)

  -- The argument of the callback (`none` for NULL), the layers, and the pieces for those above.
  unfoldable pub ask :
      (ℕ → Range → Option DenseData)
      → ℕ
      → Range
      → List Layer
      → Option (Option SparseData × List Layer × Populated)
  ask fetch id r [] = elim (fetch id r) [
    | none ↦ some (none, [], [])
    | some d ↦ some (some (d ∷ []), [], (id, d) ∷ [])
  ]
  ask fetch id r (m ∷ below) =
      let rest = ask fetch id r below in
      elim (get_data over_share P id r m) [
        | none ↦ none
        | some (hit s, up) ↦ some (some s, m ∷ below, up)
        | some (ask_next, up) ↦ respond m rest
      ]

  unfoldable pub purge : ℕ → List Layer → Option (List Layer)
  purge id [] = some []
  purge id (m ∷ below) = do
    (m', next) ← purge_from_cache over_share P id m
    below' ← purge next below
    some (m' ∷ below')
