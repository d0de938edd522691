-- ===== src/Transfer/MemoryCache/Populate.antt =====
-- `MemoryCacheLayer::populateCache` never faults, stays within its space and keeps what it was
-- given.
use sirikata.Base.{
  ℕ, ◌+◌, ◌^◌, ◌<◌, ◌≡◌, refl, sym, ap, ◌∙◌, subst, inl, inr, Bool, true, false, Option, none, some,
  [], ◌∷◌, arith, if◌then◌else◌, length, Option-cases, Bool-cases, OnSome,
}
use sirikata.Base.Int.{AtLeast}
use sirikata.Base.Assoc.{lookup, has, has-lookup}
use sirikata.Transfer.Range.Coverage.{IsValid}
use sirikata.Transfer.Sparse.{DenseData, SparseData}
use sirikata.Transfer.Policy.{CachePolicy, cachable}
use sirikata.Transfer.CacheMap.{CacheMap, insert}
use sirikata.Transfer.CacheMap.Invariant.{used, IsConsistent, insert-IsConsistent}
use sirikata.Transfer.CacheMap.Alloc.{AllEntries, IsShare, alloc-All, alloc-IsConsistent}
use sirikata.Transfer.MemoryCache.{store_new, store_more, populate_cache}
use sirikata.Transfer.MemoryCache.Contents.{
  IsStored, HoldsRange, Stored, store_new-Stored, store_more-Stored,
}

module _ (over_share : ℕ → ℕ → Bool) (P : CachePolicy) where
  open P use {space}

  pub record IsHealthy (m : CacheMap P SparseData) : Type 0 where
    pub consistent : IsConsistent P m
    pub stored : AllEntries IsStored m.entries
    pub within : AtLeast (space m.policy).free_space 0

  -- The part of `populateCache` under `if (alloc(...))`.
  abbrev store : ℕ → DenseData → CacheMap P SparseData → Option (CacheMap P SparseData)
  store id d m =
      let (m', new) = insert P id d.range.length m in
      if new then store_new over_share P id d m' else store_more over_share P id d m'

  store-Stored :
      (id : ℕ) (d : DenseData) (m : CacheMap P SparseData)
      → IsConsistent P m
      → AllEntries IsStored m.entries
      → IsValid d.range
      → used m.entries + d.range.length < 2 ^ 64
      → (m' : CacheMap P SparseData) × (store id d m ≡ some m')
        × Stored over_share P id d m m' (d.range.length + used m.entries)
  store-Stored id d m c stored v fits =
      let inserted = (insert P id d.range.length m).0 in
      let (ci, new, entries, total) = insert-IsConsistent P id d.range.length m c in
      elim (Bool-cases (has id m.entries)) [
        | inl old ↦
            let same : inserted.entries ≡ m.entries = ground arith in
            elim (Option-cases (lookup id m.entries)) [
              | inl missing ↦ absurd (ground (arith, has-lookup id m.entries))
              | inr (e, there) ↦
                  let (m', done, r) =
                    store_more-Stored over_share P id d inserted e ci
                      (subst (AllEntries IsStored) (sym same) stored) (ap (lookup id) same ∙ there)
                      v (omega (arith, ap used same)) in
                  (
                    m',
                    rw (new, old) done,
                    record {
                      consistent = r.consistent;
                      stored = r.stored;
                      holds = r.holds;
                      total = r.total ∙ total;
                      size = omega (arith, r.size, ap used same);
                    },
                  )
            ]
        | inr fresh ↦
            let at : inserted.entries
                ≡ (id, record { contents = none; size = d.range.length }) ∷ m.entries =
              ground arith in
            let (m', done, r) =
              store_new-Stored over_share P id d inserted m.entries ci at stored v in
            (
              m',
              rw (new, fresh) done,
              record {
                consistent = r.consistent;
                stored = r.stored;
                holds = r.holds;
                total = r.total ∙ total;
                size = r.size;
              },
            )
      ]

  -- On a healthy cache with a total below 2 ^ 64, with more fuel than entries and a share that is
  -- never above the total, storing a valid piece returns, tells the caches above of it, and leaves
  -- the cache healthy: the map and the policy agree, each file is sorted and has the size that the
  -- map has for it, and the sizes stay within the space of the cache. If the size is cachable the
  -- file then covers the piece, and if not nothing has changed.
  pub populate_cache-IsHealthy :
      (fuel id : ℕ) (d : DenseData) (m : CacheMap P SparseData)
      → IsShare over_share
      → IsHealthy m
      → (space m.policy).total_size < 2 ^ 64
      → length m.entries < fuel
      → IsValid d.range
      → (m' : CacheMap P SparseData) × (populate_cache over_share P fuel id d m
          ≡ some (m', (id, d) ∷ []))
        × IsHealthy m'
        × ((space m'.policy).total_size ≡ (space m.policy).total_size)
        × (cachable over_share d.range.length (space m.policy) ≡ true
            → HoldsRange d.range (lookup id m'.entries))
        × (cachable over_share d.range.length (space m.policy) ≡ false → m' ≡ m)
  unfolding populate_cache
  populate_cache-IsHealthy fuel id d m share h total enough v =
      elim (alloc-IsConsistent P over_share fuel d.range.length m share h.consistent enough) [
        | inl (refused, done) ↦ (m, rw done refl, h, refl, λ e. absurd (cc (refused, e)), λ e. refl)
        | inr (m1, allowed, done, c1, free, kept, total1) ↦
            let stored1 : AllEntries IsStored m1.entries =
              subst (OnSome (λ r. AllEntries IsStored r.0.entries)) done
                (alloc-All P IsStored over_share fuel d.range.length m h.stored) in
            let (m2, put, r) =
              store-Stored id d m1 c1 stored1 v (omega (arith, c1.balanced, free)) in
            (
              m2,
              rw (done, put) refl,
              record {
                consistent = r.consistent;
                stored = r.stored;
                within = omega (arith, r.size, r.consistent.balanced, c1.balanced, free, r.total);
              },
              r.total ∙ total1,
              λ e. r.holds,
              λ e. absurd (cc (allowed, e)),
            )
      ]
