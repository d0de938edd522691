-- ===== src/Transfer/MemoryCache/Reads.antt =====
-- `MemoryCacheLayer::getData` and `purgeFromCache`, and what is read after a piece was stored.
use sirikata.Base.{
  ℕ, ◌^◌, ◌<◌, ◌≡◌, refl, sym, ap, ◌∙◌, subst, ◌⊎◌, inl, inr, Bool, true, none, some, [], ◌∷◌, map,
  arith, ◌==◌, if◌then◌else◌, length, Option-cases, Bool-cases,
}
use sirikata.Base.Assoc.{lookup, has, has-lookup, lookup-remove}
use sirikata.Transfer.Range.{Range, is_contained_by}
use sirikata.Transfer.Range.Coverage.{Covers, Covered, IsValid, HasByte, is_contained_by_decides}
use sirikata.Transfer.Sparse.{DenseData, SparseData, range_of}
use sirikata.Transfer.Policy.{CachePolicy, cachable}
use sirikata.Transfer.CacheMap.{MapEntry, CacheMap, find}
use sirikata.Transfer.CacheMap.Invariant.{used, used-remove, erase-IsConsistent}
use sirikata.Transfer.CacheMap.Alloc.{AllEntries, AllEntries-lookup, AllEntries-remove, IsShare}
use sirikata.Transfer.MemoryCache.{hit, ask_next, populate_cache, purge_from_cache, get_data}
use sirikata.Transfer.MemoryCache.Contents.{IsStored, HoldsRange}
use sirikata.Transfer.MemoryCache.Populate.{IsHealthy, populate_cache-IsHealthy}

module _ (over_share : ℕ → ℕ → Bool) (P : CachePolicy) where
  open P use {space}

  -- The answer is a file that covers the range, whose pieces all go to the caches above.
  abbrev pub IsHit : ℕ → Range → CacheMap P SparseData → Type 0
  IsHit id r m =
      (s : SparseData) × (get_data over_share P id r m ≡ some (hit s, map (λ d. (id, d)) s))
      × ((b : ℕ) → Covers r b → Covered range_of s b)

  pub get_data-entry :
      (id : ℕ) (r : Range) (m : CacheMap P SparseData) (e : MapEntry SparseData) (s : SparseData)
      → lookup id m.entries ≡ some e
      → e.contents ≡ some s
      → get_data over_share P id r m
        ≡ some
            (if is_contained_by range_of r s then (hit s, map (λ d. (id, d)) s) else (ask_next, []))
  unfolding get_data find
  get_data-entry id r m e s there holds = rw (there, get_data, holds) refl

  -- On a healthy cache a question for a range that has a first byte never faults. It is answered
  -- exactly if the file of that id is known to cover the range; otherwise the next cache is asked,
  -- and nothing is passed on.
  pub get_data_answer :
      (id : ℕ) (r : Range) (m : CacheMap P SparseData)
      → IsHealthy over_share P m
      → HasByte r
      → IsHit id r m
        ⊎ ((get_data over_share P id r m ≡ some (ask_next, []))
            × ¬ HoldsRange r (lookup id m.entries))
  unfolding get_data find
  get_data_answer id r m h v = elim (Option-cases (lookup id m.entries)) [
    | inl missing ↦ inr (rw (missing, get_data) refl, λ k. absurd (cc (missing, k.2)))
    | inr (e, there) ↦
        let (s, holds, size, sorted) = AllEntries-lookup IsStored id e m.entries h.stored there in
        let (sound, complete) = is_contained_by_decides range_of r s v sorted in
        elim (Bool-cases (is_contained_by range_of r s)) [
          | inl inside ↦
              inl (s, get_data-entry id r m e s there holds ∙ rw inside refl, sound inside)
          | inr outside ↦ inr (
            get_data-entry id r m e s there holds ∙ rw outside refl,
            λ k.
                let same : k.1 ≡ s = cc (there, holds, k.2, k.3) in
                cc (
                  outside,
                  complete (subst (λ t. (b : ℕ) → Covers r b → Covered range_of t b) same k.4),
                ),
          )
        ]
  ]

  -- On a healthy cache with a total below 2 ^ 64, with more fuel than entries and a share that is
  -- never above the total: after a valid piece of a cachable size was stored, every range
  -- within it that has a first byte is answered.
  pub get_data-populate_cache :
      (fuel id : ℕ) (d : DenseData) (r : Range) (m : CacheMap P SparseData)
      → IsShare over_share
      → IsHealthy over_share P m
      → (space m.policy).total_size < 2 ^ 64
      → length m.entries < fuel
      → IsValid d.range
      → cachable over_share d.range.length (space m.policy) ≡ true
      → HasByte r
      → ((b : ℕ) → Covers r b → Covers d.range b)
      → (m' : CacheMap P SparseData) × (populate_cache over_share P fuel id d m
          ≡ some (m', (id, d) ∷ []))
        × IsHit id r m'
  get_data-populate_cache fuel id d r m share h total enough v allowed w within =
      let (m', done, h', _, holds, _) =
        populate_cache-IsHealthy over_share P fuel id d m share h total enough v in
      (
        m',
        done,
        elim (get_data_answer id r m' h' w) [
          | inl answered ↦ answered
          | inr (_, unknown) ↦
              let (e, s, there, contents, covers) = holds allowed in
              absurd (unknown (e, s, there, contents, λ b c. covers b (within b c)))
        ],
      )

  -- On a healthy cache, purging an id returns, passes the id on to the next cache, leaves the cache
  -- healthy and its total as it was, and makes a hole exactly at that id.
  pub purge_from_cache-IsHealthy :
      (id : ℕ) (m : CacheMap P SparseData)
      → IsHealthy over_share P m
      → (m' : CacheMap P SparseData) × (purge_from_cache over_share P id m ≡ some (m', id))
        × IsHealthy over_share P m'
        × ((k : ℕ) → lookup k m'.entries ≡ (if id == k then none else lookup k m.entries))
        × ((space m'.policy).total_size ≡ (space m.policy).total_size)
  unfolding purge_from_cache find
  purge_from_cache-IsHealthy id m h = elim (Option-cases (lookup id m.entries)) [
    | inl missing ↦ (m, rw (missing, purge_from_cache) refl, h, λ k. ground (arith, missing), refl)
    | inr (e, there) ↦
        let is_there : has id m.entries ≡ true = ground (arith, has-lookup id m.entries) in
        let (m', done, c, left, _, total) = erase-IsConsistent P id m h.consistent is_there in
        (
          m',
          rw (there, purge_from_cache, done) refl,
          record {
            consistent = c;
            stored =
                subst (AllEntries IsStored) (sym left)
                  (AllEntries-remove IsStored id m.entries h.stored);
            within = omega (
              arith,
              c.balanced,
              h.consistent.balanced,
              h.within,
              total,
              ap used left,
              used-remove id e m.entries there,
            );
          },
          λ k. ap (lookup k) left ∙ lookup-remove id k m.entries h.consistent.distinct,
          total,
        )
  ]
