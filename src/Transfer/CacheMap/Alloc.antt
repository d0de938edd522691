-- ===== src/Transfer/CacheMap/Alloc.antt =====
-- `alloc` ends, never dereferences an invalid iterator, and makes the space that it was asked for.
use sirikata.Base.{
  ℕ, zero, suc, ◌≤◌, ◌<◌, ◌≡◌, refl, ap, subst, OnSome, ◌==◌, ◌∙◌, ◌⊎◌, inl, inr, Bool, true, false,
  some, List, [], ◌∷◌, arith, length, Option-cases, Bool-cases,
}
use sirikata.Base.Int.{AtLeast}
use sirikata.Base.Assoc.{has, lookup, remove, modify}
use sirikata.Transfer.Policy.{CachePolicy, Space, cachable}
use sirikata.Transfer.CacheMap.{MapEntry, CacheMap, find, erase, evict, alloc}
use sirikata.Transfer.CacheMap.Invariant.{used, IsConsistent, erase-IsConsistent}

-- What is asked for fits an empty cache.
abbrev pub IsShare : (ℕ → ℕ → Bool) → Type 0
IsShare over_share = (required total : ℕ) → over_share required total ≡ false → required ≤ total

cachable-share :
    (over_share : ℕ → ℕ → Bool) (required : ℕ) (s : Space)
    → cachable over_share required s ≡ true
    → over_share required s.total_size ≡ false
unfolding cachable
cachable-share over_share required s h = ground arith

module _ {D : Type 0} where
  abbrev pub AllEntries : (MapEntry D → Type 0) → List (ℕ × MapEntry D) → Type 0
  AllEntries Q [] = Unit {0}
  AllEntries Q ((id, e) ∷ entries) = Q e × AllEntries Q entries

  pub AllEntries-remove :
      (Q : MapEntry D → Type 0) (id : ℕ) (entries : List (ℕ × MapEntry D))
      → AllEntries Q entries
      → AllEntries Q (remove id entries)
  unfolding remove
  AllEntries-remove Q id [] h = tt
  AllEntries-remove Q id ((j, e) ∷ entries) h = elim (Bool-cases (j == id)) [
    | inl here ↦ rw here (h.1)
    | inr other ↦ rw other (h.0, AllEntries-remove Q id entries h.1)
  ]

  pub AllEntries-lookup :
      (Q : MapEntry D → Type 0) (id : ℕ) (e : MapEntry D) (entries : List (ℕ × MapEntry D))
      → AllEntries Q entries
      → lookup id entries ≡ some e
      → Q e
  unfolding lookup
  AllEntries-lookup Q id e [] h q = absurd (cc)
  AllEntries-lookup Q id e ((j, x) ∷ entries) h q = elim (Bool-cases (j == id)) [
    | inl here ↦ let same : x ≡ e = ground arith in subst Q same h.0
    | inr other ↦ AllEntries-lookup Q id e entries h.1 (ground arith)
  ]

  pub AllEntries-modify :
      (Q : MapEntry D → Type 0) (id : ℕ) (e : MapEntry D) (entries : List (ℕ × MapEntry D))
      → Q e
      → AllEntries Q entries
      → AllEntries Q (modify id e entries)
  unfolding modify
  AllEntries-modify Q id e [] q h = tt
  AllEntries-modify Q id e ((j, x) ∷ entries) q h = elim (Bool-cases (j == id)) [
    | inl here ↦ rw here (q, h.1)
    | inr other ↦ rw other (h.0, AllEntries-modify Q id e entries q h.1)
  ]

module _ (P : CachePolicy) {D : Type 0} where
  open P use {tracks, space}

  no_entries : (entries : List (ℕ × MapEntry D)) → ((k : ℕ) → has k entries ≡ false) → entries ≡ []
  unfolding has
  no_entries [] h = refl
  no_entries ((id, e) ∷ entries) h = absurd (ground (arith, h id))

  evict-All :
      (Q : MapEntry D → Type 0) (fuel required : ℕ) (m : CacheMap P D)
      → AllEntries Q m.entries
      → OnSome (λ m'. AllEntries Q m'.entries) (evict P fuel required m)
  unfolding evict erase find
  evict-All Q zero required m h = tt
  evict-All Q (suc fuel) required m h = elim (Option-cases (P.next_item required m.policy)) [
    | inl ended ↦ rw (ended, evict) h
    | inr (id, named) ↦ elim (Option-cases (lookup id m.entries)) [
      | inl missing ↦ rw (named, evict, missing, erase) tt
      | inr (e, there) ↦
          rw (named, evict, there, erase)
            (evict-All Q fuel required
              (record m { entries = remove id m.entries; policy = P.destroy id e.size m.policy })
              (AllEntries-remove Q id m.entries h))
    ]
  ]

  -- What holds of every entry still holds of those that `alloc` leaves.
  pub alloc-All :
      (Q : MapEntry D → Type 0) (over_share : ℕ → ℕ → Bool) (fuel required : ℕ) (m : CacheMap P D)
      → AllEntries Q m.entries
      → OnSome (λ r. AllEntries Q r.0.entries) (alloc P over_share fuel required m)
  unfolding alloc
  alloc-All Q over_share fuel required m h =
      elim (Bool-cases (cachable over_share required (space m.policy))) [
        | inr refused ↦ rw refused h
        | inl allowed ↦ elim (Option-cases (evict P fuel required m)) [
          | inl fault ↦ rw (allowed, fault) tt
          | inr (m', done) ↦
              rw (allowed, done)
                (subst (OnSome (λ m'. AllEntries Q m'.entries)) done
                  (evict-All Q fuel required m h))
        ]
      ]

  -- With more fuel than there are entries the loop ends: the space asked for is free, or nothing
  -- is left to erase.
  evict-IsConsistent :
      (fuel required : ℕ) (m : CacheMap P D)
      → IsConsistent P m
      → length m.entries < fuel
      → (m' : CacheMap P D) × (evict P fuel required m ≡ some m')
        × IsConsistent P m'
        × (AtLeast (space m'.policy).free_space required ⊎ (m'.entries ≡ []))
        × (AtLeast (space m.policy).free_space required → m' ≡ m)
        × ((space m'.policy).total_size ≡ (space m.policy).total_size)
  unfolding evict
  evict-IsConsistent zero required m c h = absurd (omega arith)
  evict-IsConsistent (suc fuel) required m c h =
      elim (Option-cases (P.next_item required m.policy)) [
        | inl ended ↦ (
          m,
          rw (ended, evict),
          c,
          elim (P.next_item_none m.policy required ended) [
            | inl enough ↦ inl enough
            | inr empty ↦ inr (no_entries m.entries (λ k. ground (arith, c.tracked k, empty k)))
          ],
          λ _. refl,
          refl,
        )
        | inr (id, named) ↦
            let (there, short) = P.next_item_some m.policy required id named in
            let (m1, erased, c1, _, fewer, total) =
              erase-IsConsistent P id m c (ground (arith, c.tracked id, there)) in
            let (m', done, c', goal, _, total') =
              evict-IsConsistent fuel required m1 c1 (omega arith) in
            (
              m',
              rw (named, evict, erased) done,
              c',
              goal,
              λ enough. absurd (short enough),
              total' ∙ total,
            )
      ]

  -- On a consistent map, with more fuel than entries and a share that is never above the total,
  -- `alloc` returns. Where the policy says that the size is cachable, the map is consistent
  -- and the space asked for is free, and nothing was erased if it had been free before; where it
  -- refuses, nothing has changed.
  pub alloc-IsConsistent :
      (over_share : ℕ → ℕ → Bool) (fuel required : ℕ) (m : CacheMap P D)
      → IsShare over_share
      → IsConsistent P m
      → length m.entries < fuel
      → ((cachable over_share required (space m.policy) ≡ false)
          × (alloc P over_share fuel required m ≡ some (m, false)))
        ⊎ ((m' : CacheMap P D) × (cachable over_share required (space m.policy) ≡ true)
            × (alloc P over_share fuel required m ≡ some (m', true))
            × IsConsistent P m'
            × AtLeast (space m'.policy).free_space required
            × (AtLeast (space m.policy).free_space required → m' ≡ m)
            × ((space m'.policy).total_size ≡ (space m.policy).total_size))
  unfolding alloc
  alloc-IsConsistent over_share fuel required m share c h =
      elim (Bool-cases (cachable over_share required (space m.policy))) [
        | inr refused ↦ inl (refused, rw refused)
        | inl allowed ↦
            let (m', done, c', goal, kept, total) = evict-IsConsistent fuel required m c h in
            let enough : AtLeast (space m'.policy).free_space required = elim goal [
              | inl free ↦ free
              | inr empty ↦ omega (
                arith,
                c'.balanced,
                ap used empty,
                share required (space m.policy).total_size
                    (cachable-share over_share required (space m.policy) allowed),
              )
            ] in
            inr (m', allowed, rw (allowed, done), c', enough, kept, total)
      ]
