-- ===== src/Transfer/MemoryCache/Contents.antt =====
-- What the memory cache holds: sorted files whose sizes the map knows, within the space it was
-- given.
use sirikata.Base.{
  ℕ, ◌+◌, ◌^◌, ◌≤◌, ◌<◌, ◌≡◌, refl, sym, ap, ◌∙◌, subst, inl, Bool, true, Option, none, some, List,
  [], ◌∷◌, arith,
}
use sirikata.Base.Assoc.{lookup, modify, lookup-modify, has, has-lookup}
use sirikata.Transfer.Range.{Range, add_to_list, place, scan, erase_covered}
use sirikata.Transfer.Range.Coverage.{Covers, IsValid, start-lt-endbyte, Covered, IsSorted}
use sirikata.Transfer.Range.Insert.{add_to_list-Inserted}
use sirikata.Transfer.Sparse.{DenseData, SparseData, range_of, add_valid_data, space_used}
use sirikata.Transfer.Sparse.Space.{total_length, space_used-total, add_valid_data-total}
use sirikata.Transfer.Policy.{CachePolicy}
use sirikata.Transfer.CacheMap.{MapEntry, CacheMap, find}
use sirikata.Transfer.CacheMap.Invariant.{
  used, used-modify, used-remove, IsConsistent, update-IsConsistent, use_at-IsConsistent,
  assign-IsConsistent,
}
use sirikata.Transfer.CacheMap.Alloc.{AllEntries, AllEntries-lookup, AllEntries-modify}
use sirikata.Transfer.MemoryCache.{store_new, store_more}

-- An entry holds a sorted file of the size that the map has for it.
abbrev pub IsStored : MapEntry SparseData → Type 0
IsStored e =
    (s : SparseData) × (e.contents ≡ some s) × (e.size ≡ total_length s) × IsSorted range_of s

-- The entry at the id covers the range.
abbrev pub HoldsRange : Range → Option (MapEntry SparseData) → Type 0
HoldsRange r o =
    (e : MapEntry SparseData) × (s : SparseData) × (o ≡ some e)
    × (e.contents ≡ some s)
    × ((b : ℕ) → Covers r b → Covered range_of s b)

-- A piece is put into a sorted file.
add_valid_data-IsSorted :
    (d : DenseData) (s : SparseData)
    → IsValid d.range
    → IsSorted range_of s
    → IsSorted range_of (add_valid_data d s)
      × ((b : ℕ) → Covers d.range b → Covered range_of (add_valid_data d s) b)
unfolding add_valid_data
add_valid_data-IsSorted d s v h =
    let (sorted, covers) = add_to_list-Inserted range_of d s v h in
    (sorted, λ b c. (covers b).1 (inl c))

add_valid_data-first :
    (d : DenseData) → IsValid d.range → total_length (add_valid_data d []) ≡ d.range.length
unfolding add_valid_data add_to_list place scan erase_covered
add_valid_data-first d v = ground (arith, start-lt-endbyte d.range v, v.nonempty)

modify-head :
    (id : ℕ) (e e' : MapEntry SparseData) (rest : List (ℕ × MapEntry SparseData))
    → modify id e' ((id, e) ∷ rest) ≡ (id, e') ∷ rest
unfolding modify
modify-head id e e' rest = ground arith

lookup-head :
    (id : ℕ) (e : MapEntry SparseData) (rest : List (ℕ × MapEntry SparseData))
    → lookup id ((id, e) ∷ rest) ≡ some e
unfolding lookup
lookup-head id e rest = ground arith

lookup-modify_self :
    (id : ℕ) (e : MapEntry SparseData) (m : List (ℕ × MapEntry SparseData))
    → has id m ≡ true
    → lookup id (modify id e m) ≡ some e
lookup-modify_self id e m h = ground (arith, lookup-modify id id e m h)

modify-modify :
    (id : ℕ) (e e' : MapEntry SparseData) (m : List (ℕ × MapEntry SparseData))
    → modify id e' (modify id e m) ≡ modify id e' m
unfolding modify
modify-modify id e e' [] = refl
modify-modify id e e' ((j, x) ∷ m) = ground (arith, modify-modify id e e' m)

module _ (over_share : ℕ → ℕ → Bool) (P : CachePolicy) where
  open P use {space}

  abbrev pub State : Type 0
  State = CacheMap P SparseData

  -- How a state comes out of storing a piece.
  pub record Stored (id : ℕ) (d : DenseData) (m m' : State) (grown : ℕ) : Type 0 where
    pub consistent : IsConsistent P m'
    pub stored : AllEntries IsStored m'.entries
    pub holds : HoldsRange d.range (lookup id m'.entries)
    pub total : (space m'.policy).total_size ≡ (space m.policy).total_size
    pub size : used m'.entries ≤ grown

  pub store_new-Stored :
      (id : ℕ) (d : DenseData) (m : State) (rest : List (ℕ × MapEntry SparseData))
      → IsConsistent P m
      → m.entries ≡ (id, record { contents = none; size = d.range.length }) ∷ rest
      → AllEntries IsStored rest
      → IsValid d.range
      → (m' : State) × (store_new over_share P id d m ≡ some m')
        × Stored id d m m' (d.range.length + used rest)
  unfolding store_new
  store_new-Stored id d m rest c at stored v =
      let e0 : MapEntry SparseData = record { contents = none; size = d.range.length } in
      let s = add_valid_data d [] in
      let e1 : MapEntry SparseData = record { contents = some s; size = d.range.length } in
      let (m1, assigned, c1, entries1, total1) =
        assign-IsConsistent P id s e0 m c (ap (lookup id) at ∙ lookup-head id e0 rest) in
      let at1 : m1.entries ≡ (id, e1) ∷ rest =
        entries1 ∙ ap (modify id e1) at ∙ modify-head id e0 e1 rest in
      let there : lookup id m1.entries ≡ some e1 = ap (lookup id) at1 ∙ lookup-head id e1 rest in
      let (m2, used_, c2, entries2, total2) = use_at-IsConsistent P id e1 m1 c1 there in
      let at2 : m2.entries ≡ (id, e1) ∷ rest = entries2 ∙ at1 in
      let (sorted, covers) = add_valid_data-IsSorted d [] v tt in
      (
        m2,
        rw assigned used_,
        record {
          consistent = c2;
          stored =
              subst (AllEntries IsStored) (sym at2)
                ((s, refl, sym (add_valid_data-first d v), sorted), stored);
          holds = (e1, s, ap (lookup id) at2 ∙ lookup-head id e1 rest, refl, covers);
          total = total2 ∙ total1;
          size = omega (arith, ap used at2);
        },
      )

  pub store_more-Stored :
      (id : ℕ) (d : DenseData) (m : State) (e : MapEntry SparseData)
      → IsConsistent P m
      → AllEntries IsStored m.entries
      → lookup id m.entries ≡ some e
      → IsValid d.range
      → used m.entries + d.range.length < 2 ^ 64
      → (m' : State) × (store_more over_share P id d m ≡ some m')
        × Stored id d m m' (d.range.length + used m.entries)
  unfolding store_more find
  store_more-Stored id d m e c stored there v fits =
      let (s, holds_s, size_s, sorted) = AllEntries-lookup IsStored id e m.entries stored there in
      let s' = add_valid_data d s in
      let e1 : MapEntry SparseData = record e { contents = some s' } in
      let e2 : MapEntry SparseData = record e1 { size = space_used s' } in
      let is_there : has id m.entries ≡ true = ground (arith, has-lookup id m.entries) in
      let (m1, assigned, c1, entries1, total1) = assign-IsConsistent P id s' e m c there in
      let there1 : lookup id m1.entries ≡ some e1 =
        ap (lookup id) entries1 ∙ lookup-modify_self id e1 m.entries is_there in
      let (m2, updated, c2, entries2, total2) =
        update-IsConsistent P id (space_used s') e1 m1 c1 there1 in
      let at2 : m2.entries ≡ modify id e2 m.entries =
        entries2 ∙ ap (modify id e2) entries1 ∙ modify-modify id e1 e2 m.entries in
      let (sorted', covers) = add_valid_data-IsSorted d s v sorted in
      let grown = add_valid_data-total d s in
      let part = used-remove id e m.entries there in
      let exact : space_used s' ≡ total_length s' =
        space_used-total s' ∙ omega (arith, grown, part, size_s) in
      (
        m2,
        rw (there, holds_s, assigned) updated,
        record {
          consistent = c2;
          stored =
              subst (AllEntries IsStored) (sym at2)
                (AllEntries-modify IsStored id e2 m.entries (s', refl, exact, sorted') stored);
          holds = (
            e2,
            s',
            ap (lookup id) at2 ∙ lookup-modify_self id e2 m.entries is_there,
            refl,
            covers,
          );
          total = total2 ∙ total1;
          size =
              omega (arith, ap used at2, used-modify id e e2 m.entries there, grown, exact, size_s);
        },
      )
