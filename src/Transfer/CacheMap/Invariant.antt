-- ===== src/Transfer/CacheMap/Invariant.antt =====
-- The map and the policy agree: each entry is tracked, nothing else is, and the space left is the
-- total less the sizes of the entries.
use sirikata.Base.{
  ℕ, suc, ◌+◌, ◌≡◌, refl, sym, ◌∙◌, inl, inr, true, false, not, none, some, List, [], ◌∷◌, arith,
  if◌then◌else◌, length, Option-cases,
}
use sirikata.Base.Int.{◌+ℤ◌, pos, pos_part, neg_part, +ℤ_parts, -ℤ_parts}
use sirikata.Base.Assoc.{
  lookup, remove, modify, has, Distinct, has-lookup, has-remove, remove-Distinct, has-modify,
  modify-Distinct,
}
use sirikata.Transfer.Policy.{CachePolicy, Space, update_space}
use sirikata.Transfer.CacheMap.{MapEntry, CacheMap, find, erase, insert, use_at, update, assign}

module _ {D : Type 0} where
  abbrev pub used : List (ℕ × MapEntry D) → ℕ
  used [] = 0
  used ((id, e) ∷ entries) = e.size + used entries

  pub used-remove :
      (id : ℕ) (e : MapEntry D) (entries : List (ℕ × MapEntry D))
      → lookup id entries ≡ some e
      → used (remove id entries) + e.size ≡ used entries
  unfolding lookup remove
  used-remove id e [] h = absurd (cc)
  used-remove id e ((j, x) ∷ entries) h = ground (arith, used-remove id e entries)

  pub used-modify :
      (id : ℕ) (e e' : MapEntry D) (entries : List (ℕ × MapEntry D))
      → lookup id entries ≡ some e
      → used (modify id e' entries) + e.size ≡ used entries + e'.size
  unfolding lookup modify
  used-modify id e e' [] h = absurd (cc)
  used-modify id e e' ((j, x) ∷ entries) h = ground (arith, used-modify id e e' entries)

  length-remove :
      (id : ℕ) (e : MapEntry D) (entries : List (ℕ × MapEntry D))
      → lookup id entries ≡ some e
      → suc (length (remove id entries)) ≡ length entries
  unfolding lookup remove
  length-remove id e [] h = absurd (cc)
  length-remove id e ((j, x) ∷ entries) h = ground (arith, length-remove id e entries)

-- What is free and what is used make up the total.
abbrev Balanced : Space → ℕ → Type 0
Balanced s n = pos_part s.free_space + n ≡ s.total_size + neg_part s.free_space

update_space-Balanced :
    (s : Space) (old new n n' : ℕ)
    → Balanced s n
    → n' + old ≡ n + new
    → Balanced (update_space old new s) n'
unfolding update_space
update_space-Balanced s old new n n' b e =
    omega (arith, +ℤ_parts s.free_space (pos old), -ℤ_parts (s.free_space +ℤ pos old) (pos new), b)

module _ (P : CachePolicy) {D : Type 0} where
  open P use {tracks, space}

  pub record IsConsistent (m : CacheMap P D) : Type 0 where
    pub distinct : Distinct m.entries
    pub policy_valid : P.IsValid m.policy
    pub tracked : (k : ℕ) → tracks m.policy k ≡ has k m.entries
    pub balanced : Balanced (space m.policy) (used m.entries)

  -- Erasing an entry that is there from a consistent map succeeds, keeps it consistent with the same
  -- total, and leaves the other entries, one fewer.
  pub erase-IsConsistent :
      (id : ℕ) (m : CacheMap P D)
      → IsConsistent m
      → has id m.entries ≡ true
      → (m' : CacheMap P D) × (erase P id m ≡ some m')
        × IsConsistent m'
        × (m'.entries ≡ remove id m.entries)
        × (suc (length m'.entries) ≡ length m.entries)
        × ((space m'.policy).total_size ≡ (space m.policy).total_size)
  unfolding erase find update_space
  erase-IsConsistent id m c h = elim (Option-cases (lookup id m.entries)) [
    | inl missing ↦ absurd (ground (arith, has-lookup id m.entries))
    | inr (e, there) ↦
        let (valid, tracked, space_eq) = P.destroy_law m.policy id e.size c.policy_valid in
        (
          record m { entries = remove id m.entries; policy = P.destroy id e.size m.policy },
          rw (there, erase),
          record {
            distinct = remove-Distinct id m.entries c.distinct;
            policy_valid = valid;
            tracked =
                λ k. ground (arith, tracked k, c.tracked k, has-remove id k m.entries c.distinct);
            balanced = rw space_eq (
                update_space-Balanced (space m.policy) e.size 0 (used m.entries) _ c.balanced
                  (omega (arith, used-remove id e m.entries there)));
          },
          refl,
          length-remove id e m.entries there,
          rw space_eq refl,
        )
  ]

  -- `insert` keeps the map consistent; it adds an entry of the given size exactly if there was none.
  pub insert-IsConsistent :
      (id size : ℕ) (m : CacheMap P D)
      → IsConsistent m
      → IsConsistent (insert P id size m).0
        × ((insert P id size m).1 ≡ not (has id m.entries))
        × ((insert P id size m).0.entries ≡ (
            if has id m.entries
            then m.entries
            else (id, record { contents = none; size = size }) ∷ m.entries))
        × ((space (insert P id size m).0.policy).total_size ≡ (space m.policy).total_size)
  unfolding insert find has update_space
  insert-IsConsistent id size m c = elim (Option-cases (lookup id m.entries)) [
    | inr (e, there) ↦
        let old : has id m.entries ≡ true = ground (arith, has-lookup id m.entries) in
        rw (there, insert, old) (c, refl, refl, refl)
    | inl missing ↦
        let new : has id m.entries ≡ false = ground (arith, has-lookup id m.entries) in
        let (valid, tracked, space_eq) =
          P.create_law m.policy id size c.policy_valid (c.tracked id ∙ new) in
        rw (missing, insert, new)
          (
            record {
              distinct = (new, c.distinct);
              policy_valid = valid;
              tracked = λ k. ground (arith, tracked k, c.tracked k);
              balanced = rw space_eq (
                  update_space-Balanced (space m.policy) 0 size (used m.entries) _ c.balanced
                    (omega arith));
            },
            refl,
            refl,
            rw space_eq refl,
          )
  ]

  -- `update` keeps the map consistent and sets the size of its entry.
  pub update-IsConsistent :
      (id new_size : ℕ) (e : MapEntry D) (m : CacheMap P D)
      → IsConsistent m
      → lookup id m.entries ≡ some e
      → (m' : CacheMap P D) × (update P id new_size m ≡ some m')
        × IsConsistent m'
        × (m'.entries ≡ modify id (record e { size = new_size }) m.entries)
        × ((space m'.policy).total_size ≡ (space m.policy).total_size)
  unfolding update find update_space
  update-IsConsistent id new_size e m c there =
      let (valid, tracked, space_eq) =
        P.use_and_update_law m.policy id e.size new_size c.policy_valid
          (c.tracked id ∙ ground (arith, has-lookup id m.entries)) in
      let size = used-modify id e (record e { size = new_size }) m.entries there in
      (
        record m {
          entries = modify id (record e { size = new_size }) m.entries;
          policy = P.use_and_update id e.size new_size m.policy;
        },
        rw (there, update),
        record {
          distinct = modify-Distinct id _ m.entries c.distinct;
          policy_valid = valid;
          tracked = λ k. tracked k ∙ c.tracked k ∙ sym (has-modify id k _ m.entries);
          balanced = rw space_eq (
              update_space-Balanced (space m.policy) e.size new_size (used m.entries) _ c.balanced
                size);
        },
        refl,
        rw space_eq refl,
      )

  -- Marking an entry as used and writing its contents change neither sizes nor ids.
  pub use_at-IsConsistent :
      (id : ℕ) (e : MapEntry D) (m : CacheMap P D)
      → IsConsistent m
      → lookup id m.entries ≡ some e
      → (m' : CacheMap P D) × (use_at P id m ≡ some m')
        × IsConsistent m'
        × (m'.entries ≡ m.entries)
        × ((space m'.policy).total_size ≡ (space m.policy).total_size)
  unfolding use_at find
  use_at-IsConsistent id e m c there =
      let (valid, tracked, space_eq) =
        P.use_entry_law m.policy id e.size c.policy_valid
          (c.tracked id ∙ ground (arith, has-lookup id m.entries)) in
      (
        record m { policy = P.use_entry id e.size m.policy },
        rw (there, use_at),
        record {
          distinct = c.distinct;
          policy_valid = valid;
          tracked = λ k. tracked k ∙ c.tracked k;
          balanced = rw space_eq c.balanced;
        },
        refl,
        rw space_eq refl,
      )

  pub assign-IsConsistent :
      (id : ℕ) (contents : D) (e : MapEntry D) (m : CacheMap P D)
      → IsConsistent m
      → lookup id m.entries ≡ some e
      → (m' : CacheMap P D) × (assign P id contents m ≡ some m')
        × IsConsistent m'
        × (m'.entries ≡ modify id (record e { contents = some contents }) m.entries)
        × ((space m'.policy).total_size ≡ (space m.policy).total_size)
  unfolding assign find
  assign-IsConsistent id contents e m c there =
      let e' = record e { contents = some contents } in
      let size = used-modify id e e' m.entries there in
      (
        record m { entries = modify id e' m.entries },
        rw (there, assign),
        record {
          distinct = modify-Distinct id _ m.entries c.distinct;
          policy_valid = c.policy_valid;
          tracked = λ k. c.tracked k ∙ sym (has-modify id k _ m.entries);
          balanced = omega (arith, c.balanced, size);
        },
        refl,
        refl,
      )
