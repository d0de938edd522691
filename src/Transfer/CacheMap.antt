-- ===== src/Transfer/CacheMap.antt =====
-- `CacheMap` (libcore/src/transfer/CacheMap.hpp): the entries of a cache with the policy that is
-- told of each change. An iterator is the id that it stands at; `none` is a fault: an invalid
-- iterator is dereferenced, or the fuel of a loop is used up. The locks are not modelled: the
-- operations of a `write_iterator` exclude all others while it lives.
use sirikata.Base.{
  ℕ, zero, suc, ◌+◌, ◌≡◌, Bool, true, false, Option, none, some, List, [], ◌∷◌, if◌then◌else◌,
}
use sirikata.Base.Assoc.{lookup, remove, modify}
use sirikata.Transfer.Policy.{CachePolicy, cachable}
pub mod Invariant
pub mod Alloc

pub record MapEntry (D : Type 0) : Type 0 where
  pub contents : Option D
  pub size : ℕ

pub record CacheMap (P : CachePolicy) (D : Type 0) : Type 0 where
  pub entries : List (ℕ × MapEntry D)
  pub policy : P.State

module _ (P : CachePolicy) {D : Type 0} where
  open P use {State, space, use_entry, use_and_update, destroy, create, next_item}

  -- `find`, with the entry that `*` and `getSize` then read.
  unfoldable pub find : ℕ → CacheMap P D → Option (MapEntry D)
  find id m = lookup id m.entries

  -- `write_iterator::erase`, at the entry of this id.
  unfoldable pub erase : ℕ → CacheMap P D → Option (CacheMap P D)
  unfolding find
  erase id m = elim (find id m) [
    | none ↦ none
    | some e ↦
        some (record m { entries = remove id m.entries; policy = destroy id e.size m.policy })
  ]

  unfoldable destroy_each : List (ℕ × MapEntry D) → State → State
  destroy_each [] s = s
  destroy_each ((id, e) ∷ entries) s = destroy_each entries (destroy id e.size s)

  unfoldable erase_all : CacheMap P D → CacheMap P D
  erase_all m = record m { entries = []; policy = destroy_each m.entries m.policy }

  -- True if the entry is new. It has no contents yet.
  unfoldable pub insert : ℕ → ℕ → CacheMap P D → CacheMap P D × Bool
  unfolding find
  insert id size m = elim (find id m) [
    | some e ↦ (m, false)
    | none ↦ (
      record m {
        entries = (id, record { contents = none; size = size }) ∷ m.entries;
        policy = create id size m.policy;
      },
      true,
    )
  ]

  unfoldable pub use_at : ℕ → CacheMap P D → Option (CacheMap P D)
  unfolding find
  use_at id m = elim (find id m) [
    | none ↦ none
    | some e ↦ some (record m { policy = use_entry id e.size m.policy })
  ]

  unfoldable pub update : ℕ → ℕ → CacheMap P D → Option (CacheMap P D)
  unfolding find
  update id new_size m = elim (find id m) [
    | none ↦ none
    | some e ↦ some (record m {
      entries = modify id (record e { size = new_size }) m.entries;
      policy = use_and_update id e.size new_size m.policy;
    })
  ]

  -- `*iter = contents`.
  unfoldable pub assign : ℕ → D → CacheMap P D → Option (CacheMap P D)
  unfolding find
  assign id contents m = elim (find id m) [
    | none ↦ none
    | some e ↦
        some (record m { entries = modify id (record e { contents = some contents }) m.entries })
  ]

  -- The loop of `alloc`: erase what the policy names until it names nothing.
  unfoldable pub evict : ℕ → ℕ → CacheMap P D → Option (CacheMap P D)
  evict zero required m = none
  evict (suc fuel) required m = elim (next_item required m.policy) [
    | none ↦ some m
    | some id ↦ elim (erase id m) [ none ↦ none | some m' ↦ evict fuel required m' ]
  ]

  -- The result is false where the entry is not to be cached.
  unfoldable pub alloc : (ℕ → ℕ → Bool) → ℕ → ℕ → CacheMap P D → Option (CacheMap P D × Bool)
  alloc over_share fuel required m =
      if cachable over_share required (space m.policy)
      then elim (evict fuel required m) [ none ↦ none | some m' ↦ some (m', true) ]
      else some (m, false)
