-- ===== src/Transfer/LruPolicy.antt =====
-- `LRUPolicy` (libcore/src/transfer/LRUPolicy.hpp): the list of ids, least recently used first. The
-- iterator that an entry's data holds is the place of its id, which the list has once.
use sirikata.Base.{
  ℕ, ◌≡◌, ◌⊎◌, inl, inr, refl, Bool, true, false, not, ◌&&◌, ◌||◌, Option, none, some, List, [],
  ◌∷◌, ◌++◌, ◌==◌, if◌then◌else◌, arith, Bool-cases,
}
use sirikata.Base.Int.{pos, ltb_ℤ, AtLeast}
use sirikata.Transfer.Policy.{Space, update_space, CachePolicy}

pub record LruState : Type 0 where
  pub space : Space
  pub least_used : List ℕ

-- `mLeastUsed.erase(iter)` for the element with this id.
unfoldable pub erase : ℕ → List ℕ → List ℕ
erase id [] = []
erase id (k ∷ ks) = if k == id then ks else k ∷ erase id ks

-- `splice` to the end.
unfoldable pub use_entry : ℕ → ℕ → LruState → LruState
use_entry id size s = record s { least_used = erase id s.least_used ++ id ∷ [] }

unfoldable pub use_and_update : ℕ → ℕ → ℕ → LruState → LruState
use_and_update id old new s =
    let used = use_entry id new s in record used { space = update_space old new used.space }

unfoldable pub destroy : ℕ → ℕ → LruState → LruState
destroy id size s = record s {
  space = update_space size 0 s.space;
  least_used = erase id s.least_used;
}

unfoldable pub create : ℕ → ℕ → LruState → LruState
create id size s = record s {
  space = update_space 0 size s.space;
  least_used = s.least_used ++ id ∷ [];
}

unfoldable pub next_item : ℕ → LruState → Option ℕ
next_item required s =
    if ltb_ℤ s.space.free_space (pos required)
    then elim s.least_used [ [] ↦ none | id ∷ rest ↦ some id ]
    else none

unfoldable pub member : List ℕ → ℕ → Bool
member [] id = false
member (k ∷ ks) id = id == k || member ks id

abbrev IsDistinct : List ℕ → Type 0
IsDistinct [] = Unit {0}
IsDistinct (k ∷ ks) = (member ks k ≡ false) × IsDistinct ks

pub member-append : (ks : List ℕ) (id k : ℕ) → member (ks ++ id ∷ []) k ≡ (k == id || member ks k)
unfolding member
member-append [] id k = refl
member-append (j ∷ ks) id k = ground (arith, member-append ks id k)

pub member-erase :
    (id k : ℕ) (ks : List ℕ)
    → IsDistinct ks
    → member (erase id ks) k ≡ (not (k == id) && member ks k)
unfolding member erase
member-erase id k [] d = ground arith
member-erase id k (j ∷ ks) d = ground (arith, member-erase id k ks d.1)

pub erase-IsDistinct : (id : ℕ) (ks : List ℕ) → IsDistinct ks → IsDistinct (erase id ks)
unfolding erase
erase-IsDistinct id [] d = tt
erase-IsDistinct id (j ∷ ks) d =
    ground (arith, erase-IsDistinct id ks d.1, member-erase id j ks d.1)

pub append-IsDistinct :
    (id : ℕ) (ks : List ℕ) → IsDistinct ks → member ks id ≡ false → IsDistinct (ks ++ id ∷ [])
unfolding member
append-IsDistinct id [] d h = (refl, tt)
append-IsDistinct id (j ∷ ks) d h =
    ground (arith, append-IsDistinct id ks d.1, member-append ks id j)

pub next_item-eq-some :
    (s : LruState) (required id : ℕ)
    → next_item required s ≡ some id
    → (member s.least_used id ≡ true) × ¬ AtLeast s.space.free_space required
unfolding next_item member ltb_ℤ
next_item-eq-some s required id h = (ground arith, λ a. ground arith)

pub next_item-eq-none :
    (s : LruState) (required : ℕ)
    → next_item required s ≡ none
    → AtLeast s.space.free_space required ⊎ ((k : ℕ) → member s.least_used k ≡ false)
unfolding next_item member ltb_ℤ
next_item-eq-none s required h = elim (Bool-cases (ltb_ℤ s.space.free_space (pos required))) [
  | inr enough ↦ inl (ground arith)
  | inl short ↦ inr (λ k. nothing s.least_used k (ground arith))
]
  where
    nothing : (ks : List ℕ) (k : ℕ) → ks ≡ [] → member ks k ≡ false
    nothing [] k e = refl
    nothing (j ∷ ks) k e = absurd (cc)

pub tracks-use_entry :
    (ks : List ℕ) (id k : ℕ)
    → IsDistinct ks
    → member ks id ≡ true
    → member (erase id ks ++ id ∷ []) k ≡ member ks k
tracks-use_entry ks id k d h =
    ground (arith, member-append (erase id ks) id k, member-erase id k ks d)

pub used-IsDistinct : (ks : List ℕ) (id : ℕ) → IsDistinct ks → IsDistinct (erase id ks ++ id ∷ [])
used-IsDistinct ks id d =
    append-IsDistinct id (erase id ks) (erase-IsDistinct id ks d)
      (ground (arith, member-erase id id ks d))

unfoldable pub lru_policy : CachePolicy
unfolding use_entry use_and_update destroy create
lru_policy = record {
  State = LruState;
  IsValid = λ s. IsDistinct s.least_used;
  tracks = λ s. member s.least_used;
  space = λ s. s.space;
  use_entry = use_entry;
  use_and_update = use_and_update;
  destroy = destroy;
  create = create;
  next_item = next_item;
  use_entry_law = λ s id size v t.
      (used-IsDistinct s.least_used id v, λ k. tracks-use_entry s.least_used id k v t, refl);
  use_and_update_law = λ s id old new v t.
      (used-IsDistinct s.least_used id v, λ k. tracks-use_entry s.least_used id k v t, refl);
  destroy_law = λ s id size v.
      (erase-IsDistinct id s.least_used v, λ k. member-erase id k s.least_used v, refl);
  create_law = λ s id size v t.
      (append-IsDistinct id s.least_used v t, λ k. member-append s.least_used id k, refl);
  next_item_some = next_item-eq-some;
  next_item_none = next_item-eq-none;
}
