-- ===== src/Transfer/Policy.antt =====
-- `CachePolicy` (libcore/src/transfer/CachePolicy.hpp): the interface by which a cache asks what to
-- keep, with what every policy promises. A file id (`Fingerprint`, a SHA-256 value) is its number.
use sirikata.Base.{
  ℕ, ◌^◌, ◌≡◌, ◌⊎◌, Bool, true, false, not, ◌&&◌, ◌||◌, Option, none, some, leb, ◌==◌,
  if◌then◌else◌,
}
use sirikata.Base.Int.{ℤ, pos, ◌+ℤ◌, ◌-ℤ◌, AtLeast}

-- The members of the base class: `mTotalSize` and `mFreeSpace`.
pub record Space : Type 0 where
  pub total_size : ℕ
  pub free_space : ℤ

-- `updateSpace`.
unfoldable pub update_space : ℕ → ℕ → Space → Space
update_space old new s = record s { free_space = (s.free_space +ℤ pos old) -ℤ pos new }

-- `cachable`. The comparison with `mTotalSize * mMaxSizePct` is done in `double`: it is the
-- parameter.
unfoldable pub cachable : (ℕ → ℕ → Bool) → ℕ → Space → Bool
cachable over_share required s =
    if leb (2 ^ 63) required
    then false
    else if over_share required s.total_size
    then false
    else true

-- The operations and their laws. `tracks` and `free` are what the laws are about: the entries that
-- the policy knows, and the space that is left. An entry's opaque data is found by its id.
pub record CachePolicy : Type 1 where
  pub State : Type 0
  pub IsValid : State → Type 0
  pub tracks : State → ℕ → Bool
  pub space : State → Space
  pub use_entry : ℕ → ℕ → State → State
  pub use_and_update : ℕ → ℕ → ℕ → State → State
  pub destroy : ℕ → ℕ → State → State
  pub create : ℕ → ℕ → State → State
  pub next_item : ℕ → State → Option ℕ
  pub use_entry_law :
      (s : State) (id size : ℕ)
      → IsValid s
      → tracks s id ≡ true
      → IsValid (use_entry id size s)
        × ((k : ℕ) → tracks (use_entry id size s) k ≡ tracks s k)
        × (space (use_entry id size s) ≡ space s)
  pub use_and_update_law :
      (s : State) (id old new : ℕ)
      → IsValid s
      → tracks s id ≡ true
      → IsValid (use_and_update id old new s)
        × ((k : ℕ) → tracks (use_and_update id old new s) k ≡ tracks s k)
        × (space (use_and_update id old new s) ≡ update_space old new (space s))
  pub destroy_law :
      (s : State) (id size : ℕ)
      → IsValid s
      → IsValid (destroy id size s)
        × ((k : ℕ) → tracks (destroy id size s) k ≡ (not (k == id) && tracks s k))
        × (space (destroy id size s) ≡ update_space size 0 (space s))
  pub create_law :
      (s : State) (id size : ℕ)
      → IsValid s
      → tracks s id ≡ false
      → IsValid (create id size s)
        × ((k : ℕ) → tracks (create id size s) k ≡ (k == id || tracks s k))
        × (space (create id size s) ≡ update_space 0 size (space s))
  -- The item named is one that is there, and only while space is missing.
  pub next_item_some :
      (s : State) (required id : ℕ)
      → next_item required s ≡ some id
      → (tracks s id ≡ true) × ¬ AtLeast (space s).free_space required
  pub next_item_none :
      (s : State) (required : ℕ)
      → next_item required s ≡ none
      → AtLeast (space s).free_space required ⊎ ((k : ℕ) → tracks s k ≡ false)
