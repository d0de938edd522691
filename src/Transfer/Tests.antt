-- ===== src/Transfer/Tests.antt =====
-- Ranges, sparse files and the memory cache on concrete values.
use sirikata.Base.{
  List, ℕ, ◌+◌, ◌*◌, ◌^◌, ◌<◌, ◌≡◌, refl, ◌⊎◌, inr, ◌↔◌, Bool, true, false, [], ◌∷◌, none, some,
  arith, leb,
}
use sirikata.Base.Int.{◌-ℤ◌, ◌+ℤ◌, pos, AtLeast, ltb_ℤ}
use sirikata.Base.Assoc.{lookup, remove, has, modify}
use sirikata.Transfer.Range.{
  Range, endbyte, is_contained_by, follow, add_to_list, scan, erase_covered, place,
}
use sirikata.Transfer.Range.Coverage.{Covers, Covered, IsSorted, IsValid, is_contained_by_iff}
use sirikata.Transfer.Range.Insert.{add_to_list-Inserted}
use sirikata.Transfer.Sparse.{
  hash_loop, compute_fingerprint, dense_data_at, DenseData, SparseData, range_of, add_valid_data,
  data_at, last_endbyte, flatten, overrun,
}
use sirikata.Transfer.Sparse.Access.{AllFilled, DataAt, data_at-DataAt}
use sirikata.Transfer.Sparse.Fingerprint.{image, compute_fingerprint-image}
use sirikata.Transfer.Sparse.Flatten.{flatten-overrun}
use sirikata.Transfer.Policy.{update_space, cachable}
use sirikata.Transfer.LruPolicy.{LruState, lru_policy, member, next_item}
use sirikata.Transfer.CacheMap.{
  MapEntry, CacheMap, find, insert, use_at, assign, evict, alloc, erase,
}
use sirikata.Transfer.CacheMap.Invariant.{IsConsistent}
use sirikata.Transfer.CacheMap.Alloc.{IsShare, alloc-IsConsistent}
use sirikata.Transfer.MemoryCache.{store_new, store_more, populate_cache}
use sirikata.Transfer.MemoryCache.Contents.{IsStored, HoldsRange}
use sirikata.Transfer.MemoryCache.Populate.{IsHealthy, populate_cache-IsHealthy}

abbrev pub bytes_at : ℕ → ℕ → Range
bytes_at start n = record { start = start; length = n; whole_file = false }

pub bytes_at-IsValid : (start n : ℕ) → 0 < n → start + n < 2 ^ 64 → IsValid (bytes_at start n)
bytes_at-IsValid start n h k = record { nonempty = h; fits = k }

abbrev first : DenseData
first = record { range = bytes_at 0 4; bytes = 1 ∷ 2 ∷ 3 ∷ 4 ∷ [] }

abbrev pub second : DenseData
second = record { range = bytes_at 4 3; bytes = 5 ∷ 6 ∷ 7 ∷ [] }

abbrev distant : DenseData
distant = record { range = bytes_at 10 2; bytes = 8 ∷ 9 ∷ [] }

abbrev file : SparseData
file = first ∷ distant ∷ []

first-IsValid : IsValid (range_of first)
first-IsValid = bytes_at-IsValid 0 4 (omega arith) (omega arith)

pub second-IsValid : IsValid (range_of second)
second-IsValid = bytes_at-IsValid 4 3 (omega arith) (omega arith)

distant-IsValid : IsValid (range_of distant)
distant-IsValid = bytes_at-IsValid 10 2 (omega arith) (omega arith)

file-IsSorted : IsSorted range_of file
unfolding endbyte
file-IsSorted =
    (first-IsValid, ((omega arith, refl, inr (omega arith)), tt), (distant-IsValid, tt, tt))

file-AllFilled : AllFilled file
file-AllFilled = (refl, (refl, tt))

add_valid_data_between : add_valid_data second file ≡ first ∷ second ∷ distant ∷ []
unfolding add_valid_data add_to_list scan place erase_covered endbyte
add_valid_data_between = refl

add_to_list-Inserted_example :
    IsSorted range_of (add_to_list range_of second file)
    × ((b : ℕ)
        → Covered range_of (add_to_list range_of second file) b
          ↔ (Covers (range_of second) b ⊎ Covered range_of file b))
add_to_list-Inserted_example =
    add_to_list-Inserted range_of second file second-IsValid file-IsSorted

is_contained_by_gap : is_contained_by range_of (bytes_at 2 6) file ≡ false
unfolding is_contained_by follow endbyte
is_contained_by_gap = refl

is_contained_by_iff_example :
    (is_contained_by range_of (bytes_at 10 1) file ≡ true)
    ↔ ((b : ℕ) → Covers (bytes_at 10 1) b → Covered range_of file b)
is_contained_by_iff_example =
    is_contained_by_iff range_of (bytes_at 10 1) file
      (bytes_at-IsValid 10 1 (omega arith) (omega arith)) file-IsSorted

data_at_gap : data_at 5 file ≡ (none, 5)
unfolding data_at endbyte
data_at_gap = refl

data_at-DataAt_example : DataAt 1 file (data_at 1 file).0 (data_at 1 file).1
data_at-DataAt_example =
    data_at-DataAt 1 file file-IsSorted file-AllFilled
      ((λ e. absurd (cc)), ((λ e. absurd (cc)), tt))

flatten-overrun_example : flatten 20 file ≡ overrun
unfolding last_endbyte endbyte
flatten-overrun_example =
    flatten-overrun 20 first distant [] file-IsSorted file-AllFilled (refl, (refl, tt))
      (omega arith) (omega arith)

abbrev byte_sum : List ℕ → ℕ
byte_sum [] = 0
byte_sum (b ∷ bytes) = b + byte_sum bytes

compute_fingerprint-image_example :
    compute_fingerprint byte_sum 20 file ≡ some (byte_sum (image 0 (last_endbyte file) file))
unfolding last_endbyte endbyte
compute_fingerprint-image_example =
    compute_fingerprint-image byte_sum 20 file file-IsSorted file-AllFilled (refl, (refl, tt))
      (omega arith)

compute_fingerprint_sum : compute_fingerprint byte_sum 20 file ≡ some 27
unfolding compute_fingerprint hash_loop data_at dense_data_at endbyte
compute_fingerprint_sum = refl

-- At least half of the space.
abbrev pub half : ℕ → ℕ → Bool
half required total = leb total (required * 2)

pub half-IsShare : IsShare half
half-IsShare required total h = ground arith

abbrev lru_state : LruState
lru_state = record {
  space = record { total_size = 10; free_space = pos 2 };
  least_used = 1 ∷ 2 ∷ [];
}

abbrev stored_first : MapEntry SparseData
stored_first = record { contents = some (first ∷ []); size = 4 }

abbrev pub cache : CacheMap lru_policy SparseData
unfolding lru_policy
cache = record { entries = (1, stored_first) ∷ (2, stored_first) ∷ []; policy = lru_state }

cache-IsConsistent : IsConsistent lru_policy cache
unfolding lru_policy has lookup member
cache-IsConsistent = record {
  distinct = (refl, (refl, tt));
  policy_valid = (refl, (refl, tt));
  tracked = λ k. ground arith;
  balanced = refl;
}

stored_first-IsStored : IsStored stored_first
stored_first-IsStored = (first ∷ [], refl, refl, (first-IsValid, tt, tt))

pub cache-IsHealthy : IsHealthy half lru_policy cache
unfolding lru_policy
cache-IsHealthy = record {
  consistent = cache-IsConsistent;
  stored = (stored_first-IsStored, (stored_first-IsStored, tt));
  within = omega arith;
}

abbrev evicted : CacheMap lru_policy SparseData
unfolding lru_policy
evicted = record {
  entries = (3, record { contents = some (second ∷ []); size = 3 }) ∷ (2, stored_first) ∷ [];
  policy = record {
    space = record { total_size = 10; free_space = pos 3 };
    least_used = 2 ∷ 3 ∷ [];
  };
}

-- Storing evicts the file used least recently.
populate_cache_evicts :
    populate_cache half lru_policy 3 3 second cache ≡ some (evicted, (3, second) ∷ [])
unfolding populate_cache alloc evict cachable lru_policy erase find remove lookup insert store_new
    store_more assign use_at modify add_valid_data add_to_list scan place erase_covered endbyte
    next_item ltb_ℤ update_space ◌-ℤ◌ ◌+ℤ◌ sirikata.Transfer.LruPolicy.erase
populate_cache_evicts = refl

alloc-IsConsistent_example :
    ((cachable half 4 (lru_policy.space cache.policy) ≡ false)
      × (alloc lru_policy half 3 4 cache ≡ some (cache, false)))
    ⊎ ((m' : CacheMap lru_policy SparseData) × (cachable half 4 (lru_policy.space cache.policy)
          ≡ true)
        × (alloc lru_policy half 3 4 cache ≡ some (m', true))
        × IsConsistent lru_policy m'
        × AtLeast (lru_policy.space m'.policy).free_space 4
        × (AtLeast (lru_policy.space cache.policy).free_space 4 → m' ≡ cache)
        × ((lru_policy.space m'.policy).total_size ≡ (lru_policy.space cache.policy).total_size))
unfolding cache
alloc-IsConsistent_example =
    alloc-IsConsistent lru_policy half 3 4 cache half-IsShare cache-IsConsistent (omega arith)

populate_cache-IsHealthy_example :
    (m' : CacheMap lru_policy SparseData) × (populate_cache half lru_policy 3 2 distant cache
      ≡ some (m', (2, distant) ∷ []))
    × IsHealthy half lru_policy m'
    × ((lru_policy.space m'.policy).total_size ≡ (lru_policy.space cache.policy).total_size)
    × (cachable half 2 (lru_policy.space cache.policy) ≡ true
        → HoldsRange (range_of distant) (lookup 2 m'.entries))
    × (cachable half 2 (lru_policy.space cache.policy) ≡ false → m' ≡ cache)
unfolding lru_policy
populate_cache-IsHealthy_example =
    populate_cache-IsHealthy half lru_policy 3 2 distant cache half-IsShare cache-IsHealthy
      (omega arith) (omega arith) distant-IsValid
