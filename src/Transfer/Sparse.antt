-- ===== src/Transfer/Sparse.antt =====
-- `DenseData` and `SparseData` (libcore/src/transfer/TransferData.hpp): the pieces of a file that
-- are known, each with its range. A `SparseData` is the list of its pieces.
use sirikata.Base.{
  ℕ, zero, suc, ◌+◌, ◌-◌, ◌%◌, ◌^◌, Bool, true, false, not, ◌&&◌, ◌||◌, List, [], ◌∷◌, ◌++◌, Option,
  none, some, ltb, leb, ◌==◌, if◌then◌else◌, length, drop, take, replicate,
}
use sirikata.Transfer.Range.{Range, make, by_bounds, endbyte, is_contained_by, add_to_list}
pub mod Space
pub mod Access
pub mod Flatten
pub mod Fingerprint

pub record DenseData : Type 0 where
  pub range : Range
  pub bytes : List ℕ

abbrev pub SparseData : Type 0
SparseData = List DenseData

abbrev pub range_of : DenseData → Range
range_of d = d.range

-- `DenseData(range)`: room for the bytes of the range.
unfoldable pub new_dense : Range → DenseData
new_dense r = record { range = r; bytes = replicate r.length 0 }

-- `DenseData::dataAt`: the bytes from the offset on; `none` for NULL.
unfoldable pub dense_data_at : DenseData → ℕ → Option (List ℕ)
dense_data_at d offset =
    if leb (endbyte d.range) offset || ltb offset d.range.start
    then none
    else some (drop (offset - d.range.start) d.bytes)

unfoldable pub add_valid_data : DenseData → SparseData → SparseData
add_valid_data d sparse = add_to_list range_of d sparse

unfoldable pub space_from : ℕ → SparseData → ℕ
space_from length [] = length
space_from length (d ∷ sparse) = space_from ((length + d.range.length) % 2 ^ 64) sparse

-- `getSpaceUsed`.
unfoldable pub space_used : SparseData → ℕ
space_used sparse = space_from 0 sparse

unfoldable pub startbyte : SparseData → ℕ
startbyte [] = 0
startbyte (d ∷ sparse) = d.range.start

unfoldable pub last_endbyte : SparseData → ℕ
last_endbyte [] = 0
last_endbyte (d ∷ []) = endbyte d.range
last_endbyte (d ∷ e ∷ sparse) = last_endbyte (e ∷ sparse)

unfoldable pub contiguous : SparseData → Bool
unfolding startbyte last_endbyte
contiguous [] = true
contiguous (d ∷ sparse) =
    is_contained_by range_of
      (make (startbyte (d ∷ sparse)) (last_endbyte (d ∷ sparse)) by_bounds false) (d ∷ sparse)

-- `SparseData::dataAt`: the bytes at the offset, if they are known, and for how many bytes the
-- answer holds. The length is that of `uint64`.
unfoldable pub data_at : ℕ → SparseData → Option (List ℕ) × ℕ
data_at offset [] = (none, 0)
data_at offset (d ∷ sparse) =
    let r = d.range in
    if leb r.start offset && (r.whole_file || ltb offset (endbyte r))
    then (dense_data_at d offset, (r.length + (r.start + 2 ^ 64 - offset)) % 2 ^ 64)
    else if ltb offset r.start
    then (none, r.start - offset)
    else data_at offset sparse

-- How `flatten` ends: with a result, with a write outside its vector, or with the fuel used up.
pub data Flattened : Type 0 where
  flat_data : DenseData → Flattened
  overrun out_of_fuel : Flattened

-- `std::copy` or `std::memset` to a place in a vector; `none` where it leaves the vector.
unfoldable pub write : List ℕ → ℕ → List ℕ → Option (List ℕ)
write out place bytes =
    if leb (place + length bytes) (length out)
    then some (take place out ++ bytes ++ drop (place + length bytes) out)
    else none

abbrev pub is_null : Option (List ℕ) → Bool
is_null none = true
is_null (some bytes) = false

-- What a round writes: zeros where nothing is known.
abbrev pub piece : Option (List ℕ) → ℕ → List ℕ
piece none n = replicate n 0
piece (some bytes) n = take n bytes

-- The loop of `flatten`. The position is advanced before the bytes are written.
unfoldable pub flatten_loop : ℕ → SparseData → Range → ℕ → List ℕ → Flattened
flatten_loop zero sparse r start out = out_of_fuel
flatten_loop (suc fuel) sparse r start out =
    let (bytes, n) = data_at ((start + startbyte sparse) % 2 ^ 64) sparse in
    let start' = (start + n) % 2 ^ 64 in
    let rest : Flattened = elim (write out start' (piece bytes n)) [
      | none ↦ overrun
      | some out' ↦ flatten_loop fuel sparse r start' out'
    ] in
    if not (ltb start r.length) || (is_null bytes && n == 0)
    then flat_data (record { range = r; bytes = out })
    else rest

unfoldable pub flatten : ℕ → SparseData → Flattened
unfolding new_dense
flatten fuel [] = flat_data (new_dense (record { start = 0; length = 0; whole_file = false }))
flatten fuel (d ∷ []) = flat_data d
flatten fuel (d ∷ e ∷ sparse) =
    let s = d ∷ e ∷ sparse in
    let r = make (startbyte s) (last_endbyte s) by_bounds false in
    flatten_loop fuel s r 0 (new_dense r).bytes

-- The loop of `computeFingerprint`. The context is the list of the bytes that it was given;
-- `updateZeros` gives it zeros.
unfoldable pub hash_loop : ℕ → SparseData → ℕ → List ℕ → Option (List ℕ)
hash_loop zero sparse start context = none
hash_loop (suc fuel) sparse start context =
    let (bytes, n) = data_at start sparse in
    let rest = hash_loop fuel sparse ((start + n) % 2 ^ 64) (context ++ piece bytes n) in
    if is_null bytes && n == 0 then some context else rest

-- `computeFingerprint`, for the hash of a list of bytes; `none` where the fuel is used up.
unfoldable pub compute_fingerprint : (List ℕ → ℕ) → ℕ → SparseData → Option ℕ
compute_fingerprint sha256 fuel sparse = elim (hash_loop fuel sparse 0 []) [
  | none ↦ none
  | some context ↦ some (sha256 context)
]
