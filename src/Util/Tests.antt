-- ===== src/Util/Tests.antt =====
-- A hash value in hexadecimal (libcore/src/util/Sha256.cpp).
use sirikata.Base.{ℕ, ◌≡◌, ◌↔◌, refl, some, none, List, [], ◌∷◌, ◌++◌, map, replicate, arith}
use sirikata.Util.Sha256.{
  num_to_hex, num_from_hex, hex_byte, from_hex, convert_to_hex_string, convert_from_hex, IsDigest,
  lower, convert_from_hex_iff,
}

abbrev bytes : List ℕ
bytes = 0xab ∷ replicate 31 7

bytes-IsDigest : IsDigest bytes
bytes-IsDigest = record { size = refl; small = omega arith }

-- The first letter is large.
abbrev chars : List ℕ
chars = 65 ∷ 98 ∷ [] ++ convert_to_hex_string (replicate 31 7)

convert_from_hex_iff_example :
    (convert_from_hex (convert_to_hex_string bytes) ≡ some bytes)
    × ((convert_from_hex chars ≡ some bytes) ↔ (map lower chars ≡ convert_to_hex_string bytes))
convert_from_hex_iff_example = convert_from_hex_iff bytes chars bytes-IsDigest

large_letter : convert_from_hex chars ≡ some bytes
unfolding convert_from_hex from_hex hex_byte num_from_hex convert_to_hex_string num_to_hex
large_letter = refl

too_short : convert_from_hex (65 ∷ 98 ∷ []) ≡ none
unfolding convert_from_hex
too_short = refl
