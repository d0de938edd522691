-- ===== src/Network/Uint30.antt =====
-- `Stream::uint30` (libcore/src/network/Stream.hpp and Stream.cpp): numbers below 2 ^ 30 in one to
-- four bytes. A byte is a number below 256; `x & 127` is the remainder by 128, and `|` joins
-- disjoint bits, so it is a sum.
use sirikata.Base.{
  ℕ, ◌+◌, ◌*◌, ◌/◌, ◌%◌, ◌^◌, ◌≤◌, ◌<◌, ◌≡◌, refl, ◌≢◌, List, [], ◌∷◌, ◌++◌, Option, none, some,
  arith, ltb, leb, if◌then◌else◌, length,
}

unfoldable pub serialize : ℕ → List ℕ
serialize id =
    if ltb id 128
    then id ∷ []
    else if ltb id 16384
    then (id % 128 + 128) ∷ (id / 128 % 256) ∷ []
    else (id % 128 + 128)
      ∷ (id / 128 % 128 + 128)
      ∷ (id / 16384 % 256)
      ∷ (id / 16384 / 256 % 256)
      ∷ []

-- The value and the bytes used; `none` where the code returns false, with too few bytes at hand.
unfoldable pub unserialize : List ℕ → Option (ℕ × ℕ)
unserialize [] = none
unserialize (b ∷ []) = if leb 128 b then none else some (b, 1)
unserialize (b ∷ b1 ∷ []) =
    if leb 128 b then if leb 128 b1 then none else some (b % 128 + b1 * 128, 2) else some (b, 1)
unserialize (b ∷ b1 ∷ b2 ∷ []) =
    if leb 128 b then if leb 128 b1 then none else some (b % 128 + b1 * 128, 2) else some (b, 1)
unserialize (b ∷ b1 ∷ b2 ∷ b3 ∷ rest) =
    if leb 128 b
    then if leb 128 b1
      then some (b % 128 + b1 % 128 * 128 + b2 * 16384 + b3 * (16384 * 256), 4)
      else some (b % 128 + b1 * 128, 2)
    else some (b, 1)

pub length-serialize_bounds : (id : ℕ) → (1 ≤ length (serialize id)) × (length (serialize id) ≤ 4)
unfolding serialize
length-serialize_bounds id = ground arith

-- What was written of a number below 2 ^ 30 is read back, whatever follows it, and exactly its
-- bytes are used.
pub unserialize-serialize :
    (id : ℕ) (rest : List ℕ)
    → id < 2 ^ 30
    → unserialize (serialize id ++ rest) ≡ some (id, length (serialize id))
unfolding serialize unserialize
unserialize-serialize id [] h = ground arith
unserialize-serialize id (a ∷ []) h = ground arith
unserialize-serialize id (a ∷ b ∷ []) h = ground arith
unserialize-serialize id (a ∷ b ∷ c ∷ rest) h = ground arith

-- Where fewer bytes are at hand than were written, reading fails: nothing is misread.
pub unserialize-short :
    (id : ℕ) (bs w tail : List ℕ)
    → bs ++ w ≡ serialize id ++ tail
    → length bs < length (serialize id)
    → unserialize bs ≡ none
unfolding serialize unserialize
unserialize-short id [] w tail e h = refl
unserialize-short id (a ∷ []) w tail e h = ground arith
unserialize-short id (a ∷ b ∷ []) w tail e h = ground arith
unserialize-short id (a ∷ b ∷ c ∷ []) w tail e h = ground arith
unserialize-short id (a ∷ b ∷ c ∷ d ∷ bs) w tail e h = absurd (ground arith)

abbrev IsByte : ℕ → Type 0
IsByte b = b < 256

abbrev pub AllBytes : List ℕ → Type 0
AllBytes [] = Unit {0}
AllBytes (b ∷ bs) = IsByte b × AllBytes bs

serialize-AllBytes : (id : ℕ) → AllBytes (serialize id)
unfolding serialize
serialize-AllBytes id = ground arith

-- Whatever the bytes are, no more of them are used than are there, at least one is, and the
-- value fits 30 bits.
pub unserialize_bounds :
    (bs : List ℕ) {v n : ℕ}
    → AllBytes bs
    → unserialize bs ≡ some (v, n)
    → (v < 2 ^ 30) × (1 ≤ n) × (n ≤ 4) × (n ≤ length bs)
unfolding unserialize
unserialize_bounds [] h e = absurd (cc)
unserialize_bounds (a ∷ []) h e = ground arith
unserialize_bounds (a ∷ b ∷ []) h e = ground arith
unserialize_bounds (a ∷ b ∷ c ∷ []) h e = ground arith
unserialize_bounds (a ∷ b ∷ c ∷ d ∷ bs) h e = ground arith

-- Four bytes are always enough to read a number.
pub unserialize-ne-none : (bs : List ℕ) → 4 ≤ length bs → unserialize bs ≢ none
unfolding unserialize
unserialize-ne-none [] h = absurd (omega arith)
unserialize-ne-none (a ∷ []) h = absurd (omega arith)
unserialize-ne-none (a ∷ b ∷ []) h = absurd (omega arith)
unserialize-ne-none (a ∷ b ∷ c ∷ []) h = absurd (omega arith)
unserialize-ne-none (a ∷ b ∷ c ∷ d ∷ bs) h = ground arith
