-- ===== src/Util/Sha256.antt =====
-- The hexadecimal form of a SHA-256 value (libcore/src/util/Sha256.cpp). A value is a list of bytes,
-- a string a list of character codes; `none` is the exception that is thrown.
use sirikata.Base.{
  ℕ, suc, ◌+◌, ◌-◌, ◌*◌, ◌/◌, ◌%◌, ◌<◌, ◌≡◌, ◌↔◌, refl, sym, ap, ◌∙◌, subst, true, ◌&&◌, Option,
  none, some, List, [], ◌∷◌, ltb, leb, ◌==◌, if◌then◌else◌, length, map, arith, inl, inr,
  Bool-cases, Option-cases,
}
use sirikata.Base.Quantify.{All}

abbrev static_size : ℕ
static_size = 32

abbrev hex_size : ℕ
hex_size = 64

infixl 5 ◌>>=◌
abbrev pub ◌>>=◌ {ℓ κ} : {A : Type ℓ} {B : Type κ} → Option A → (A → Option B) → Option B
none >>= f = none
some a >>= f = f a

unfoldable pub num_to_hex : ℕ → ℕ
num_to_hex num = if ltb num 10 then num + 48 else if ltb num 16 then num - 10 + 97 else 120

unfoldable pub num_from_hex : ℕ → Option ℕ
num_from_hex c =
    if leb 48 c && leb c 57
    then some (c - 48)
    else if leb 97 c && leb c 102
    then some (10 + (c - 97))
    else if leb 65 c && leb c 70
    then some (10 + (c - 65))
    else none

unfoldable pub convert_to_hex_string : List ℕ → List ℕ
convert_to_hex_string [] = []
convert_to_hex_string (b ∷ bytes) =
    num_to_hex (b / 16) ∷ num_to_hex (b % 16) ∷ convert_to_hex_string bytes

-- A byte is stored in 8 bits.
unfoldable pub hex_byte : ℕ → ℕ → Option ℕ
hex_byte c d = do high ← num_from_hex c; low ← num_from_hex d; some ((high * 16 + low) % 256)

-- The loop of `convertFromHex`, on as many characters as there are.
unfoldable pub from_hex : List ℕ → Option (List ℕ)
from_hex [] = some []
from_hex (c ∷ []) = none
from_hex (c ∷ d ∷ chars) = do b ← hex_byte c d; rest ← from_hex chars; some (b ∷ rest)

unfoldable pub convert_from_hex : List ℕ → Option (List ℕ)
convert_from_hex chars = if length chars == hex_size then from_hex chars else none

-- A SHA-256 value.
pub record IsDigest (bytes : List ℕ) : Type 0 where
  pub size : length bytes ≡ static_size
  pub small : All (λ b. b < 256) bytes

num_from_hex-num_to_hex : (n : ℕ) → n < 16 → num_from_hex (num_to_hex n) ≡ some n
unfolding num_from_hex num_to_hex
num_from_hex-num_to_hex n h = ground arith

-- Letters are made small; other digits stay.
abbrev pub lower : ℕ → ℕ
lower c = if leb 65 c && leb c 70 then c + 32 else c

num_to_hex-num_from_hex :
    (c : ℕ) {n : ℕ} → num_from_hex c ≡ some n → (n < 16) × (num_to_hex n ≡ lower c)
unfolding num_from_hex num_to_hex
num_to_hex-num_from_hex c h = ground arith

from_hex_nil : from_hex [] ≡ some []
unfolding from_hex
from_hex_nil = refl

from_hex_one : (c : ℕ) → from_hex (c ∷ []) ≡ none
unfolding from_hex
from_hex_one c = refl

from_hex-pair :
    (c d : ℕ) (chars : List ℕ)
    → from_hex (c ∷ d ∷ chars) ≡ (hex_byte c d >>= λ b. from_hex chars >>= λ rest. some (b ∷ rest))
unfolding from_hex
from_hex-pair c d chars = refl

hex_byte-num_to_hex :
    (b : ℕ) → b < 256 → hex_byte (num_to_hex (b / 16)) (num_to_hex (b % 16)) ≡ some b
unfolding hex_byte
hex_byte-num_to_hex b h =
    let high = num_from_hex-num_to_hex (b / 16) (omega arith) in
    let low = num_from_hex-num_to_hex (b % 16) (omega arith) in
    rw (high, low) (ap some (omega arith))

from_hex-convert :
    (bytes : List ℕ)
    → All (λ b. b < 256) bytes
    → from_hex (convert_to_hex_string bytes) ≡ some bytes
unfolding convert_to_hex_string
from_hex-convert [] h = from_hex_nil
from_hex-convert (b ∷ bytes) h =
    rw (from_hex-pair, hex_byte-num_to_hex b h.0, from_hex-convert bytes h.1) refl

length-convert : (bytes : List ℕ) → length (convert_to_hex_string bytes) ≡ length bytes * 2
unfolding convert_to_hex_string
length-convert [] = refl
length-convert (b ∷ bytes) = omega (arith, length-convert bytes)

-- Two digits that were read are the byte's, but for the case of letters.
num_to_hex-hex_byte :
    (c d : ℕ) {b : ℕ}
    → hex_byte c d ≡ some b
    → (b < 256) × (num_to_hex (b / 16) ≡ lower c) × (num_to_hex (b % 16) ≡ lower d)
unfolding hex_byte
num_to_hex-hex_byte c d {b} h = elim (Option-cases (num_from_hex c)) [
  | inl bad ↦ absurd (cc (h, bad))
  | inr (n, high) ↦ elim (Option-cases (num_from_hex d)) [
    | inl bad ↦ absurd (cc (h, high, bad))
    | inr (k, low) ↦
        let (small, first) = num_to_hex-num_from_hex c high in
        let (little, second) = num_to_hex-num_from_hex d low in
        let value : b ≡ n * 16 + k = ground (arith, h, high, low) in
        let up : b / 16 ≡ n = omega arith in
        let down : b % 16 ≡ k = omega arith in
        (omega arith, ap num_to_hex up ∙ first, ap num_to_hex down ∙ second)
  ]
]

-- What is read is written again as it was, in small letters.
convert-from_hex :
    (chars : List ℕ) {bytes : List ℕ}
    → from_hex chars ≡ some bytes
    → (convert_to_hex_string bytes ≡ map lower chars)
      × (length chars ≡ length bytes * 2)
      × All (λ b. b < 256) bytes
unfolding convert_to_hex_string
convert-from_hex [] {bytes} h =
    let e : [] ≡ bytes = ground (arith, h, from_hex_nil) in
    subst (λ bs. (convert_to_hex_string bs ≡ []) × (0 ≡ length bs * 2) × All (λ b. b < 256) bs) e
      (refl, refl, tt)
convert-from_hex (c ∷ []) {bytes} h = absurd (cc (h, from_hex_one c))
convert-from_hex (c ∷ d ∷ chars) {bytes} h = elim (Option-cases (hex_byte c d)) [
  | inl bad ↦ absurd (cc (h, from_hex-pair c d chars, bad))
  | inr (b, here) ↦ elim (Option-cases (from_hex chars)) [
    | inl bad ↦ absurd (cc (h, from_hex-pair c d chars, here, bad))
    | inr (rest, later) ↦
        let (small, high, low) = num_to_hex-hex_byte c d here in
        let (same, len, all) = convert-from_hex chars later in
        let e : (b ∷ rest) ≡ bytes = ground (arith, h, from_hex-pair c d chars, here, later) in
        subst
          (λ bs.
            (convert_to_hex_string bs ≡ map lower (c ∷ d ∷ chars))
            × (length (c ∷ d ∷ chars) ≡ length bs * 2)
            × All (λ b. b < 256) bs)
          e (ground (arith, high, low, same), omega arith, (small, all))
  ]
]

num_from_hex-lower : (c : ℕ) → num_from_hex (lower c) ≡ num_from_hex c
unfolding num_from_hex
num_from_hex-lower c = ground arith

from_hex-lower : (chars : List ℕ) → from_hex (map lower chars) ≡ from_hex chars
unfolding from_hex hex_byte
from_hex-lower [] = refl
from_hex-lower (c ∷ []) = refl
from_hex-lower (c ∷ d ∷ chars) =
    rw (num_from_hex-lower c, num_from_hex-lower d, from_hex-lower chars) refl

length-lower : (chars : List ℕ) → length (map lower chars) ≡ length chars
length-lower [] = refl
length-lower (c ∷ chars) = ap suc (length-lower chars)

-- A SHA-256 value is read back from its hexadecimal form, and from exactly the strings that are
-- that form but for the case of their letters.
pub convert_from_hex_iff :
    (bytes chars : List ℕ)
    → IsDigest bytes
    → (convert_from_hex (convert_to_hex_string bytes) ≡ some bytes)
      × ((convert_from_hex chars ≡ some bytes) ↔ (map lower chars ≡ convert_to_hex_string bytes))
unfolding convert_from_hex
convert_from_hex_iff bytes chars v =
    let size : length (convert_to_hex_string bytes) ≡ 64 =
      omega (arith, length-convert bytes, v.size) in
    let full : (length (convert_to_hex_string bytes) == 64) ≡ true = ground (arith, size) in
    let back = from_hex-convert bytes v.small in
    (
      rw full back,
      (
        λ h. elim (Bool-cases (length chars == 64)) [
          | inl fits ↦ sym (convert-from_hex chars (ground (arith, h, fits))).0
          | inr other ↦ absurd (cc (h, other))
        ],
        λ e.
            let fits : (length chars == 64) ≡ true =
              ground (arith, size, ap length e, length-lower chars) in
            rw fits (sym (from_hex-lower chars) ∙ ap from_hex e ∙ back),
      ),
    )
