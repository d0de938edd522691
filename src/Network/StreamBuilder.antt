-- ===== src/Network/StreamBuilder.antt =====
-- The headers by which the connections of one client find each other (libcore/src/network):
-- `copyHeader` of ASIOSocketWrapper.cpp writes one, `buildStream` of ASIOStreamBuilder.cpp reads it
-- and gathers the sockets. A socket is a number; a built stream is logged with its sockets.
use sirikata.Base.{
  ℕ, ◌+◌, ◌-◌, ◌*◌, ◌/◌, ◌%◌, Bool, true, false, not, ◌&&◌, ◌||◌, Option, none, some, List, [], ◌∷◌,
  ◌++◌, ltb, ◌==◌, if◌then◌else◌, length, drop, take, get_elem?,
}
pub mod Gather
mod Tests

abbrev pub Bytes : Type 0
Bytes = List ℕ

abbrev pub bytes_eq : Bytes → Bytes → Bool
bytes_eq [] [] = true
bytes_eq (x ∷ xs) (y ∷ ys) = (x == y) && bytes_eq xs ys
bytes_eq _ _ = false

-- "SSTTCP".
abbrev pub string_prefix : Bytes
string_prefix = 83 ∷ 83 ∷ 84 ∷ 84 ∷ 67 ∷ 80 ∷ []

-- The key is the 16 bytes of a UUID.
unfoldable pub copy_header : Bytes → ℕ → Bytes
copy_header key num = string_prefix ++ (48 + num / 10 % 10) ∷ (48 + num % 10) ∷ key

abbrev pub byte_at : ℕ → Bytes → ℕ
byte_at i bytes = elim (get_elem? bytes i) [ none ↦ 0 | some b ↦ b ]

pub record IncompleteStream : Type 0 where
  pub num_sockets : ℕ
  pub sockets : List ℕ

pub record Built : Type 0 where
  pub context : Bytes
  pub members : List ℕ

pub record Builder : Type 0 where
  pub incomplete : Bytes → Option IncompleteStream
  pub stale : List Bytes
  pub built : List Built

abbrev pub set_key :
    Bytes
    → Option IncompleteStream
    → (Bytes → Option IncompleteStream)
    → Bytes
    → Option IncompleteStream
set_key key entry map k = if bytes_eq k key then entry else map k

-- `(byte - '0') % 10` in `int`: its positive and its negative part.
abbrev pub digit : ℕ → ℕ
digit byte = (byte - 48) % 10

abbrev pub digit_below : ℕ → ℕ
digit_below byte = (48 - byte) % 10

-- A negative number is a large one when it is unsigned, and is cut to 99.
unfoldable pub num_connections : Bytes → ℕ
num_connections buffer =
    let above = digit (byte_at 6 buffer) * 10 + digit (byte_at 7 buffer) in
    let below = digit_below (byte_at 6 buffer) * 10 + digit_below (byte_at 7 buffer) in
    if ltb above below then 99 else above - below

-- The entry of a UUID, which the first of its sockets makes.
unfoldable pub find_or_add : Bytes → ℕ → Builder → IncompleteStream
find_or_add context num b = elim (b.incomplete context) [
  | none ↦ record { num_sockets = num; sockets = [] }
  | some entry ↦ entry
]

unfoldable pub add_socket : Bytes → ℕ → ℕ → IncompleteStream → Builder → Builder
add_socket context num socket entry b =
    if not (num == entry.num_sockets)
    then record b { incomplete = set_key context none b.incomplete }
    else if num == length (entry.sockets ++ socket ∷ [])
    then record b {
      incomplete = set_key context none b.incomplete;
      built = b.built ++ record { context = context; members = entry.sockets ++ socket ∷ [] } ∷ [];
    }
    else record b {
      incomplete =
          set_key context (some (record entry { sockets = entry.sockets ++ socket ∷ [] }))
            b.incomplete;
      stale = b.stale ++ context ∷ [];
    }

unfoldable pub build_stream : Bool → Bytes → ℕ → Builder → Builder
build_stream error buffer socket b =
    let context = drop 8 buffer in
    let num = num_connections buffer in
    if error || not (bytes_eq (take 6 buffer) string_prefix)
    then b
    else add_socket context num socket (find_or_add context num b) b
