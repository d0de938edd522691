-- ===== src/Transfer/Range.antt =====
-- `Range` (libcore/src/transfer/Range.hpp): a segment of a file, and sorted lists of segments. The
-- list's elements are ranges, or have one (`DenseData`), so its operations take that projection.
use sirikata.Base.{
  ℕ, ◌+◌, ◌-◌, ◌%◌, ◌^◌, Bool, true, false, not, ◌&&◌, ◌||◌, List, [], ◌∷◌, ◌++◌, ltb, leb, ◌==◌,
  if◌then◌else◌, bool_eq,
}
pub mod Order
pub mod Coverage
pub mod Search
pub mod Insert

pub record Range : Type 0 where
  pub start : ℕ
  pub length : ℕ
  pub whole_file : Bool

pub data Initializer : Type 0 where
  by_length by_bounds : Initializer

-- The arithmetic is that of `uint64`.
unfoldable pub make : ℕ → ℕ → Initializer → Bool → Range
make start length by_length whole = record { start = start; length = length; whole_file = whole }
make start end by_bounds whole = record {
  start = start;
  length = (end + 2 ^ 64 - start) % 2 ^ 64;
  whole_file = whole;
}

unfoldable pub endbyte : Range → ℕ
endbyte r = (r.start + r.length) % 2 ^ 64

-- `operator==` and `operator<`.
unfoldable pub eqb : Range → Range → Bool
eqb r s = r.length == s.length && r.start == s.start && bool_eq r.whole_file s.whole_file

unfoldable pub less : Range → Range → Bool
less r s =
    if r.length == s.length
    then if r.start == s.start && (r.whole_file || s.whole_file)
      then s.whole_file && not r.whole_file
      else ltb r.start s.start
    else ltb r.length s.length

unfoldable pub contains : Range → Range → Bool
contains r other =
    if r.whole_file
    then leb r.start other.start
    else if not r.whole_file && other.whole_file
    then false
    else leb r.start other.start && leb (endbyte other) (endbyte r)

abbrev pub raise : ℕ → ℕ → ℕ
raise max_end end = if ltb max_end end then end else max_end

abbrev pub set_if : Bool → Bool → Bool
set_if whole eof = if whole then true else eof

module _ {A : Type 0} (range : A → Range) where
  -- The second loop of `isContainedBy`.
  unfoldable pub follow : Range → ℕ → List A → Bool
  follow r last_end [] = false
  follow r last_end (x ∷ xs) =
      if ltb last_end (range x).start
      then false
      else if (range x).whole_file
      then true
      else if not r.whole_file && leb (endbyte r) (endbyte (range x))
      then true
      else follow r (endbyte (range x)) xs

  -- The first loop looks for the start of `r`; the second goes on from the same element.
  unfoldable pub is_contained_by : Range → List A → Bool
  is_contained_by r [] = false
  is_contained_by r (x ∷ xs) =
      if leb (range x).start r.start && (range x).whole_file
      then true
      else if leb (range x).start r.start && ltb r.start (endbyte (range x))
      then follow r (endbyte (range x)) (x ∷ xs)
      else is_contained_by r xs

  pub record Scan : Type 0 where
    pub before : List A
    pub after : List A
    pub max_end : ℕ
    pub includes_eof : Bool

  -- The first loop of `addToList`: the place of the new element, the greatest end and whether a
  -- range to the end of the file starts at or before it.
  unfoldable pub scan : ℕ → ℕ → Bool → List A → Scan
  scan start max_end eof [] = record {
    before = [];
    after = [];
    max_end = max_end;
    includes_eof = eof;
  }
  scan start max_end eof (x ∷ xs) =
      let max_end' = raise max_end (endbyte (range x)) in
      let eof' = set_if (range x).whole_file eof in
      let rest = scan start max_end' eof' xs in
      if ltb start (range x).start
      then record { before = []; after = x ∷ xs; max_end = max_end; includes_eof = eof }
      else if leb start (range x).start
      then record { before = []; after = x ∷ xs; max_end = max_end'; includes_eof = eof' }
      else record rest { before = x ∷ rest.before }

  -- The last loop of `addToList`: erase what the new range covers.
  unfoldable pub erase_covered : Range → List A → List A
  erase_covered r [] = []
  erase_covered r (x ∷ xs) =
      if r.whole_file || (not (range x).whole_file && leb (endbyte (range x)) (endbyte r))
      then erase_covered r xs
      else x ∷ erase_covered r xs

  unfoldable pub place : Range → A → List A → Scan → List A
  place r d xs found =
      if found.includes_eof || (ltb (endbyte r) found.max_end && not r.whole_file)
      then xs
      else found.before ++ d ∷ erase_covered r found.after

  -- `addToList`, called on the range of the new element.
  unfoldable pub add_to_list : A → List A → List A
  unfolding place
  add_to_list d xs =
      let r = range d in
      if leb r.length 0
      then xs
      else if r.start == 0 && r.whole_file
      then d ∷ []
      else place r d xs (scan r.start r.start false xs)
