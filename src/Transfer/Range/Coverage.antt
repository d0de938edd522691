-- ===== src/Transfer/Range/Coverage.antt =====
-- What a list of ranges covers, and that `isContainedBy` decides it on the lists that `addToList`
-- builds.
use sirikata.Base.{
  ℕ, ◌+◌, ◌-◌, ◌^◌, ◌≤◌, ◌<◌, ◌≡◌, ◌⊎◌, inr, ◌↔◌, true, false, List, [], ◌∷◌, arith,
}
use sirikata.Transfer.Range.{Range, endbyte, contains, follow, is_contained_by}

-- The byte stands in the range. A range to the end of the file has every byte from its start on.
abbrev pub Covers : Range → ℕ → Type 0
Covers r b = (r.start ≤ b) × ((r.whole_file ≡ true) ⊎ (b < endbyte r))

-- The range has a first byte: it goes to the end of the file, as `Range(true)` does, or is not
-- empty.
abbrev pub HasByte : Range → Type 0
HasByte r = Covers r r.start

-- Not empty, and the end fits 64 bits.
pub record IsValid (r : Range) : Type 0 where
  pub nonempty : 0 < r.length
  pub fits : r.start + r.length < 2 ^ 64

pub start-lt-endbyte : (r : Range) → IsValid r → r.start < endbyte r
unfolding endbyte
start-lt-endbyte r v = omega (arith, v.nonempty, v.fits)

-- Of two valid ranges one `contains` the other exactly if it has all of its bytes.
pub contains_iff :
    (r s : Range)
    → IsValid r
    → IsValid s
    → (contains r s ≡ true) ↔ ((b : ℕ) → Covers s b → Covers r b)
unfolding contains
contains_iff r s v w = (
  λ h b c. ground arith,
  λ h.
      let starts = start-lt-endbyte s w in
      ground (arith, h s.start, h (endbyte s - 1), h (s.start + endbyte r)),
)

-- `y` may stand behind `x`: it starts and ends later, and `x` has an end.
abbrev pub Follows : Range → Range → Type 0
Follows x y =
    (x.start < y.start) × (x.whole_file ≡ false) × ((y.whole_file ≡ true) ⊎ (endbyte x ≤ endbyte y))

module _ {A : Type 0} (range : A → Range) where
  abbrev pub Covered : List A → ℕ → Type 0
  Covered [] b = ⊥
  Covered (x ∷ xs) b = Covers (range x) b ⊎ Covered xs b

  abbrev pub AllFollow : Range → List A → Type 0
  AllFollow x [] = Unit {0}
  AllFollow x (y ∷ ys) = Follows x (range y) × AllFollow x ys

  -- The lists that `addToList` keeps.
  abbrev pub IsSorted : List A → Type 0
  IsSorted [] = Unit {0}
  IsSorted (x ∷ xs) = IsValid (range x) × AllFollow (range x) xs × IsSorted xs

module _ {A : Type 0} (range : A → Range) where
  follow_sound :
      (r : Range) (l b : ℕ) (xs : List A)
      → follow range r l xs ≡ true
      → l ≤ b
      → Covers r b
      → Covered range xs b
  unfolding follow
  follow_sound r l b [] h le c = absurd (cc)
  follow_sound r l b (x ∷ xs) h le c = ground (arith, follow_sound r (endbyte (range x)) b xs)

  -- What `isContainedBy` accepts is covered, whatever the list.
  is_contained_by_sound :
      (r : Range) (b : ℕ) (xs : List A)
      → is_contained_by range r xs ≡ true
      → Covers r b
      → Covered range xs b
  unfolding is_contained_by follow
  is_contained_by_sound r b [] h c = absurd (cc)
  is_contained_by_sound r b (x ∷ xs) h c =
      ground (arith, is_contained_by_sound r b xs, follow_sound r (endbyte (range x)) b xs)

  -- Nothing before the start of the first range is covered.
  not-Covered-below :
      (x : Range) (b : ℕ) (xs : List A) → AllFollow range x xs → b ≤ x.start → ¬ Covered range xs b
  not-Covered-below x b [] f le c = c
  not-Covered-below x b (y ∷ ys) f le c = ground (arith, not-Covered-below x b ys f.1)

  -- The first range, if any, ends at `l` or later.
  abbrev EndsFrom : ℕ → List A → Type 0
  EndsFrom l [] = Unit {0}
  EndsFrom l (x ∷ xs) = ((range x).whole_file ≡ true) ⊎ (l ≤ endbyte (range x))

  AllFollow-EndsFrom :
      (x : A) (xs : List A) → AllFollow range (range x) xs → EndsFrom (endbyte (range x)) xs
  AllFollow-EndsFrom x [] f = tt
  AllFollow-EndsFrom x (y ∷ ys) f = f.0.2

  follow_complete :
      (r : Range) (l : ℕ) (xs : List A)
      → IsSorted range xs
      → EndsFrom l xs
      → r.start ≤ l
      → (r.whole_file ≡ true) ⊎ (l < endbyte r)
      → ((b : ℕ) → l ≤ b → Covers r b → Covered range xs b)
      → follow range r l xs ≡ true
  unfolding follow
  follow_complete r l [] s f le past h = absurd (h l (omega arith) (le, past))
  follow_complete r l (x ∷ xs) s f le past h =
      let here : (range x).start ≤ l =
        ground (arith, h l (omega arith) (le, past), not-Covered-below (range x) l xs s.1) in
      let later : (range x).whole_file ≡ false
          → (r.whole_file ≡ true) ⊎ (endbyte (range x) < endbyte r)
          → follow range r (endbyte (range x)) xs ≡ true =
        λ open_ past'.
          follow_complete r (endbyte (range x)) xs s.2 (AllFollow-EndsFrom x xs s.1) (ground arith)
            past' (λ b from c. ground (arith, h b (ground arith) c)) in
      ground (arith, later)

  -- On a sorted list everything that is covered is accepted.
  is_contained_by_complete :
      (r : Range) (xs : List A)
      → Covers r r.start
      → IsSorted range xs
      → ((b : ℕ) → Covers r b → Covered range xs b)
      → is_contained_by range r xs ≡ true
  unfolding is_contained_by follow
  is_contained_by_complete r [] v s h = absurd (h r.start v)
  is_contained_by_complete r (x ∷ xs) v s h =
      let starts : (range x).start ≤ r.start =
        ground (arith, h r.start v, not-Covered-below (range x) r.start xs s.1) in
      let found : (range x).whole_file ≡ false
          → r.start < endbyte (range x)
          → (r.whole_file ≡ true) ⊎ (endbyte (range x) < endbyte r)
          → follow range r (endbyte (range x)) xs ≡ true =
        λ open_ inside past.
          follow_complete r (endbyte (range x)) xs s.2 (AllFollow-EndsFrom x xs s.1) (omega arith)
            past (λ b from c. ground (arith, h b c)) in
      let other : (range x).whole_file ≡ false
          → endbyte (range x) ≤ r.start
          → is_contained_by range r xs ≡ true =
        λ open_ out. is_contained_by_complete r xs v s.2 (λ b c. ground (arith, h b c)) in
      ground (arith, found, other, start-lt-endbyte (range x) s.0)

  -- `isContainedBy` decides whether a sorted list covers every byte of a range that has one.
  pub is_contained_by_decides :
      (r : Range) (xs : List A)
      → HasByte r
      → IsSorted range xs
      → (is_contained_by range r xs ≡ true) ↔ ((b : ℕ) → Covers r b → Covered range xs b)
  is_contained_by_decides r xs v s =
      (λ h b c. is_contained_by_sound r b xs h c, is_contained_by_complete r xs v s)

  -- `isContainedBy` decides whether a sorted list covers every byte of a valid range.
  pub is_contained_by_iff :
      (r : Range) (xs : List A)
      → IsValid r
      → IsSorted range xs
      → (is_contained_by range r xs ≡ true) ↔ ((b : ℕ) → Covers r b → Covered range xs b)
  is_contained_by_iff r xs v s =
      is_contained_by_decides r xs (omega arith, inr (start-lt-endbyte r v)) s

  -- What lies in a range that a sorted list covers is covered too, if it has a first byte.
  pub is_contained_by-contains :
      (r s : Range) (xs : List A)
      → contains r s ≡ true
      → Covers s s.start
      → IsSorted range xs
      → is_contained_by range r xs ≡ true
      → is_contained_by range s xs ≡ true
  unfolding contains
  is_contained_by-contains r s xs inside some sorted held =
      is_contained_by_complete s xs some sorted
        (λ b c. is_contained_by_sound r b xs held (ground arith))
