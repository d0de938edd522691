-- ===== src/Transfer/Sparse/Access.antt =====
-- What `SparseData::dataAt` answers, byte by byte, and what `computeFingerprint` hashes.
use sirikata.Base.{
  ℕ, ◌+◌, ◌-◌, ◌%◌, ◌^◌, ◌≤◌, ◌<◌, ◌≡◌, ◌≢◌, refl, ap, ◌∙◌, inl, inr, true, List, [], ◌∷◌, Option,
  none, some, arith, Bool-cases, ltb→lt, not-ltb→le, ltb, leb, ◌&&◌, ◌||◌, if◌then◌else◌, length,
  drop, get_elem?, length-drop, get_elem?-drop, get_elem?-some,
}
use sirikata.Transfer.Range.{Range, endbyte}
use sirikata.Transfer.Range.Coverage.{IsValid, AllFollow, IsSorted, start-lt-endbyte}
use sirikata.Transfer.Sparse.{DenseData, SparseData, range_of, dense_data_at, data_at}

-- The byte at an offset of the file: that of the first piece that has it.
unfoldable pub byte_at : ℕ → SparseData → Option ℕ
byte_at b [] = none
byte_at b (d ∷ s) =
    if leb d.range.start b && ltb b (endbyte d.range)
    then get_elem? d.bytes (b - d.range.start)
    else byte_at b s

abbrev pub AllFilled : SparseData → Type 0
AllFilled [] = Unit {0}
AllFilled (d ∷ s) = (length d.bytes ≡ d.range.length) × AllFilled s

-- The offset does not lie past the known bytes of a piece that goes to the end of the file.
abbrev pub IsWithin : ℕ → SparseData → Type 0
IsWithin offset [] = Unit {0}
IsWithin offset (d ∷ s) = (d.range.whole_file ≡ true → offset ≤ endbyte d.range) × IsWithin offset s

pub record DataAt (offset : ℕ) (s : SparseData) (p : Option (List ℕ)) (n : ℕ) : Type 0 where
  pub known :
      (bytes : List ℕ)
      → p ≡ some bytes
      → (0 < n)
        × (n ≡ length bytes)
        × ((i : ℕ) → i < n → byte_at (offset + i) s ≡ get_elem? bytes i)
  pub gap : p ≡ none → (i : ℕ) → i < n → byte_at (offset + i) s ≡ none
  pub next : p ≡ none → 0 < n → byte_at (offset + n) s ≢ none
  pub last : p ≡ none → n ≡ 0 → (i : ℕ) → byte_at (offset + i) s ≡ none

byte_at-below :
    (x : Range) (b : ℕ) (s : SparseData) → AllFollow range_of x s → b ≤ x.start → byte_at b s ≡ none
unfolding byte_at
byte_at-below x b [] f h = refl
byte_at-below x b (d ∷ s) f h = ground (arith, byte_at-below x b s f.1)

nothing_follows :
    (x : Range) (s : SparseData) → AllFollow range_of x s → x.whole_file ≡ true → s ≡ []
nothing_follows x [] f h = refl
nothing_follows x (d ∷ s) f h = absurd (cc (f.0.1))

pub endbyte-eq : (r : Range) → IsValid r → endbyte r ≡ r.start + r.length
unfolding endbyte
endbyte-eq r v = omega (arith, v.nonempty, v.fits)

DataAt-inside :
    (offset : ℕ) (d : DenseData) (s : SparseData)
    → IsValid d.range
    → length d.bytes ≡ d.range.length
    → d.range.start ≤ offset
    → offset < endbyte d.range
    → DataAt offset
        (d ∷ s)
        (dense_data_at d offset)
        ((d.range.length + (d.range.start + 2 ^ 64 - offset)) % 2 ^ 64)
unfolding dense_data_at byte_at
DataAt-inside offset d s v fill from to =
    let ends = endbyte-eq d.range v in
    let size : (d.range.length + (d.range.start + 2 ^ 64 - offset)) % 2 ^ 64
        ≡ endbyte d.range - offset =
      omega (arith, v.fits) in
    rw size (record {
      known = λ bytes e.
          let cut : drop (offset - d.range.start) d.bytes ≡ bytes = ground arith in
          (
            omega arith,
            omega (arith, ap length cut, length-drop (offset - d.range.start) d.bytes),
            λ i lt. ground (arith, get_elem?-drop (offset - d.range.start) i d.bytes, cut),
          );
      gap = λ e. absurd (ground arith);
      next = λ e. absurd (ground arith);
      last = λ e. absurd (ground arith);
    })

-- At the end of the known bytes of a piece that goes to the end of the file.
DataAt-end :
    (offset : ℕ) (d : DenseData)
    → IsValid d.range
    → offset ≡ endbyte d.range
    → DataAt offset
        (d ∷ [])
        (dense_data_at d offset)
        ((d.range.length + (d.range.start + 2 ^ 64 - offset)) % 2 ^ 64)
unfolding dense_data_at byte_at
DataAt-end offset d v at =
    let ends = endbyte-eq d.range v in
    let size : (d.range.length + (d.range.start + 2 ^ 64 - offset)) % 2 ^ 64 ≡ 0 =
      omega (arith, v.fits) in
    rw size (record {
      known = λ bytes e. absurd (ground arith);
      gap = λ e i lt. absurd (omega arith);
      next = λ e lt. absurd (omega arith);
      last = λ e z i. ground arith;
    })

DataAt-below :
    (offset : ℕ) (d : DenseData) (s : SparseData)
    → IsValid d.range
    → length d.bytes ≡ d.range.length
    → AllFollow range_of d.range s
    → offset < d.range.start
    → DataAt offset (d ∷ s) none (d.range.start - offset)
unfolding byte_at
DataAt-below offset d s v fill f h =
    let (x, first) = get_elem?-some d.bytes 0 (omega (arith, v.nonempty)) in
    let at : offset + (d.range.start - offset) ≡ d.range.start = omega arith in
    record {
      known = λ bytes e. absurd (cc);
      gap = λ e i lt. ground (arith, byte_at-below d.range (offset + i) s f);
      next = λ e lt. rw at (ground (arith, first, start-lt-endbyte d.range v));
      last = λ e z i. absurd (omega arith);
    }

byte_at-past :
    (b : ℕ) (d : DenseData) (s : SparseData) → endbyte d.range ≤ b → byte_at b (d ∷ s) ≡ byte_at b s
unfolding byte_at
byte_at-past b d s h = ground arith

DataAt-past :
    (offset : ℕ) (d : DenseData) (s : SparseData) {p : Option (List ℕ)} {n : ℕ}
    → endbyte d.range ≤ offset
    → DataAt offset s p n
    → DataAt offset (d ∷ s) p n
DataAt-past offset d s {p} {n} h r = record {
  known = λ bytes e. (
    (r.known bytes e).0,
    (r.known bytes e).1,
    λ i lt. byte_at-past (offset + i) d s (omega arith) ∙ (r.known bytes e).2 i lt,
  );
  gap = λ e i lt. byte_at-past (offset + i) d s (omega arith) ∙ r.gap e i lt;
  next = λ e lt. rw (byte_at-past (offset + n) d s (omega arith)) (r.next e lt);
  last = λ e z i. byte_at-past (offset + i) d s (omega arith) ∙ r.last e z i;
}

-- On a sorted file whose pieces have all their bytes, at an offset not past the known bytes of a
-- piece to the end of the file, `dataAt` tells the bytes from there to the end of a piece, or that
-- there are none up to the next piece, or that nothing more is known.
pub data_at-DataAt :
    (offset : ℕ) (s : SparseData)
    → IsSorted range_of s
    → AllFilled s
    → IsWithin offset s
    → DataAt offset s (data_at offset s).0 (data_at offset s).1
unfolding data_at byte_at
data_at-DataAt offset [] h f w = record {
  known = λ bytes e. absurd (cc);
  gap = λ e i lt. refl;
  next = λ e lt. absurd (omega arith);
  last = λ e z i. refl;
}
data_at-DataAt offset (d ∷ s) h f w =
    elim (Bool-cases
      (leb d.range.start offset && (d.range.whole_file || ltb offset (endbyte d.range)))) [
        | inl hit ↦ rw hit (elim (Bool-cases (ltb offset (endbyte d.range))) [
          | inl inside ↦ DataAt-inside offset d s h.0 f.0 (ground arith) (ltb→lt _ _ inside)
          | inr past ↦
              let whole : d.range.whole_file ≡ true = ground arith in
              rw (nothing_follows d.range s h.1 whole)
                (DataAt-end offset d h.0 (omega (arith, w.0 whole, not-ltb→le _ _ past)))
        ])
        | inr miss ↦ rw miss (elim (Bool-cases (ltb offset d.range.start)) [
          | inl below ↦ rw below (DataAt-below offset d s h.0 f.0 h.1 (ltb→lt _ _ below))
          | inr above ↦
              rw above (DataAt-past offset d s (ground arith) (data_at-DataAt offset s h.2 f.1 w.1))
        ])
      ]
