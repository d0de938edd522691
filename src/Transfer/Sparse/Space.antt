-- ===== src/Transfer/Sparse/Space.antt =====
-- The space that a sparse file takes.
use sirikata.Base.{
  ℕ, ◌+◌, ◌%◌, ◌^◌, ◌≤◌, ◌<◌, ◌≡◌, refl, ap, ◌∙◌, inl, inr, ◌↔◌, Bool, true, false, [], ◌∷◌, ◌++◌,
  arith,
}
use sirikata.Transfer.Range.{
  Range, scan, erase_covered, add_to_list, endbyte, raise, set_if, make, by_bounds,
}
use sirikata.Transfer.Range.Coverage.{IsValid, Covered, IsSorted, is_contained_by_iff}
use sirikata.Transfer.Sparse.{
  DenseData, SparseData, range_of, add_valid_data, space_from, space_used, startbyte, last_endbyte,
  contiguous,
}

abbrev pub total_length : SparseData → ℕ
total_length [] = 0
total_length (d ∷ sparse) = d.range.length + total_length sparse

space_from-total :
    (n : ℕ) (s : SparseData) → space_from (n % 2 ^ 64) s ≡ (n + total_length s) % 2 ^ 64
unfolding space_from
space_from-total n [] = omega arith
space_from-total n (d ∷ s) =
    ap (λ t. space_from t s) (omega arith) ∙ space_from-total (n + d.range.length) s ∙ omega arith

-- `getSpaceUsed` is the sum of the lengths, in 64 bits.
pub space_used-total : (s : SparseData) → space_used s ≡ total_length s % 2 ^ 64
unfolding space_used
space_used-total s = space_from-total 0 s ∙ omega arith

total-append : (s t : SparseData) → total_length (s ++ t) ≡ total_length s + total_length t
total-append [] t = omega arith
total-append (d ∷ s) t = omega (arith, total-append s t)

total-erase :
    (r : Range) (s : SparseData) → total_length (erase_covered range_of r s) ≤ total_length s
unfolding erase_covered
total-erase r [] = omega arith
total-erase r (d ∷ s) = ground (arith, total-erase r s)

total-scan :
    (start m : ℕ) (e : Bool) (s : SparseData)
    → total_length (scan range_of start m e s).before
        + total_length (scan range_of start m e s).after
      ≡ total_length s
unfolding scan
total-scan start m e [] = omega arith
total-scan start m e (d ∷ s) =
    ground (arith, total-scan start (raise m (endbyte d.range)) (set_if d.range.whole_file e) s)

-- A piece adds at most its own length to what a sparse file holds.
pub add_valid_data-total :
    (d : DenseData) (s : SparseData)
    → total_length (add_valid_data d s) ≤ total_length s + d.range.length
unfolding add_valid_data add_to_list
add_valid_data-total d s =
    let r = d.range in
    let found = scan range_of r.start r.start false s in
    ground (
      arith,
      total-scan r.start r.start false s,
      total-append found.before (d ∷ erase_covered range_of r found.after),
      total-erase r found.after,
    )

pub last_endbyte-lt : (s : SparseData) → last_endbyte s < 2 ^ 64
unfolding last_endbyte endbyte
last_endbyte-lt [] = omega arith
last_endbyte-lt (d ∷ []) = omega arith
last_endbyte-lt (d ∷ e ∷ s) = last_endbyte-lt (e ∷ s)

-- The range from one byte to another.
make-by_bounds :
    (start end : ℕ)
    → start < end
    → end < 2 ^ 64
    → IsValid (make start end by_bounds false) × (endbyte (make start end by_bounds false) ≡ end)
unfolding make endbyte
make-by_bounds start end h k = (record { nonempty = omega arith; fits = omega arith }, omega arith)

make-start : (start end : ℕ) → (make start end by_bounds false).start ≡ start
unfolding make
make-start start end = refl

make-not-whole : (start end : ℕ) → ¬ ((make start end by_bounds false).whole_file ≡ true)
unfolding make
make-not-whole start end e = cc

-- A sorted file of at least one piece, which ends behind its start, is contiguous exactly if every
-- byte from its first to its last is known.
pub contiguous_iff :
    (d : DenseData) (s : SparseData)
    → IsSorted range_of (d ∷ s)
    → d.range.start < last_endbyte (d ∷ s)
    → (contiguous (d ∷ s) ≡ true)
      ↔ ((b : ℕ) → d.range.start ≤ b → b < last_endbyte (d ∷ s) → Covered range_of (d ∷ s) b)
unfolding contiguous startbyte
contiguous_iff d s h lt =
    let span = make d.range.start (last_endbyte (d ∷ s)) by_bounds false in
    let (valid, ends) =
      make-by_bounds d.range.start (last_endbyte (d ∷ s)) lt (last_endbyte-lt (d ∷ s)) in
    let starts = make-start d.range.start (last_endbyte (d ∷ s)) in
    let (sound, complete) = is_contained_by_iff range_of span (d ∷ s) valid h in
    (
      λ e b from to. sound e b (omega arith, inr (omega arith)),
      λ all. complete (λ b c. all b (omega (arith, c.0)) (elim c.1 [
        | inl whole ↦ absurd (make-not-whole d.range.start (last_endbyte (d ∷ s)) whole)
        | inr under ↦ omega arith
      ])),
    )
