-- ===== src/Transfer/Sparse/Flatten.antt =====
-- `SparseData::flatten` advances its position before it copies a piece to it: with two pieces or
-- more it writes outside its vector.
use sirikata.Base.{
  ℕ, zero, suc, ◌+◌, ◌-◌, ◌%◌, ◌^◌, ◌≤◌, ◌<◌, ◌≡◌, ◌≢◌, refl, sym, ap, ◌∙◌, leb→le, length-append,
  length-drop, length-take, length-replicate, ◌⊎◌, inl, inr, false, not, List, [], ◌∷◌, ◌++◌,
  Option, none, some, arith, Bool-cases, Option-cases, ltb, leb, ◌==◌, ◌&&◌, ◌||◌, length, drop,
  take, get_elem?, get_elem?-some,
}
use sirikata.Transfer.Range.{Range, endbyte, make}
use sirikata.Transfer.Range.Coverage.{IsSorted}
use sirikata.Transfer.Sparse.{
  DenseData, SparseData, range_of, data_at, startbyte, last_endbyte, new_dense, overrun, write,
  piece, is_null, flatten_loop, flatten,
}
use sirikata.Transfer.Sparse.Space.{last_endbyte-lt}
use sirikata.Transfer.Sparse.Access.{byte_at, AllFilled, IsWithin, data_at-DataAt, endbyte-eq}

-- No piece goes to the end of the file.
abbrev pub AllBounded : SparseData → Type 0
AllBounded [] = Unit {0}
AllBounded (d ∷ s) = (d.range.whole_file ≡ false) × AllBounded s

pub AllBounded-IsWithin : (offset : ℕ) (s : SparseData) → AllBounded s → IsWithin offset s
AllBounded-IsWithin offset [] h = tt
AllBounded-IsWithin offset (d ∷ s) h = (λ e. absurd (cc (h.0, e)), AllBounded-IsWithin offset s h.1)

-- The last byte is known.
byte_at-last :
    (b : ℕ) (d : DenseData) (s : SparseData)
    → IsSorted range_of (d ∷ s)
    → AllFilled (d ∷ s)
    → suc b ≡ last_endbyte (d ∷ s)
    → byte_at b (d ∷ s) ≢ none
unfolding byte_at last_endbyte
byte_at-last b d [] h f e =
    let (x, found) =
      get_elem?-some d.bytes (b - d.range.start)
        (omega (arith, f.0, h.0.nonempty, endbyte-eq d.range h.0)) in
    ground (arith, found, endbyte-eq d.range h.0, h.0.nonempty)
byte_at-last b d (d' ∷ s) h f e =
    let found : (d.range.start ≤ b)
        → b < endbyte d.range
        → get_elem? d.bytes (b - d.range.start) ≢ none =
      λ from to.
        let (x, at) =
          get_elem?-some d.bytes (b - d.range.start) (omega (arith, f.0, endbyte-eq d.range h.0)) in
        ground (arith, at) in
    let later = byte_at-last b d' s h.2 f.1 e in ground (arith, found, later)

byte_at-lt : (b : ℕ) (s : SparseData) → byte_at b s ≢ none → suc b < 2 ^ 64
unfolding byte_at endbyte
byte_at-lt b [] h = absurd (h refl)
byte_at-lt b (d ∷ s) h = ground (arith, byte_at-lt b s)

length-take-all : (xs : List ℕ) → length (take (length xs) xs) ≡ length xs
length-take-all [] = refl
length-take-all (x ∷ xs) = ap suc (length-take-all xs)

length-piece :
    (p : Option (List ℕ)) (n : ℕ)
    → ((b : List ℕ) → p ≡ some b → n ≡ length b)
    → length (piece p n) ≡ n
length-piece none n h = length-replicate n 0
length-piece (some b) n h = rw (h b refl) (length-take-all b)

write-length :
    (out : List ℕ) (place : ℕ) (bytes : List ℕ)
    → (write out place bytes ≡ none)
      ⊎ ((out' : List ℕ) × (write out place bytes ≡ some out')
          × (length out' ≡ length out)
          × (place + length bytes ≤ length out))
unfolding write
write-length out place bytes = elim (Bool-cases (leb (place + length bytes) (length out))) [
  | inr no_room ↦ inl (rw no_room)
  | inl fits ↦ inr (
    take place out ++ bytes ++ drop (place + length bytes) out,
    rw fits,
    omega (
      arith,
      leb→le _ _ fits,
      length-append (take place out ++ bytes) (drop (place + length bytes) out),
      length-append (take place out) bytes,
      length-drop (place + length bytes) out,
      length-take place out,
    ),
    leb→le _ _ fits,
  )
]

-- Before the last known byte `dataAt` always gets on, and its lengths stay within 64 bits.
pub record Progress (o : ℕ) (p : Option (List ℕ)) (n : ℕ) : Type 0 where
  pub moves : 0 < n
  pub fits : o + n < 2 ^ 64
  pub size : length (piece p n) ≡ n

pub data_at-Progress :
    (o : ℕ) (d : DenseData) (s : SparseData)
    → IsSorted range_of (d ∷ s)
    → AllFilled (d ∷ s)
    → AllBounded (d ∷ s)
    → o < last_endbyte (d ∷ s)
    → Progress o (data_at o (d ∷ s)).0 (data_at o (d ∷ s)).1
data_at-Progress o d s h f w lt =
    let r = data_at-DataAt o (d ∷ s) h f (AllBounded-IsWithin o (d ∷ s) w) in
    let b = last_endbyte (d ∷ s) - 1 in
    let last = byte_at-last b d s h f (omega arith) in
    let at : o + (b - o) ≡ b = omega arith in
    let null = Option-cases (data_at o (d ∷ s)).0 in
    elim null [
      | inl e ↦ elim (Bool-cases ((data_at o (d ∷ s)).1 == 0)) [
        | inl z ↦
            absurd (last (ap (λ t. byte_at t (d ∷ s)) (sym at) ∙ r.last e (ground arith) (b - o)))
        | inr nz ↦
            let moves : 0 < (data_at o (d ∷ s)).1 = ground arith in
            record {
              moves = moves;
              fits = omega (arith, byte_at-lt _ (d ∷ s) (r.next e moves));
              size = length-piece _ _ (λ b q. (r.known b q).1);
            }
      ]
      | inr (bytes, e) ↦
          let n = (data_at o (d ∷ s)).1 in
          let (moves, size, same) = r.known bytes e in
          let (x, last_byte) = get_elem?-some bytes (n - 1) (omega arith) in
          let is_known : byte_at (o + (n - 1)) (d ∷ s) ≢ none =
            λ q. cc (q, same (n - 1) (omega arith), last_byte) in
          record {
            moves = moves;
            fits = omega (arith, byte_at-lt (o + (n - 1)) (d ∷ s) is_known);
            size = length-piece _ _ (λ b q. (r.known b q).1);
          }
    ]

flatten_loop-overrun :
    (fuel start : ℕ) (d : DenseData) (s : SparseData) (r : Range) (out : List ℕ)
    → IsSorted range_of (d ∷ s)
    → AllFilled (d ∷ s)
    → AllBounded (d ∷ s)
    → r.length + d.range.start ≡ last_endbyte (d ∷ s)
    → length out ≡ r.length
    → start < r.length
    → r.length < fuel + start
    → flatten_loop fuel (d ∷ s) r start out ≡ overrun
unfolding flatten_loop startbyte
flatten_loop-overrun zero start d s r out h f w len size lt fuel_ok = absurd (omega arith)
flatten_loop-overrun (suc fuel) start d s r out h f w len size lt fuel_ok =
    let o = start + d.range.start in
    let at : (start + d.range.start) % 2 ^ 64 ≡ o = omega (arith, last_endbyte-lt (d ∷ s)) in
    let step = data_at-Progress o d s h f w (omega arith) in
    let n = (data_at o (d ∷ s)).1 in
    let bytes = piece (data_at o (d ∷ s)).0 n in
    let start' : (start + n) % 2 ^ 64 ≡ start + n = omega (arith, step.fits) in
    let next : (start + (data_at ((start + d.range.start) % 2 ^ 64) (d ∷ s)).1) % 2 ^ 64
        ≡ start + n =
      ap (λ t. (start + (data_at t (d ∷ s)).1) % 2 ^ 64) at ∙ start' in
    let goes_on : (not (ltb start r.length) || (is_null (data_at o (d ∷ s)).0 && n == 0)) ≡ false =
      ground (arith, step.moves) in
    rw (at, start', goes_on)
      (elim (write-length out (start + n) bytes) [
        | inl none_ ↦ rw none_ refl
        | inr (out', e, size', room) ↦ rw e (
            ap (λ t. flatten_loop fuel (d ∷ s) r t out') next
            ∙ flatten_loop-overrun fuel (start + n) d s r out' h f w len (size' ∙ size)
                (omega (arith, step.moves, step.size)) (omega (arith, step.moves)))
      ])

-- Of a sorted file of two bounded pieces or more that have all their bytes and end behind the
-- start, with more fuel than its last byte, `flatten` never makes a file: it writes outside its
-- vector.
pub flatten-overrun :
    (fuel : ℕ) (d e : DenseData) (s : SparseData)
    → IsSorted range_of (d ∷ e ∷ s)
    → AllFilled (d ∷ e ∷ s)
    → AllBounded (d ∷ e ∷ s)
    → d.range.start < last_endbyte (d ∷ e ∷ s)
    → last_endbyte (d ∷ e ∷ s) < fuel
    → flatten fuel (d ∷ e ∷ s) ≡ overrun
unfolding flatten new_dense startbyte make
flatten-overrun fuel d e s h f w lt enough =
    flatten_loop-overrun fuel 0 d (e ∷ s) _ _ h f w (omega (arith, last_endbyte-lt (d ∷ e ∷ s)))
      (length-replicate _ 0) (omega (arith, last_endbyte-lt (d ∷ e ∷ s)))
      (omega (arith, last_endbyte-lt (d ∷ e ∷ s)))
