-- ===== src/Transfer/Sparse/Fingerprint.antt =====
-- `SparseData::computeFingerprint`: what is hashed depends on the bytes alone, not on the pieces.
use sirikata.Base.{
  ℕ, zero, suc, ◌+◌, ◌-◌, ◌%◌, ◌^◌, ◌≤◌, ◌<◌, ◌≡◌, ◌≢◌, refl, sym, ap, ◌∙◌, inl, inr, true, false,
  ◌&&◌, List, [], ◌∷◌, ◌++◌, Option, none, some, arith, ◌==◌, ltb, ltb→lt, not-ltb→le, length, take,
  replicate, get_elem?, get_elem?-some, append-nil, append_assoc, Option-cases, Bool-cases,
}
use sirikata.Transfer.Range.{endbyte}
use sirikata.Transfer.Range.Coverage.{IsSorted}
use sirikata.Transfer.Sparse.{
  DenseData, SparseData, range_of, data_at, last_endbyte, piece, is_null, hash_loop,
  compute_fingerprint,
}
use sirikata.Transfer.Sparse.Space.{last_endbyte-lt}
use sirikata.Transfer.Sparse.Access.{byte_at, AllFilled, DataAt, data_at-DataAt}
use sirikata.Transfer.Sparse.Flatten.{AllBounded, AllBounded-IsWithin, data_at-Progress}

abbrev or_zero : Option ℕ → ℕ
or_zero none = 0
or_zero (some x) = x

-- The bytes of the file from an offset on, with zeros for those that are not known.
abbrev pub image : ℕ → ℕ → SparseData → List ℕ
image o zero s = []
image o (suc n) s = or_zero (byte_at o s) ∷ image (suc o) n s

image-append : (o n k : ℕ) (s : SparseData) → image o (n + k) s ≡ image o n s ++ image (o + n) k s
image-append o zero k s =
    let right : k ≡ 0 + k = omega arith in
    let place : o ≡ o + 0 = omega arith in
    ap (λ t. image o t s) (sym right) ∙ ap (λ t. image t k s) place
image-append o (suc n) k s =
    let total : suc n + k ≡ suc (n + k) = omega arith in
    let place : suc o + n ≡ o + suc n = omega arith in
    ap (λ t. image o t s) total
    ∙ ap (◌∷◌ (or_zero (byte_at o s)))
        (image-append (suc o) n k s ∙ ap (λ t. image (suc o) n s ++ image t k s) place)

-- Known from one byte on.
shift :
    (n o : ℕ) (s : SparseData) (f : ℕ → Option ℕ)
    → ((i : ℕ) → i < suc n → byte_at (o + i) s ≡ f i)
    → (byte_at o s ≡ f 0) × ((i : ℕ) → i < n → byte_at (suc o + i) s ≡ f (suc i))
shift n o s f h =
    let here : o ≡ o + 0 = omega arith in
    (
      ap (λ t. byte_at t s) here ∙ h 0 (omega arith),
      λ i lt.
          let place : suc o + i ≡ o + suc i = omega arith in
          ap (λ t. byte_at t s) place ∙ h (suc i) (omega arith),
    )

zeros-image :
    (n o : ℕ) (s : SparseData)
    → ((i : ℕ) → i < n → byte_at (o + i) s ≡ none)
    → replicate n 0 ≡ image o n s
zeros-image zero o s h = refl
zeros-image (suc n) o s h =
    let (here, later) = shift n o s (λ i. none) h in
    λ i. or_zero (sym here i) ∷ zeros-image n (suc o) s later i

bytes-image :
    (bytes : List ℕ) (o : ℕ) (s : SparseData)
    → ((i : ℕ) → i < length bytes → byte_at (o + i) s ≡ get_elem? bytes i)
    → take (length bytes) bytes ≡ image o (length bytes) s
bytes-image [] o s h = refl
bytes-image (x ∷ bytes) o s h =
    let (here, later) = shift (length bytes) o s (get_elem? (x ∷ bytes)) h in
    λ i. or_zero (sym here i) ∷ bytes-image bytes (suc o) s later i

piece-image :
    (o n : ℕ) (p : Option (List ℕ)) (s : SparseData) → DataAt o s p n → piece p n ≡ image o n s
piece-image o n none s r = zeros-image n o s (r.gap refl)
piece-image o n (some bytes) s r =
    let (_, size, same) = r.known bytes refl in
    ap (λ t. take t bytes) size
    ∙ bytes-image bytes o s (λ i lt. same i (omega (arith, size)))
    ∙ ap (λ t. image o t s) (sym size)

endbyte-le-last :
    (d : DenseData) (s : SparseData)
    → IsSorted range_of (d ∷ s)
    → AllBounded (d ∷ s)
    → endbyte d.range ≤ last_endbyte (d ∷ s)
unfolding last_endbyte
endbyte-le-last d [] h b = omega arith
endbyte-le-last d (e ∷ s) h b = ground (arith, endbyte-le-last e s h.2 b.1, h.1.0, b.1.0)

-- Behind the last byte nothing is known.
byte_at-end :
    (o : ℕ) (s : SparseData)
    → IsSorted range_of s
    → AllBounded s
    → last_endbyte s ≤ o
    → byte_at o s ≡ none
unfolding byte_at last_endbyte
byte_at-end o [] h b le = refl
byte_at-end o (d ∷ []) h b le = ground arith
byte_at-end o (d ∷ e ∷ s) h b le =
    ground (arith, endbyte-le-last d (e ∷ s) h b, byte_at-end o (e ∷ s) h.2 b.1 le)

-- Before the end `dataAt` gets on, and not behind the end; at the end it tells that all is done.
pub record Round (o e : ℕ) (s : SparseData) (p : Option (List ℕ)) (n : ℕ) : Type 0 where
  pub moves : o < e → 0 < n
  pub within : o + n ≤ e
  pub done : o ≡ e → (is_null p ≡ true) × (n ≡ 0)
  pub fed : piece p n ≡ image o n s

data_at-moves :
    (o : ℕ) (s : SparseData)
    → IsSorted range_of s
    → AllFilled s
    → AllBounded s
    → o < last_endbyte s
    → 0 < (data_at o s).1
unfolding last_endbyte
data_at-moves o [] h f b lt = absurd (omega arith)
data_at-moves o (d ∷ s) h f b lt = (data_at-Progress o d s h f b lt).moves

data_at-Round :
    (o : ℕ) (s : SparseData)
    → IsSorted range_of s
    → AllFilled s
    → AllBounded s
    → o ≤ last_endbyte s
    → Round o (last_endbyte s) s (data_at o s).0 (data_at o s).1
data_at-Round o s h f b le =
    let r = data_at-DataAt o s h f (AllBounded-IsWithin o s b) in
    let end = last_endbyte s in
    let n = (data_at o s).1 in
    let below : (i : ℕ) → byte_at i s ≢ none → i < end = λ i known. elim (Bool-cases (ltb i end)) [
      | inl lt ↦ ltb→lt _ _ lt
      | inr ge ↦ absurd (known (byte_at-end i s h b (not-ltb→le _ _ ge)))
    ] in
    let moves = data_at-moves o s h f b in
    let fed = piece-image o n (data_at o s).0 s r in
    elim (Option-cases (data_at o s).0) [
      | inl e ↦
          let next : 0 < n → o + n < end = λ lt. below (o + n) (r.next e lt) in
          record {
            moves = moves;
            within = ground (arith, next);
            done = λ at. (ap is_null e, ground (arith, next));
            fed = fed;
          }
      | inr (bytes, e) ↦
          let (some_byte, size, same) = r.known bytes e in
          let (x, last) = get_elem?-some bytes (n - 1) (omega arith) in
          let reach : o + (n - 1) < end =
            below (o + (n - 1)) (λ q. cc (q, same (n - 1) (omega arith), last)) in
          record {
            moves = moves;
            within = omega arith;
            done = λ at. absurd (omega arith);
            fed = fed;
          }
    ]

hash_loop-image :
    (fuel o : ℕ) (s : SparseData) (context : List ℕ)
    → IsSorted range_of s
    → AllFilled s
    → AllBounded s
    → o ≤ last_endbyte s
    → last_endbyte s < fuel + o
    → hash_loop fuel s o context ≡ some (context ++ image o (last_endbyte s - o) s)
unfolding hash_loop
hash_loop-image zero o s context h f b le enough = absurd (omega arith)
hash_loop-image (suc fuel) o s context h f b le enough =
    let end = last_endbyte s in
    let n = (data_at o s).1 in
    let r = data_at-Round o s h f b le in
    elim (Bool-cases (ltb o end)) [
      | inr ge ↦
          let at : o ≡ end = omega (arith, not-ltb→le _ _ ge) in
          let rest : end - o ≡ 0 = omega arith in
          let stop : (is_null (data_at o s).0 && n == 0) ≡ true = ground (arith, r.done at) in
          rw stop (ap some (sym (append-nil context) ∙ ap (λ t. context ++ image o t s) (sym rest)))
      | inl lt ↦
          let moves = r.moves (ltb→lt _ _ lt) in
          let goes_on : (is_null (data_at o s).0 && n == 0) ≡ false = ground (arith, moves) in
          let exact : (o + n) % 2 ^ 64 ≡ o + n = omega (arith, r.within, last_endbyte-lt s) in
          let split : n + (end - (o + n)) ≡ end - o = omega (arith, r.within) in
          rw goes_on (
            ap (λ t. hash_loop fuel s t (context ++ piece (data_at o s).0 n)) exact
            ∙ hash_loop-image fuel (o + n) s (context ++ piece (data_at o s).0 n) h f b r.within
                (omega (arith, moves))
            ∙ ap some (
                append_assoc context (piece (data_at o s).0 n) (image (o + n) (end - (o + n)) s)
                ∙ ap (◌++◌ context) (
                    ap (λ t. t ++ image (o + n) (end - (o + n)) s) r.fed
                    ∙ sym (image-append o n (end - (o + n)) s)
                    ∙ ap (λ t. image o t s) split)))
    ]

-- The fingerprint of a sorted file of bounded pieces that have all their bytes, with more fuel than
-- its last byte, is the hash of its bytes from the first to the last known one, with zeros for
-- those that are not known: however the bytes are cut into pieces, it is the same.
pub compute_fingerprint-image :
    (sha256 : List ℕ → ℕ) (fuel : ℕ) (s : SparseData)
    → IsSorted range_of s
    → AllFilled s
    → AllBounded s
    → last_endbyte s < fuel
    → compute_fingerprint sha256 fuel s ≡ some (sha256 (image 0 (last_endbyte s) s))
unfolding compute_fingerprint
compute_fingerprint-image sha256 fuel s h f b enough =
    let whole : last_endbyte s - 0 ≡ last_endbyte s = omega arith in
    rw (hash_loop-image fuel 0 s [] h f b (omega arith) (omega arith), compute_fingerprint)
      (ap (λ t. some (sha256 (image 0 t s))) whole)
