-- ===== src/Transfer/Uri/Search.antt =====
-- Characters and where they are found in a string (libcore/src/transfer/URI.hpp).
use sirikata.Base.{
  ℕ, ◌+◌, ◌≤◌, ◌<◌, ◌≡◌, refl, sym, ap, ◌∙◌, inl, inr, false, none, some, [], ◌∷◌, ◌++◌, ◌==◌,
  length, length-append, drop-append, take-append, arith, append_assoc, Option-cases, take_all, ◌⊎◌,
}
use sirikata.Transfer.Uri.{Text, npos, index_of, last_index_of, find, rfind, char_at}

abbrev pub Lacks : ℕ → Text → Type 0
Lacks c [] = Unit {0}
Lacks c (x ∷ xs) = ((x == c) ≡ false) × Lacks c xs

pub Lacks-append : (c : ℕ) (xs ys : Text) → Lacks c xs → Lacks c ys → Lacks c (xs ++ ys)
Lacks-append c [] ys h k = k
Lacks-append c (x ∷ xs) ys h k = (h.0, Lacks-append c xs ys h.1 k)

index_of-append : (c : ℕ) (xs ys : Text) → Lacks c xs → index_of c (xs ++ c ∷ ys) ≡ some (length xs)
index_of-append c [] ys h = ground arith
index_of-append c (x ∷ xs) ys h = ground (arith, index_of-append c xs ys h.1)

last_index_of-Lacks : (c : ℕ) (ys : Text) → Lacks c ys → last_index_of c ys ≡ none
last_index_of-Lacks c [] h = refl
last_index_of-Lacks c (y ∷ ys) h = ground (arith, last_index_of-Lacks c ys h.1)

last_index_of-append :
    (c : ℕ) (xs ys : Text) → Lacks c ys → last_index_of c (xs ++ ys) ≡ last_index_of c xs
last_index_of-append c [] ys h = last_index_of-Lacks c ys h
last_index_of-append c (x ∷ xs) ys h = ground (arith, last_index_of-append c xs ys h)

last_index_of_found :
    (c : ℕ) (xs ys : Text) → Lacks c ys → last_index_of c (xs ++ c ∷ ys) ≡ some (length xs)
last_index_of_found c [] ys h = ground (arith, last_index_of-Lacks c ys h)
last_index_of_found c (x ∷ xs) ys h = ground (arith, last_index_of_found c xs ys h)

last_index_of_bound : (c : ℕ) (xs : Text) (i : ℕ) → last_index_of c xs ≡ some i → i < length xs
last_index_of_bound c [] i e = absurd (ground arith)
last_index_of_bound c (x ∷ xs) i e = elim (Option-cases (last_index_of c xs)) [
  | inl lacks ↦ ground arith
  | inr (j, found) ↦ ground (arith, last_index_of_bound c xs j found)
]

-- The first `c` behind the first part.
pub find-append :
    (c : ℕ) (xs ys zs : Text)
    → Lacks c ys
    → find c (xs ++ (ys ++ c ∷ zs)) (length xs) ≡ length xs + length ys
unfolding find
find-append c xs ys zs h = rw (find, drop-append xs (ys ++ c ∷ zs), index_of-append c ys zs h) refl

-- The last `c` of the first part, as the second has none.
pub rfind-append :
    (c : ℕ) (xs ys zs : Text)
    → Lacks c ys
    → rfind c ((xs ++ c ∷ ys) ++ zs) (length xs + length ys) ≡ length xs
unfolding rfind
rfind-append c xs ys zs h =
    let e : length xs + length ys + 1 ≡ length (xs ++ c ∷ ys) =
      omega (arith, length-append xs (c ∷ ys)) in
    rw (rfind, e, take-append (xs ++ c ∷ ys) zs, last_index_of_found c xs ys h) refl

-- The last `c` of a whole string.
pub rfind_last :
    (c : ℕ) (xs ys : Text)
    → Lacks c ys
    → length (xs ++ c ∷ ys) ≤ npos
    → rfind c (xs ++ c ∷ ys) npos ≡ length xs
unfolding rfind
rfind_last c xs ys h le =
    rw
      (rfind, take_all (npos + 1) (xs ++ c ∷ ys) (omega (arith, le)), last_index_of_found c xs ys h)
      refl

-- Up to a `d`, where what stands before the `d` has no `c`, it is found in the first part or
-- nowhere.
pub rfind_before :
    (c d : ℕ) (xs ys zs : Text)
    → Lacks c ys
    → (d == c) ≡ false
    → (let at = rfind c ((xs ++ ys) ++ d ∷ zs) (length xs + length ys) in
        (at < length xs) ⊎ (at ≡ npos))
unfolding rfind
rfind_before c d xs ys zs h other =
    let e : length xs + length ys + 1 ≡ length (xs ++ (ys ++ d ∷ [])) =
      omega (arith, length-append xs (ys ++ d ∷ []), length-append ys (d ∷ [])) in
    let shape : (xs ++ ys) ++ d ∷ zs ≡ (xs ++ (ys ++ d ∷ [])) ++ zs =
      append_assoc xs ys (d ∷ zs)
      ∙ ap (λ t. xs ++ t) (sym (append_assoc ys (d ∷ []) zs))
      ∙ sym (append_assoc xs (ys ++ d ∷ []) zs) in
    rw
      (
        rfind,
        e,
        shape,
        take-append (xs ++ (ys ++ d ∷ [])) zs,
        last_index_of-append c xs (ys ++ d ∷ []) (Lacks-append c ys (d ∷ []) h (other, tt)),
      )
      (elim (Option-cases (last_index_of c xs)) [
        | inl lacks ↦ inr (ground arith)
        | inr (i, found) ↦ inl (ground (arith, last_index_of_bound c xs i found))
      ])

pub char_at-append : (c : ℕ) (xs ys : Text) → char_at (length xs) (xs ++ c ∷ ys) ≡ c
unfolding char_at
char_at-append c [] ys = refl
char_at-append c (x ∷ xs) ys = char_at-append c xs ys
