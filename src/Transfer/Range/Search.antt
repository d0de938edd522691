-- ===== src/Transfer/Range/Search.antt =====
-- The first loop of `addToList`: what it knows of the ranges that it passed and of those ahead.
use sirikata.Base.{
  ℕ, ◌≤◌, ◌<◌, ◌≡◌, refl, ap, ◌∙◌, ltb→lt, not-ltb→le, leb→le, not-leb→lt, ◌⊎◌, inl, inr, Bool,
  true, false, List, [], ◌∷◌, ◌++◌, arith, ltb, leb, Bool-cases,
}
use sirikata.Transfer.Range.{Range, endbyte, Scan, scan, raise, set_if}
use sirikata.Transfer.Range.Coverage.{Covered, AllFollow, IsSorted}

module _ {A : Type 0} (range : A → Range) where
  -- What the first loop knows of the ranges that it passed.
  abbrev pub Passed : ℕ → ℕ → Bool → List A → Type 0
  Passed s m e [] = Unit {0}
  Passed s m e (x ∷ xs) =
      ((range x).start < s)
      × (endbyte (range x) ≤ m)
      × (e ≡ false → (range x).whole_file ≡ false)
      × Passed s m e xs

  -- What it knows of the others: one that starts at the same byte is also counted.
  abbrev pub Ahead : ℕ → ℕ → Bool → List A → Type 0
  Ahead s m e [] = Unit {0}
  Ahead s m e (x ∷ xs) =
      (s ≤ (range x).start)
      × ((range x).start ≡ s → endbyte (range x) ≤ m)
      × ((range x).start ≡ s → e ≡ false → (range x).whole_file ≡ false)
      × Ahead s m e xs

  Ahead-later :
      (s m : ℕ) (e : Bool) (x : Range) (xs : List A)
      → s ≤ x.start
      → AllFollow range x xs
      → Ahead s m e xs
  Ahead-later s m e x [] h f = tt
  Ahead-later s m e x (y ∷ ys) h f = (
    omega arith,
    λ q. absurd (omega arith),
    λ q _. absurd (omega arith),
    Ahead-later s m e x ys h f.1,
  )

  pub record Scanned (s m0 : ℕ) (e0 : Bool) (xs : List A) (r : Scan range) : Type 0 where
    pub split : r.before ++ r.after ≡ xs
    pub passed : Passed s r.max_end r.includes_eof r.before
    pub ahead : Ahead s r.max_end r.includes_eof r.after
    grows : m0 ≤ r.max_end
    pub keeps : e0 ≡ true → r.includes_eof ≡ true
    pub eof_found : r.includes_eof ≡ true → (e0 ≡ true) ⊎ ((b : ℕ) → s ≤ b → Covered range xs b)
    pub end_found : (r.max_end ≡ m0) ⊎ ((b : ℕ) → s ≤ b → b < r.max_end → Covered range xs b)

  -- What taking a range into account does to the greatest end and to the flag.
  pub record Counted (m0 : ℕ) (e0 : Bool) (x : Range) (m : ℕ) (e : Bool) : Type 0 where
    grows : m0 ≤ m
    reaches : endbyte x ≤ m
    end_from : (m ≡ m0) ⊎ (m ≡ endbyte x)
    eof_from : ((e ≡ e0) × (x.whole_file ≡ false)) ⊎ ((e ≡ true) × (x.whole_file ≡ true))

  raise-Counted :
      (m0 : ℕ) (e0 : Bool) (x : Range)
      → Counted m0 e0 x (raise m0 (endbyte x)) (set_if x.whole_file e0)
  raise-Counted m0 e0 x = record {
    grows = ground arith;
    reaches = ground arith;
    end_from = ground arith;
    eof_from = ground arith;
  }

  stop_before :
      (s m0 : ℕ) (e0 : Bool) (x : A) (xs : List A)
      → AllFollow range (range x) xs
      → s < (range x).start
      → Scanned s m0 e0
          (x ∷ xs)
          (record { before = []; after = x ∷ xs; max_end = m0; includes_eof = e0 })
  stop_before s m0 e0 x xs f h = record {
    split = refl;
    passed = tt;
    ahead = (
      omega arith,
      λ q. absurd (omega arith),
      λ q _. absurd (omega arith),
      Ahead-later s m0 e0 (range x) xs (omega arith) f,
    );
    grows = omega arith;
    keeps = λ q. q;
    eof_found = λ q. inl q;
    end_found = inl refl;
  }

  stop_at :
      (s m0 : ℕ) (e0 : Bool) (x : A) (xs : List A) {m : ℕ} {e : Bool}
      → Counted m0 e0 (range x) m e
      → AllFollow range (range x) xs
      → (range x).start ≡ s
      → Scanned s m0 e0
          (x ∷ xs)
          (record { before = []; after = x ∷ xs; max_end = m; includes_eof = e })
  stop_at s m0 e0 x xs {m} {e} c f h = record {
    split = refl;
    passed = tt;
    ahead = (
      omega arith,
      λ q. c.reaches,
      λ q o. ground (arith, c.eof_from),
      Ahead-later s m e (range x) xs (omega arith) f,
    );
    grows = c.grows;
    keeps = λ q. ground (arith, c.eof_from);
    eof_found = λ q. elim c.eof_from [
      | inl same ↦ inl (ground arith)
      | inr whole ↦ inr (λ b le. inl (omega arith, inl whole.1))
    ];
    end_found = elim c.end_from [
      | inl same ↦ inl same
      | inr ends ↦ inr (λ b le lt. inl (omega arith, inr (omega arith)))
    ];
  }

  pass :
      (s m0 : ℕ) (e0 : Bool) (x : A) (xs : List A) {m : ℕ} {e : Bool} (r : Scan range)
      → Counted m0 e0 (range x) m e
      → (range x).start < s
      → Scanned s m e xs r
      → Scanned s m0 e0 (x ∷ xs) (record r { before = x ∷ r.before })
  pass s m0 e0 x xs {m} {e} r c h rest = record {
    split = ap (◌∷◌ x) rest.split;
    passed = (
      h,
      omega (arith, c.reaches, rest.grows),
      λ o. ground (arith, c.eof_from, rest.keeps),
      rest.passed,
    );
    ahead = rest.ahead;
    grows = omega (arith, c.grows, rest.grows);
    keeps = λ q. rest.keeps (ground (arith, c.eof_from));
    eof_found = λ q. elim (rest.eof_found q) [
      | inl set ↦ elim c.eof_from [
        | inl same ↦ inl (ground arith)
        | inr whole ↦ inr (λ b le. inl (omega arith, inl whole.1))
      ]
      | inr covered ↦ inr (λ b le. inr (covered b le))
    ];
    end_found = elim rest.end_found [
      | inl same ↦ elim c.end_from [
        | inl same' ↦ inl (same ∙ same')
        | inr ends ↦ inr (λ b le lt. inl (omega arith, inr (omega arith)))
      ]
      | inr covered ↦ inr (λ b le lt. inr (covered b le lt))
    ];
  }

  pub scan-Scanned :
      (s m0 : ℕ) (e0 : Bool) (xs : List A)
      → IsSorted range xs
      → Scanned s m0 e0 xs (scan range s m0 e0 xs)
  unfolding scan
  scan-Scanned s m0 e0 [] h = record {
    split = refl;
    passed = tt;
    ahead = tt;
    grows = omega arith;
    keeps = λ q. q;
    eof_found = λ q. inl q;
    end_found = inl refl;
  }
  scan-Scanned s m0 e0 (x ∷ xs) h =
      let c = raise-Counted m0 e0 (range x) in
      elim (Bool-cases (ltb s (range x).start)) [
        | inl above ↦ rw above (stop_before s m0 e0 x xs h.1 (ltb→lt _ _ above))
        | inr low ↦ rw low (elim (Bool-cases (leb s (range x).start)) [
          | inl at ↦
              rw at (stop_at s m0 e0 x xs c h.1 (omega (arith, leb→le _ _ at, not-ltb→le _ _ low)))
          | inr under ↦ rw under (
              pass s m0 e0 x xs _ c (not-leb→lt _ _ under) (
                scan-Scanned s (raise m0 (endbyte (range x))) (set_if (range x).whole_file e0) xs
                  h.2))
        ])
      ]
