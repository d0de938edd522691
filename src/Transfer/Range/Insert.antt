-- ===== src/Transfer/Range/Insert.antt =====
-- `addToList` keeps a list sorted, loses no byte and adds exactly the bytes of the new range.
use sirikata.Base.{
  ℕ, ◌≤◌, ◌<◌, ◌≡◌, refl, sym, subst, lt→not-leb, ◌⊎◌, inl, inr, ◌↔◌, Bool, true, false, not, ◌&&◌,
  ◌||◌, List, [], ◌∷◌, ◌++◌, arith, ltb, ◌==◌, Bool-cases,
}
use sirikata.Transfer.Range.{Range, endbyte, Scan, scan, erase_covered, place, add_to_list}
use sirikata.Transfer.Range.Coverage.{
  Covers, IsValid, start-lt-endbyte, Follows, Covered, AllFollow, IsSorted,
}
use sirikata.Transfer.Range.Search.{Passed, Ahead, Scanned, scan-Scanned}

module _ {A : Type 0} (range : A → Range) where
  Covered-append :
      (b : ℕ) (xs ys : List A)
      → Covered range (xs ++ ys) b ↔ (Covered range xs b ⊎ Covered range ys b)
  Covered-append b [] ys = (λ c. inr c, λ c. elim c [ inl d ↦ absurd d | inr d ↦ d ])
  Covered-append b (x ∷ xs) ys = (
    λ c. ground (arith, (Covered-append b xs ys).0),
    λ c. ground (arith, (Covered-append b xs ys).1),
  )

  module _ (r : Range) where
    Covered-erased :
        (b : ℕ) (xs : List A) → Covered range (erase_covered range r xs) b → Covered range xs b
    unfolding erase_covered
    Covered-erased b [] c = c
    Covered-erased b (x ∷ xs) c = ground (arith, Covered-erased b xs)

    -- What is erased is covered by the new range.
    erased-Covered :
        (b m : ℕ) (e : Bool) (xs : List A)
        → Ahead range r.start m e xs
        → Covered range xs b
        → Covers r b ⊎ Covered range (erase_covered range r xs) b
    unfolding erase_covered
    erased-Covered b m e [] a c = inr c
    erased-Covered b m e (x ∷ xs) a c = ground (arith, erased-Covered b m e xs)

    AllFollow-erased :
        (y : Range) (xs : List A)
        → AllFollow range y xs
        → AllFollow range y (erase_covered range r xs)
    unfolding erase_covered
    AllFollow-erased y [] f = tt
    AllFollow-erased y (x ∷ xs) f = ground (arith, AllFollow-erased y xs f.1)

    IsSorted-erased : (xs : List A) → IsSorted range xs → IsSorted range (erase_covered range r xs)
    unfolding erase_covered
    IsSorted-erased [] h = tt
    IsSorted-erased (x ∷ xs) h =
        ground (arith, IsSorted-erased xs h.2, AllFollow-erased (range x) xs h.1)

    erased-AllFollow :
        (m : ℕ) (xs : List A)
        → (r.whole_file ≡ true) ⊎ (m ≤ endbyte r)
        → Ahead range r.start m false xs
        → AllFollow range r (erase_covered range r xs)
    unfolding erase_covered
    erased-AllFollow m [] h a = tt
    erased-AllFollow m (x ∷ xs) h (from, reach, open_, rest) =
        ground (arith, erased-AllFollow m xs h rest, reach, open_)

  module _ (d : A) where
    AllFollow-insert :
        (y : A) (before after : List A)
        → Follows (range y) (range d)
        → AllFollow range (range y) (before ++ after)
        → AllFollow range (range y) (before ++ d ∷ erase_covered range (range d) after)
    AllFollow-insert y [] after f h = (f, AllFollow-erased (range d) (range y) after h)
    AllFollow-insert y (x ∷ before) after f h = (h.0, AllFollow-insert y before after f h.1)

    IsSorted-insert :
        (m : ℕ) (before after : List A)
        → IsValid (range d)
        → ((range d).whole_file ≡ true) ⊎ (m ≤ endbyte (range d))
        → Passed range (range d).start m false before
        → Ahead range (range d).start m false after
        → IsSorted range (before ++ after)
        → IsSorted range (before ++ d ∷ erase_covered range (range d) after)
    IsSorted-insert m [] after v h p a s =
        (v, erased-AllFollow (range d) m after h a, IsSorted-erased (range d) after s)
    IsSorted-insert m (x ∷ before) after v h (early, reach, open_, rest) a s = (
      s.0,
      AllFollow-insert x before after
          (early, open_ refl, elim h [ inl whole ↦ inl whole | inr le ↦ inr (omega arith) ]) s.1,
      IsSorted-insert m before after v h rest a s.2,
    )

    -- The list after an insertion, for what the first loop found.
    abbrev Inserted : List A → List A → Type 0
    Inserted xs ys =
        IsSorted range ys
        × ((b : ℕ) → Covered range ys b ↔ (Covers (range d) b ⊎ Covered range xs b))

    skip-Covered :
        (xs : List A) (found : Scan range)
        → IsValid (range d)
        → Scanned range (range d).start (range d).start false xs found
        → (found.includes_eof
            || (ltb (endbyte (range d)) found.max_end && not (range d).whole_file))
          ≡ true
        → (b : ℕ) → Covers (range d) b
        → Covered range xs b
    skip-Covered xs found v f included b new =
        let by_eof : found.includes_eof ≡ true → Covered range xs b =
          λ q. elim (f.eof_found q) [ inl set ↦ absurd (cc) | inr all ↦ all b new.0 ] in
        let by_end : endbyte (range d) < found.max_end
            → b < endbyte (range d)
            → Covered range xs b =
          λ q lt. elim f.end_found [
            | inl same ↦ absurd (omega (arith, start-lt-endbyte (range d) v))
            | inr all ↦ all b new.0 (omega arith)
          ] in
        ground (arith, by_eof, by_end)

    insert-Covered :
        (m b : ℕ) (e : Bool) (before after : List A)
        → Ahead range (range d).start m e after
        → Covered range (before ++ d ∷ erase_covered range (range d) after) b
          ↔ (Covers (range d) b ⊎ Covered range (before ++ after) b)
    insert-Covered m b e before after a = (
      λ c. ground (
        arith,
        (Covered-append b before (d ∷ erase_covered range (range d) after)).0 c,
        (Covered-append b before after).1,
        Covered-erased (range d) b after,
      ),
      λ c. ground (
        arith,
        (Covered-append b before (d ∷ erase_covered range (range d) after)).1,
        (Covered-append b before after).0,
        erased-Covered (range d) b m e after a,
      ),
    )

    place-Inserted :
        (xs : List A) (found : Scan range)
        → IsValid (range d)
        → IsSorted range xs
        → Scanned range (range d).start (range d).start false xs found
        → Inserted xs (place range (range d) d xs found)
    unfolding place
    place-Inserted xs found v s f =
        elim (Bool-cases (
          found.includes_eof
          || (ltb (endbyte (range d)) found.max_end && not (range d).whole_file))) [
            | inl included ↦ rw included (
              s,
              λ b. (
                λ c. inr c,
                λ c. elim c [ inr old ↦ old | inl new ↦ skip-Covered xs found v f included b new ],
              ),
            )
            | inr fresh ↦
                let open_ : found.includes_eof ≡ false = ground arith in
                let reach : ((range d).whole_file ≡ true) ⊎ (found.max_end ≤ endbyte (range d)) =
                  ground arith in
                rw fresh (
                  IsSorted-insert found.max_end found.before found.after v reach
                      (subst (λ e. Passed range (range d).start found.max_end e found.before) open_
                        f.passed)
                      (subst (λ e. Ahead range (range d).start found.max_end e found.after) open_
                        f.ahead)
                      (subst (IsSorted range) (sym f.split) s),
                  λ b.
                      subst
                        (λ ys.
                          Covered range
                            (found.before ++ d ∷ erase_covered range (range d) found.after) b
                          ↔ (Covers (range d) b ⊎ Covered range ys b))
                        f.split
                        (insert-Covered found.max_end b found.includes_eof found.before found.after
                          f.ahead),
                )
          ]

    -- Adding a valid range to a sorted list keeps it sorted, and the bytes that the list then covers
    -- are exactly those of the range and those that it covered before.
    pub add_to_list-Inserted :
        (xs : List A) → IsValid (range d) → IsSorted range xs → Inserted xs (add_to_list range d xs)
    unfolding add_to_list
    add_to_list-Inserted xs v s =
        let r = range d in
        elim (Bool-cases (r.start == 0 && r.whole_file)) [
          | inl all ↦
              let covers : (b : ℕ) → Covers r b = λ b. (ground arith, inl (ground arith)) in
              rw (lt→not-leb r.length 0 v.nonempty, all)
                ((v, tt, tt), λ b. (λ c. inl (covers b), λ c. inl (covers b)))
          | inr part ↦
              rw (lt→not-leb r.length 0 v.nonempty, part)
                (place-Inserted xs (scan range r.start r.start false xs) v s
                  (scan-Scanned range r.start r.start false xs s))
        ]
