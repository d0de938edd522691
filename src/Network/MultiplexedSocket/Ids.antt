-- ===== src/Network/MultiplexedSocket/Ids.antt =====
-- The stream ids of one side: `getNewID` and the ids that `shutDownClosedStream` frees.
use sirikata.Base.{
  ℕ, ◌+◌, ◌%◌, ◌^◌, ◌≤◌, ◌<◌, ◌≡◌, refl, sym, ap, subst, ◌∙◌, ◌⊎◌, inl, inr, Bool, true, false, not,
  ◌||◌, ◌&&◌, List, [], ◌∷◌, ◌++◌, ◌==◌, arith, Bool-cases,
}
use sirikata.Network.MultiplexedSocket.{Socket, get_new_id, member}
use sirikata.Network.MultiplexedSocket.Close.{free_id}

abbrev AllDifferent : List ℕ → Type 0
AllDifferent [] = Unit {0}
AllDifferent (k ∷ ks) = (member k ks ≡ false) × AllDifferent ks

-- Of the ids that this side has given out, `live` are in use: they and the free ones are different
-- ids above 1 and up to the highest, and all have the parity of this side.
pub record IdsValid (live : ℕ → Bool) (m : Socket) : Type 0 where
  pub different : AllDifferent m.free_ids
  pub unused : (k : ℕ) → member k m.free_ids ≡ true → live k ≡ false
  pub own :
      (k : ℕ)
      → (member k m.free_ids ≡ true) ⊎ (live k ≡ true)
      → (1 < k) × (k ≤ m.highest) × (k % 2 ≡ m.highest % 2)

member-append : (k : ℕ) (ks qs : List ℕ) → member k (ks ++ qs) ≡ (member k ks || member k qs)
unfolding member
member-append k [] qs = refl
member-append k (j ∷ ks) qs = ground (arith, member-append k ks qs)

AllDifferent-append :
    (k : ℕ) (ks : List ℕ) → AllDifferent ks → member k ks ≡ false → AllDifferent (ks ++ k ∷ [])
unfolding member
AllDifferent-append k [] d h = (refl, tt)
AllDifferent-append k (j ∷ ks) d h =
    ground (arith, AllDifferent-append k ks d.1, member-append j ks (k ∷ []))

abbrev with_id : ℕ → (ℕ → Bool) → ℕ → Bool
with_id id live k = k == id || live k

abbrev pub without_id : ℕ → (ℕ → Bool) → ℕ → Bool
without_id id live k = not (k == id) && live k

pub get_new_id-nil :
    (m : Socket)
    → m.free_ids ≡ []
    → get_new_id m ≡ ((m.highest + 2) % 2 ^ 32, record m { highest = (m.highest + 2) % 2 ^ 32 })
unfolding get_new_id
get_new_id-nil m e = ground arith

pub get_new_id-cons :
    (m : Socket) (id : ℕ) (rest : List ℕ)
    → m.free_ids ≡ id ∷ rest
    → get_new_id m ≡ (id, record m { free_ids = rest })
unfolding get_new_id
get_new_id-cons m id rest e = ground arith

abbrev pub IsFresh : (ℕ → Bool) → Socket → ℕ × Socket → Type 0
IsFresh live m (id, m') =
    (live id ≡ false) × (1 < id) × (id % 2 ≡ m.highest % 2) × IdsValid (with_id id live) m'

IsFresh-number :
    (live : ℕ → Bool) (m : Socket)
    → IdsValid live m
    → m.highest + 2 < 2 ^ 32
    → m.free_ids ≡ []
    → IsFresh live m ((m.highest + 2) % 2 ^ 32, record m { highest = (m.highest + 2) % 2 ^ 32 })
unfolding member
IsFresh-number live m v h e =
    let id = (m.highest + 2) % 2 ^ 32 in
    let exact : id ≡ m.highest + 2 = omega (arith, h) in
    (
      elim (Bool-cases (live id)) [
        | inl used ↦ absurd (omega (arith, (v.own id (inr used)).1, exact))
        | inr unused ↦ unused
      ],
      omega (arith, exact),
      omega (arith, exact),
      record {
        different = v.different;
        unused = λ k f. absurd (ground (arith, e));
        own = λ k c. elim (Bool-cases (k == id)) [
          | inl new ↦ ground (arith, exact)
          | inr old ↦
              let was = v.own k (ground arith) in
              (was.0, omega (arith, was.1, exact), omega (arith, was.2, exact))
        ];
      },
    )

IsFresh-free :
    (live : ℕ → Bool) (m : Socket) (id : ℕ) (rest : List ℕ)
    → IdsValid live m
    → m.free_ids ≡ id ∷ rest
    → IsFresh live m (id, record m { free_ids = rest })
unfolding member
IsFresh-free live m id rest v e =
    let different : AllDifferent (id ∷ rest) = subst AllDifferent e v.different in
    let listed : (k : ℕ) → member k m.free_ids ≡ (id == k || member k rest) =
      λ k. ap (member k) e in
    let own = v.own id (inl (ground (arith, listed id))) in
    (
      v.unused id (ground (arith, listed id)),
      own.0,
      own.2,
      record {
        different = different.1;
        unused = λ k f. ground (arith, v.unused k, listed k, different.0);
        own = λ k c. ground (arith, v.own k, listed k, own);
      },
    )

-- While fewer than 2 ^ 32 numbers were used, `getNewID` gives an id that is not in use, above 1 and
-- of the parity of this side, and the ids stay valid with it in use.
pub get_new_id-IsFresh :
    (live : ℕ → Bool) (m : Socket)
    → IdsValid live m
    → m.highest + 2 < 2 ^ 32
    → IsFresh live m (get_new_id m)
get_new_id-IsFresh live m v h = go m.free_ids refl
  where
    go : (ids : List ℕ) → m.free_ids ≡ ids → IsFresh live m (get_new_id m)
    go [] e = subst (IsFresh live m) (sym (get_new_id-nil m e)) (IsFresh-number live m v h e)
    go (id ∷ rest) e =
        subst (IsFresh live m) (sym (get_new_id-cons m id rest e)) (IsFresh-free live m id rest v e)

-- Freeing an id that is in use keeps the ids valid without it.
pub free_id-IdsValid :
    (id : ℕ) (live : ℕ → Bool) (m : Socket)
    → IdsValid live m
    → live id ≡ true
    → IdsValid (without_id id live) (free_id id m)
unfolding free_id member
free_id-IdsValid id live m v h =
    let own = v.own id (inr h) in
    let new : member id m.free_ids ≡ false = elim (Bool-cases (member id m.free_ids)) [
      | inl free ↦ absurd (cc (v.unused id free, h))
      | inr not_free ↦ not_free
    ] in
    let back : (free_id id m).free_ids ≡ m.free_ids ++ id ∷ [] = ground (arith, own) in
    let listed : (k : ℕ) → member k (free_id id m).free_ids ≡ (member k m.free_ids || id == k) =
      λ k. ap (member k) back ∙ ground (arith, member-append k m.free_ids (id ∷ [])) in
    record {
      different = subst AllDifferent (sym back) (AllDifferent-append id m.free_ids v.different new);
      unused = λ k f. ground (arith, v.unused k, listed k);
      own = λ k c. ground (arith, v.own k, listed k, own);
    }
