-- ===== src/Transfer/MemoryCache/Chain/Answers.antt =====
-- A question is answered by the first layer that knows the range, or else by the last layer.
use sirikata.Base.{
  ℕ, ◌≡◌, refl, ap, ◌∙◌, sym, subst, ◌⊎◌, inl, inr, ◌≢◌, Bool, true, false, Option, none, some,
  List, [], ◌∷◌, map, if◌then◌else◌, Option-cases,
}
use sirikata.Base.Quantify.{All}
use sirikata.Base.Assoc.{lookup}
use sirikata.Transfer.Range.{Range, is_contained_by}
use sirikata.Transfer.Range.Coverage.{Covers, Covered, IsValid, HasByte, IsSorted}
use sirikata.Transfer.Sparse.{DenseData, SparseData, range_of}
use sirikata.Transfer.Policy.{CachePolicy}
use sirikata.Transfer.CacheMap.{MapEntry, CacheMap, find}
use sirikata.Transfer.CacheMap.Alloc.{AllEntries-lookup, IsShare}
use sirikata.Transfer.MemoryCache.{Populated, Answer, hit, ask_next, get_data}
use sirikata.Transfer.MemoryCache.Contents.{IsStored, HoldsRange}
use sirikata.Transfer.MemoryCache.Populate.{IsHealthy}
use sirikata.Transfer.MemoryCache.Reads.{get_data_answer, get_data-entry}
use sirikata.Transfer.MemoryCache.Chain.{Layer, respond, ask}
use sirikata.Transfer.MemoryCache.Chain.Store.{ValidPiece, map-ValidPiece, IsReady, respond-IsReady}

-- The layer has this file at the id, and the file covers the range.
abbrev pub HasFile : Range → SparseData → Option (MapEntry SparseData) → Type 0
HasFile r s o =
    (e : MapEntry SparseData) × (o ≡ some e)
    × (e.contents ≡ some s)
    × ((b : ℕ) → Covers r b → Covered range_of s b)

abbrev pub fetched : Option DenseData → Option SparseData
fetched none = none
fetched (some d) = some (d ∷ [])

abbrev file_of : Option (Answer × Populated) → SparseData
file_of none = []
file_of (some (hit s, up)) = s
file_of (some (ask_next, up)) = []

same_file :
    (inside : Bool) (s t : SparseData) (up up' : Populated)
    → ◌≡◌ {A = Option (Answer × Populated)}
        (some (hit s, up))
        (some (if inside then (hit t, up') else (ask_next, [])))
    → s ≡ t
same_file true s t up up' e = ap file_of e
same_file false s t up up' e = absurd (cc)

module _ (over_share : ℕ → ℕ → Bool) (P : CachePolicy) (fetch : ℕ → Range → Option DenseData)
    (id : ℕ) (r : Range) where
  -- The file of the first layer that knows the range, and without one what the last layer brings.
  pub AnswerOf : List (Layer over_share P) → Option SparseData → Type 0
  AnswerOf [] answer = answer ≡ fetched (fetch id r)
  AnswerOf (m ∷ below) answer =
      ((s : SparseData) × (answer ≡ some s) × HasFile r s (lookup id m.entries))
      ⊎ ((¬ HoldsRange r (lookup id m.entries)) × AnswerOf below answer)

  pub AnswerOf-unknown :
      (layers : List (Layer over_share P)) (answer : Option SparseData)
      → All (λ m. ¬ HoldsRange r (lookup id m.entries)) layers
      → AnswerOf layers answer
      → answer ≡ fetched (fetch id r)
  unfolding AnswerOf
  AnswerOf-unknown [] answer unknown answers = answers
  AnswerOf-unknown (m ∷ below) answer unknown (inl (s, _, (e, there, holds, covers))) =
      absurd (unknown.0 (e, s, there, holds, covers))
  AnswerOf-unknown (m ∷ below) answer unknown (inr (_, answers)) =
      AnswerOf-unknown below answer unknown.1 answers

  get_data-missing :
      (m : CacheMap P SparseData) (s : SparseData) (up : Populated)
      → lookup id m.entries ≡ none
      → get_data over_share P id r m ≢ some (hit s, up)
  unfolding get_data find
  get_data-missing m s up missing found =
      let asks : get_data over_share P id r m ≡ some (ask_next, []) = rw (missing, get_data) refl in
      absurd (cc)

  pub hit_entry :
      (m : CacheMap P SparseData) (s : SparseData) (up : Populated)
      → IsHealthy over_share P m
      → get_data over_share P id r m ≡ some (hit s, up)
      → (e : MapEntry SparseData) × (lookup id m.entries ≡ some e)
        × (e.contents ≡ some s)
        × IsSorted range_of s
  hit_entry m s up h found = elim (Option-cases (lookup id m.entries)) [
    | inl missing ↦ absurd (get_data-missing m s up missing found)
    | inr (e, there) ↦
        let (t, holds, size, sorted) = AllEntries-lookup IsStored id e m.entries h.stored there in
        let entry = get_data-entry over_share P id r m e t there holds in
        let same : s ≡ t =
          same_file (is_contained_by range_of r t) s t up (map (λ d. (id, d)) t)
            (sym found ∙ entry) in
        (e, there, holds ∙ ap some (sym same), subst (IsSorted range_of) (sym same) sorted)
  ]

  pub ask-hit :
      (m : CacheMap P SparseData) (below : List (Layer over_share P)) (s : SparseData)
      (up : Populated)
      → get_data over_share P id r m ≡ some (hit s, up)
      → ask over_share P fetch id r (m ∷ below) ≡ some (some s, m ∷ below, up)
  unfolding ask
  ask-hit m below s up found = rw (ask, found) refl

  pub ask-next :
      (m : CacheMap P SparseData) (below : List (Layer over_share P)) (up : Populated)
      → get_data over_share P id r m ≡ some (ask_next, up)
      → ask over_share P fetch id r (m ∷ below)
        ≡ respond over_share P m (ask over_share P fetch id r below)
  unfolding ask
  ask-next m below up found = rw (ask, found) refl

  module _ (share : IsShare over_share) (some_byte : HasByte r)
      (brings : (d : DenseData) → fetch id r ≡ some d → IsValid d.range) where
    -- Let each layer be healthy with a space below 2 ^ 64, and let what the last layer brings be
    -- valid. Then a question for a range with a first byte returns the file of the first layer that
    -- knows the range, or what the last layer brings if none does; all layers stay healthy, and
    -- valid pieces are passed on.
    pub ask-AnswerOf :
        (layers : List (Layer over_share P))
        → All (IsReady over_share P share) layers
        → (answer : Option SparseData) × (layers' : List (Layer over_share P))
          × (pieces : Populated) × (ask over_share P fetch id r layers
              ≡ some (answer, layers', pieces))
          × AnswerOf layers answer
          × All (IsReady over_share P share) layers'
          × All ValidPiece pieces
    unfolding ask AnswerOf
    ask-AnswerOf [] ready = elim (Option-cases (fetch id r)) [
      | inl nothing ↦ (none, [], [], rw (ask, nothing) refl, rw (nothing) refl, tt, tt)
      | inr (d, brought) ↦ (
        some (d ∷ []),
        [],
        (id, d) ∷ [],
        rw (ask, brought) refl,
        rw (brought) refl,
        tt,
        (brings d brought, tt),
      )
    ]
    ask-AnswerOf (m ∷ below) ready =
        elim (get_data_answer over_share P id r m ready.0.healthy some_byte) [
          | inl (s, found, covers) ↦
              let (e, there, holds, sorted) =
                hit_entry m s (map (λ d. (id, d)) s) ready.0.healthy found in
              (
                some s,
                m ∷ below,
                map (λ d. (id, d)) s,
                ask-hit m below s (map (λ d. (id, d)) s) found,
                inl (s, refl, (e, there, holds, covers)),
                ready,
                map-ValidPiece id s sorted,
              )
          | inr (next, unknown) ↦
              let (answer, layers', pieces, asked, answers, ready', pieces_valid) =
                ask-AnswerOf below ready.1 in
              let (m', responded, ready_m) =
                respond-IsReady over_share P share m answer layers' pieces ready.0 pieces_valid in
              (
                answer,
                m' ∷ layers',
                pieces,
                ask-next m below [] next ∙ ap (respond over_share P m) asked ∙ responded,
                inr (unknown, answers),
                (ready_m, ready'),
                pieces_valid,
              )
        ]
