-- ===== src/Util/ListenerProvider/Index.antt =====
-- The map agrees with the vector: it finds each listener's place, while there are two or more.
use sirikata.Base.{
  ℕ, suc, ◌-◌, ◌≤◌, ◌<◌, ◌≡◌, ◌≢◌, refl, sym, ap, ◌∙◌, Option, none, some, List, [], ◌∷◌, ◌++◌,
  length, length-append, length-take, get_elem?, ltb, ◌==◌, if◌then◌else◌, arith,
}
use sirikata.Util.ListenerProvider.{Provider, set_elem, add_to, add_listener, remove_at}
use sirikata.Util.ListenerProvider.Slots.{
  length-set_elem, get_elem?-set_elem, get_elem?-push_back, get_elem?-take, get_elem?-below,
}

abbrev pub at : Provider → ℕ → Option ℕ
at s i = get_elem? s.listeners i

abbrev pub Listed : ℕ → Provider → Type 0
Listed p s = (i : ℕ) × (at s i ≡ some p)

-- A listener that the map has stands at its place; while there are not just one, the map has all.
abbrev pub IsValid : Provider → Type 0
IsValid s =
    ((p i : ℕ) → s.listener_index p ≡ some i → at s i ≡ some p)
    × (length s.listeners ≢ 1 → (i p : ℕ) → at s i ≡ some p → s.listener_index p ≡ some i)

module _ (p place back : ℕ) (s : Provider) where
  pub remove_at-listeners :
      (j : ℕ)
      → place < length s.listeners
      → at (remove_at p place back s) j ≡ (
          if ltb j (length s.listeners - 1)
          then (if j == place then some back else at s j)
          else none)
  unfolding remove_at
  remove_at-listeners j below = ground (
    arith,
    length-set_elem place back s.listeners,
    get_elem?-set_elem place j back s.listeners below,
    get_elem?-take (length s.listeners - 1) j s.listeners,
    get_elem?-take (length s.listeners - 1) j (set_elem place back s.listeners),
  )

  remove_at-length : length (remove_at p place back s).listeners ≡ length s.listeners - 1
  unfolding remove_at
  remove_at-length = ground (
    arith,
    length-set_elem place back s.listeners,
    length-take (length s.listeners - 1) s.listeners,
    length-take (length s.listeners - 1) (set_elem place back s.listeners),
  )

  pub remove_at-index :
      (q : ℕ)
      → at s place ≡ some p
      → at s (length s.listeners - 1) ≡ some back
      → (remove_at p place back s).listener_index q
        ≡ (if q == p then none else if q == back then some place else s.listener_index q)
  unfolding remove_at
  remove_at-index q here last = ground arith

module _ (p place back : ℕ) (s : Provider) (valid : IsValid s) (many : 2 ≤ length s.listeners)
    (here : at s place ≡ some p) (last : at s (length s.listeners - 1) ≡ some back) where
  pub place_below : place < length s.listeners
  place_below = get_elem?-below s.listeners place p here

  pub finds : (i q : ℕ) → at s i ≡ some q → s.listener_index q ≡ some i
  finds = valid.1 (λ e. absurd (omega (arith, e, many)))

  remove_at-stands :
      (q i : ℕ)
      → (remove_at p place back s).listener_index q ≡ some i
      → at (remove_at p place back s) i ≡ some q
  remove_at-stands q i found =
      let index = remove_at-index p place back s q here last in
      let slot = remove_at-listeners p place back s i place_below in
      let below = place_below in
      let within = get_elem?-below s.listeners i q in let stands = valid.0 q i in ground arith

  pub remove_at-finds :
      (i q : ℕ)
      → at (remove_at p place back s) i ≡ some q
      → (remove_at p place back s).listener_index q ≡ some i
  remove_at-finds i q stands =
      let index = remove_at-index p place back s q here last in
      let slot = remove_at-listeners p place back s i place_below in
      let of_p = finds place p here in
      let of_back = finds (length s.listeners - 1) back last in let of_q = finds i q in ground arith

  pub remove_at-IsValid : IsValid (remove_at p place back s)
  remove_at-IsValid = (remove_at-stands, λ many i q. remove_at-finds i q)

abbrev pub Absent : ℕ → Provider → Type 0
Absent p s = (i : ℕ) → at s i ≢ some p

pub add_to-listeners :
    (xs : List ℕ) (p : ℕ) (s : Provider) → (add_to xs p s).listeners ≡ s.listeners ++ p ∷ []
add_to-listeners [] p s = refl
add_to-listeners (q ∷ []) p s = refl
add_to-listeners (q ∷ r ∷ xs) p s = refl

pub add_listener-at :
    (p j : ℕ) (s : Provider)
    → at (add_listener p s) j ≡ (if j == length s.listeners then some p else at s j)
unfolding add_listener
add_listener-at p j s =
    ap (λ xs. get_elem? xs j) (add_to-listeners s.listeners p s)
    ∙ get_elem?-push_back j p s.listeners

add_listener-length :
    (p : ℕ) (s : Provider) → length (add_listener p s).listeners ≡ suc (length s.listeners)
unfolding add_listener
add_listener-length p s =
    omega (arith, ap length (add_to-listeners s.listeners p s), length-append s.listeners (p ∷ []))

add_to-stands :
    (xs : List ℕ) (p q i : ℕ) (s : Provider)
    → s.listeners ≡ xs
    → IsValid s
    → (add_to xs p s).listener_index q ≡ some i
    → (if i == length s.listeners then some p else at s i) ≡ some q
add_to-stands [] p q i s e valid found =
    let stands = valid.0 q i found in
    let below = get_elem?-below s.listeners i q stands in ground arith
add_to-stands (r ∷ []) p q i s e valid found =
    let size = ap length e in
    let first = ap (λ l. get_elem? l 0) e in
    let stands = valid.0 q i in let below = get_elem?-below s.listeners i q in ground arith
add_to-stands (r ∷ t ∷ xs) p q i s e valid found =
    let stands = valid.0 q i in let below = get_elem?-below s.listeners i q in ground arith

add_to-finds :
    (xs : List ℕ) (p i q : ℕ) (s : Provider)
    → s.listeners ≡ xs
    → IsValid s
    → Absent p s
    → suc (length s.listeners) ≢ 1
    → (if i == length s.listeners then some p else at s i) ≡ some q
    → (add_to xs p s).listener_index q ≡ some i
add_to-finds [] p i q s e valid absent many stands = absurd (many (ap (λ l. suc (length l)) e))
add_to-finds (r ∷ []) p i q s e valid absent many stands =
    let size = ap length e in
    let first = ap (λ l. get_elem? l 0) e in
    let below = get_elem?-below s.listeners i q in let fresh = absent i in ground arith
add_to-finds (r ∷ t ∷ xs) p i q s e valid absent many stands =
    let found = valid.1 (λ one. absurd (omega (arith, one, ap length e))) i q in
    let fresh = absent i in ground arith

pub add_listener-IsValid :
    (p : ℕ) (s : Provider) → IsValid s → Absent p s → IsValid (add_listener p s)
unfolding add_listener
add_listener-IsValid p s valid absent = (
  λ q i found. add_listener-at p i s ∙ add_to-stands s.listeners p q i s refl valid found,
  λ many i q stands.
      add_to-finds s.listeners p i q s refl valid absent
        (λ one. many (add_listener-length p s ∙ one)) (sym (add_listener-at p i s) ∙ stands),
)
