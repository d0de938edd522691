-- ===== src/Transfer/Uri/Whole.antt =====
-- A whole printed `URI`, with its file name (libcore/src/transfer/URI.hpp).
use sirikata.Base.{
  ℕ, zero, suc, ◌+◌, ◌-◌, ◌<◌, ◌≡◌, refl, sym, ap, subst, ◌∙◌, Bool, true, false, not, ◌&&◌, [],
  ◌∷◌, ◌++◌, ltb, ◌==◌, length, drop, length-append, drop-append, take-append, arith, append_assoc,
}
use sirikata.Transfer.Uri.{
  Text, slash, npos, substr, rfind, char_at, UriContext, uri_to_string, Uri, parse, find_slash,
}
use sirikata.Transfer.Uri.Search.{Lacks, rfind_last}
use sirikata.Transfer.Uri.Stages.{before_authority}
use sirikata.Transfer.Uri.RoundTrip.{
  authority, user_part, directory_part, printed, IsCanonical, to_string-printed, parse-printed,
}

char_at_behind : (k : ℕ) (zs ys : Text) → char_at (length zs + k) (zs ++ ys) ≡ char_at k ys
unfolding char_at
char_at_behind k [] ys = ground arith
char_at_behind k (z ∷ zs) ys =
    let e : suc (length zs) + k ≡ suc (length zs + k) = omega arith in
    ap (λ i. char_at i (z ∷ (zs ++ ys))) e ∙ char_at_behind k zs ys

char_at_within : (k : ℕ) (ys tail : Text) → k < length ys → char_at k (ys ++ tail) ≡ char_at k ys
unfolding char_at
char_at_within k [] tail h = absurd (omega arith)
char_at_within zero (y ∷ ys) tail h = refl
char_at_within (suc k) (y ∷ ys) tail h = char_at_within k ys tail (omega arith)

Lacks-char_at : (k : ℕ) (ys : Text) → Lacks slash ys → (char_at k ys == slash) ≡ false
unfolding char_at
Lacks-char_at k [] h = refl
Lacks-char_at zero (y ∷ ys) h = h.0
Lacks-char_at (suc k) (y ∷ ys) h = Lacks-char_at k ys h.1

-- The last character of a text that is not empty, wherever the text stands.
last_char :
    (zs ys tail : Text)
    → 0 < length ys
    → char_at (length (zs ++ ys) - 1) ((zs ++ ys) ++ tail) ≡ char_at (length ys - 1) ys
last_char zs ys tail h =
    let e : length (zs ++ ys) - 1 ≡ length zs + (length ys - 1) =
      omega (arith, length-append zs ys) in
    (λ i. char_at (e i) (append_assoc zs ys tail i))
    ∙ char_at_behind (length ys - 1) zs (ys ++ tail)
    ∙ char_at_within (length ys - 1) ys tail (omega arith)

-- What stands before the last slash of a printed context does not end in a slash.
printed_front :
    (ctx : UriContext)
    → Lacks slash ctx.host
    → 0 < length ctx.host
    → (char_at (length ctx.directory - 1) ctx.directory == slash) ≡ false
    → (xs : Text) × (printed ctx ≡ xs ++ slash ∷ [])
      × (0 < length xs)
      × ((tail : Text) → (char_at (length xs - 1) (xs ++ tail) == slash) ≡ false)
printed_front ctx no_slash more = on_directory ctx.directory
  where
    on_directory :
        (dir : Text)
        → (char_at (length dir - 1) dir == slash) ≡ false
        → (xs : Text) × (before_authority ctx.proto ++ (authority ctx ++ slash ∷ directory_part dir)
            ≡ xs ++ slash ∷ [])
          × (0 < length xs)
          × ((tail : Text) → (char_at (length xs - 1) (xs ++ tail) == slash) ≡ false)
    on_directory [] ends = (
      (before_authority ctx.proto ++ user_part ctx.user) ++ ctx.host,
      sym (append_assoc (before_authority ctx.proto) (authority ctx) (slash ∷ []))
          ∙ ap (λ t. t ++ slash ∷ [])
              (sym (append_assoc (before_authority ctx.proto) (user_part ctx.user) ctx.host)),
      omega (arith, length-append (before_authority ctx.proto ++ user_part ctx.user) ctx.host),
      λ tail.
          ap (λ c. c == slash)
            (last_char (before_authority ctx.proto ++ user_part ctx.user) ctx.host tail more)
          ∙ Lacks-char_at (length ctx.host - 1) ctx.host no_slash,
    )
    on_directory (c ∷ cs) ends =
        let front = (before_authority ctx.proto ++ authority ctx) ++ slash ∷ [] in
        (
          front ++ (c ∷ cs),
          sym (
                append_assoc (before_authority ctx.proto) (authority ctx)
                  (slash ∷ ((c ∷ cs) ++ slash ∷ [])))
              ∙ sym (
                  append_assoc (before_authority ctx.proto ++ authority ctx) (slash ∷ [])
                    ((c ∷ cs) ++ slash ∷ []))
              ∙ sym (append_assoc front (c ∷ cs) (slash ∷ [])),
          omega (arith, length-append front (c ∷ cs)),
          λ tail. ap (λ d. d == slash) (last_char front (c ∷ cs) tail (omega arith)) ∙ ends,
        )

and_false : (b : Bool) → (b && false) ≡ false
and_false true = refl
and_false false = refl

module _ (tolower : ℕ → ℕ) (isspace : ℕ → Bool) where
  -- A string is cut behind its last slash, if no slash stands before that one.
  cut_at_slash :
      (xs path : Text) (parent : UriContext)
      → Lacks slash path
      → (char_at (length xs - 1) (xs ++ slash ∷ path) == slash) ≡ false
      → length (xs ++ slash ∷ path) < npos
      → find_slash tolower isspace parent (xs ++ slash ∷ path)
        ≡ record { path = path; context = parse tolower isspace (xs ++ slash ∷ []) parent }
  unfolding find_slash
  cut_at_slash xs path parent no_slash front small =
      let s = xs ++ slash ∷ path in
      let last : rfind slash s npos ≡ length xs =
        rfind_last slash xs path no_slash (omega (arith, small)) in
      let found : (length xs == npos) ≡ false =
        ground (arith, small, length-append xs (slash ∷ path)) in
      let shape : s ≡ (xs ++ slash ∷ []) ++ path = sym (append_assoc xs (slash ∷ []) path) in
      let behind : length xs + 1 ≡ length (xs ++ slash ∷ []) =
        omega (arith, length-append xs (slash ∷ [])) in
      let name : drop (length xs + 1) s ≡ path =
        (λ i. drop (behind i) (shape i)) ∙ drop-append (xs ++ slash ∷ []) path in
      let directory : substr s 0 (length xs + 1) ≡ xs ++ slash ∷ [] =
        (λ i. substr (shape i) 0 (behind i)) ∙ take-append (xs ++ slash ∷ []) path in
      let b = not (ltb 1 (length xs) && (char_at (length xs - 2) s == slash)) in
      let test : (ltb 0 (length xs) && ((char_at (length xs - 1) s == slash) && b)) ≡ false =
        rw front (and_false (ltb 0 (length xs))) in
      rw (find_slash, last, found, test, name, directory) refl

  -- A URI is read back from its string, whatever the parent, if the parts of its context are told
  -- apart by the characters between them and are clean, its host is not empty, its directory does
  -- not end in a slash, its file name has none, and the string is shorter than `npos`.
  pub find_slash-uri_to_string :
      (uri : Uri) (parent : UriContext)
      → IsCanonical tolower isspace uri.context
      → Lacks slash uri.path
      → (char_at (length uri.context.directory - 1) uri.context.directory == slash) ≡ false
      → length (uri_to_string uri) < npos
      → find_slash tolower isspace parent (uri_to_string uri) ≡ uri
  unfolding find_slash uri_to_string
  find_slash-uri_to_string uri parent h no_slash ends small =
      let (xs, shape, more, front) = printed_front uri.context h.host_no_slash h.host_some ends in
      let whole : uri_to_string uri ≡ xs ++ slash ∷ uri.path =
        ap (λ t. t ++ uri.path) (to_string-printed uri.context ∙ shape)
        ∙ append_assoc xs (slash ∷ []) uri.path in
      ap (find_slash tolower isspace parent) whole
      ∙ cut_at_slash xs uri.path parent no_slash (front (slash ∷ uri.path))
          (subst (λ t. length t < npos) whole small)
      ∙ (λ i. record uri {
        context =
            (ap (λ t. parse tolower isspace t parent) (sym shape)
                ∙ parse-printed tolower isspace uri.context parent h)
              i;
      })
