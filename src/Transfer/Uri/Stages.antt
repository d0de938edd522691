-- ===== src/Transfer/Uri/Stages.antt =====
-- The stages of `URIContext::parse` on a printed context (libcore/src/transfer/URI.hpp).
use sirikata.Base.{
  ℕ, ◌+◌, ◌-◌, ◌<◌, ◌≡◌, refl, sym, ap, ◌∙◌, inl, inr, true, false, not, ◌&&◌, ◌||◌, [], ◌∷◌, ◌++◌,
  ltb, ◌==◌, length, length-append, drop-append, take-append, arith, append_assoc,
}
use sirikata.Transfer.Uri.{
  Text, colon, slash, at_sign, npos, substr, find, rfind, char_at, UriContext, scan_proto,
  scan_host, scan_user, scan_authority, scan_directory,
}
use sirikata.Transfer.Uri.Search.{
  Lacks, Lacks-append, find-append, rfind-append, rfind_last, rfind_before, char_at-append,
}

-- The part of a string between two others.
pub substr-append :
    (xs ys zs : Text) (n : ℕ) → n ≡ length ys → substr (xs ++ (ys ++ zs)) (length xs) n ≡ ys
substr-append xs ys zs n e = rw (drop-append xs (ys ++ zs), e) (take-append ys zs)

pub scan_proto_lem :
    (proto post : Text) (ctx : UriContext)
    → Lacks colon proto
    → Lacks slash proto
    → length proto + 1 < npos
    → scan_proto (proto ++ colon ∷ slash ∷ post) ctx
      ≡ record { startpos = length proto + 1; context = record ctx { proto = proto; user = [] } }
unfolding scan_proto
scan_proto_lem proto post ctx no_colon no_slash small =
    let s = proto ++ colon ∷ slash ∷ post in
    let shape : s ≡ (proto ++ colon ∷ []) ++ slash ∷ post =
      sym (append_assoc proto (colon ∷ []) (slash ∷ post)) in
    let first_colon : find colon s 0 ≡ length proto =
      find-append colon [] proto (slash ∷ post) no_colon ∙ omega arith in
    let first_slash : find slash s 0 ≡ length proto + 1 =
      ap (λ t. find slash t 0) shape
      ∙ find-append slash [] (proto ++ colon ∷ []) post
          (Lacks-append slash proto (colon ∷ []) no_slash (refl, tt))
      ∙ omega (arith, length-append proto (colon ∷ [])) in
    let test : (not (length proto == npos)
          && ((length proto + 1 == npos) || ltb (length proto) (length proto + 1)))
        ≡ true =
      ground arith in
    rw (scan_proto, first_colon, first_slash, test, take-append proto (colon ∷ slash ∷ post)) refl

scan_host_lem :
    (xs host rest : Text) (ctx : UriContext)
    → 0 < length host
    → length xs + length host < npos
    → scan_host (xs ++ (host ++ slash ∷ rest)) (length xs) (length xs + length host) ctx
      ≡ record ctx { host = host }
unfolding scan_host
scan_host_lem xs host rest ctx more small =
    let differ : (length xs + length host == length xs) ≡ false = ground arith in
    let within : (length xs + length host == npos) ≡ false = ground arith in
    rw
      (
        scan_host,
        differ,
        within,
        substr-append xs host (slash ∷ rest) (length xs + length host - length xs) (omega arith),
      )
      refl

pub scan_user_none :
    (pre host rest : Text) (ctx : UriContext)
    → Lacks at_sign host
    → 0 < length host
    → length pre + length host < npos
    → scan_user (pre ++ (host ++ slash ∷ rest)) (length pre) (length pre + length host) ctx
      ≡ record ctx { user = []; host = host }
unfolding scan_user
scan_user_none pre host rest ctx no_at more small =
    let s = pre ++ (host ++ slash ∷ rest) in
    let at = rfind at_sign s (length pre + length host) in
    let shape : at ≡ rfind at_sign ((pre ++ host) ++ slash ∷ rest) (length pre + length host) =
      ap (λ t. rfind at_sign t (length pre + length host))
        (sym (append_assoc pre host (slash ∷ rest))) in
    let no_user : (not (at == npos) && (ltb (length pre) at && ltb at (length pre + length host)))
        ≡ false =
      elim (rfind_before at_sign slash pre host rest no_at refl) [
        | inl before ↦ ground (arith, shape)
        | inr nowhere ↦ ground (arith, shape)
      ] in
    rw (scan_user, no_user) (scan_host_lem pre host rest (record ctx { user = [] }) more small)

last_eq :
    (pre user host : Text)
    → length pre + length user + 1 + length host
      ≡ length (pre ++ user) + length (host ++ slash ∷ [])
last_eq pre user host = omega (arith, length-append pre user, length-append host (slash ∷ []))

pub scan_user_some :
    (pre user host rest : Text) (ctx : UriContext)
    → Lacks at_sign host
    → 0 < length user
    → 0 < length host
    → length pre + length user + 1 + length host < npos
    → scan_user
        (pre ++ (user ++ at_sign ∷ (host ++ slash ∷ rest)))
        (length pre)
        (length pre + length user + 1 + length host)
        ctx
      ≡ record ctx { user = user; host = host }
unfolding scan_user
scan_user_some pre user host rest ctx no_at named more small =
    let s = pre ++ (user ++ at_sign ∷ (host ++ slash ∷ rest)) in
    let last = length pre + length user + 1 + length host in
    let front = (pre ++ user) ++ at_sign ∷ [] in
    let front_length : length front ≡ length pre + length user + 1 =
      omega (arith, length-append (pre ++ user) (at_sign ∷ []), length-append pre user) in
    let shape : s ≡ ((pre ++ user) ++ at_sign ∷ (host ++ slash ∷ [])) ++ rest =
      sym (append_assoc pre user (at_sign ∷ (host ++ slash ∷ rest)))
      ∙ ap (λ t. (pre ++ user) ++ at_sign ∷ t) (sym (append_assoc host (slash ∷ []) rest))
      ∙ sym (append_assoc (pre ++ user) (at_sign ∷ (host ++ slash ∷ [])) rest) in
    let shape' : s ≡ front ++ (host ++ slash ∷ rest) =
      sym (append_assoc pre user (at_sign ∷ (host ++ slash ∷ rest)))
      ∙ sym (append_assoc (pre ++ user) (at_sign ∷ []) (host ++ slash ∷ rest)) in
    let at_eq : rfind at_sign s last ≡ length pre + length user =
      (λ i. rfind at_sign (shape i) (last_eq pre user host i))
      ∙ rfind-append at_sign (pre ++ user) (host ++ slash ∷ []) rest
          (Lacks-append at_sign host (slash ∷ []) no_at (refl, tt))
      ∙ length-append pre user in
    let has_user : (not (length pre + length user == npos)
          && (ltb (length pre) (length pre + length user) && ltb (length pre + length user) last))
        ≡ true =
      ground arith in
    let name : substr s (length pre) (length pre + length user - length pre) ≡ user =
      substr-append pre user (at_sign ∷ (host ++ slash ∷ rest))
        (length pre + length user - length pre) (omega arith) in
    rw (scan_user, at_eq, has_user, name)
      (rw (shape', sym front_length)
        (scan_host_lem front host rest (record ctx { user = user }) more (omega arith)))

front_of : (proto : Text) (c : ℕ) → length proto + 1 ≡ length (proto ++ c ∷ [])
front_of proto c = omega (arith, length-append proto (c ∷ []))

front_of2 : (proto : Text) → length proto + 1 + 1 ≡ length (proto ++ colon ∷ slash ∷ [])
front_of2 proto = omega (arith, length-append proto (colon ∷ slash ∷ []))

shape1 :
    (proto tail : Text)
    → (proto ++ colon ∷ slash ∷ slash ∷ []) ++ tail ≡ (proto ++ colon ∷ []) ++ slash ∷ slash ∷ tail
shape1 proto tail =
    append_assoc proto (colon ∷ slash ∷ slash ∷ []) tail
    ∙ sym (append_assoc proto (colon ∷ []) (slash ∷ slash ∷ tail))

shape2 :
    (proto tail : Text)
    → (proto ++ colon ∷ slash ∷ slash ∷ []) ++ tail ≡ (proto ++ colon ∷ slash ∷ []) ++ slash ∷ tail
shape2 proto tail =
    append_assoc proto (colon ∷ slash ∷ slash ∷ []) tail
    ∙ sym (append_assoc proto (colon ∷ slash ∷ []) (slash ∷ tail))

abbrev pub before_authority : Text → Text
before_authority proto = proto ++ colon ∷ slash ∷ slash ∷ []

pub scan_authority_lem :
    (proto authority rest : Text) (ctx : UriContext)
    → Lacks slash authority
    → (let pre = before_authority proto in
        let s = pre ++ (authority ++ slash ∷ rest) in
        scan_authority s (record { startpos = length proto + 1; context = ctx }) ≡ record {
          startpos = length pre + length authority;
          context = scan_user s (length pre) (length pre + length authority) ctx;
        })
unfolding scan_authority
scan_authority_lem proto authority rest ctx no_slash =
    let pre = before_authority proto in
    let s = pre ++ (authority ++ slash ∷ rest) in
    let pre_length : length proto + 1 + 2 ≡ length pre =
      omega (arith, length-append proto (colon ∷ slash ∷ slash ∷ [])) in
    let tail = authority ++ slash ∷ rest in
    let first : char_at (length proto + 1) s ≡ slash =
      (λ i. char_at (front_of proto colon i) (shape1 proto tail i))
      ∙ char_at-append slash (proto ++ colon ∷ []) (slash ∷ tail) in
    let second : char_at (length proto + 1 + 1) s ≡ slash =
      (λ i. char_at (front_of2 proto i) (shape2 proto tail i))
      ∙ char_at-append slash (proto ++ colon ∷ slash ∷ []) tail in
    let test : (ltb (length proto + 1 + 2) (length s)
          && ((char_at (length proto + 1) s == slash)
              && (char_at (length proto + 1 + 1) s == slash)))
        ≡ true =
      rw (first, second)
        (ground
          (arith, length-append pre tail, length-append authority (slash ∷ rest), pre_length)) in
    rw (scan_authority, test, pre_length, find-append slash pre authority rest no_slash) refl

pub scan_directory_none :
    (xs : Text) (ctx : UriContext)
    → length xs < npos
    → scan_directory (xs ++ slash ∷ []) (record { startpos = length xs; context = ctx })
      ≡ record ctx { directory = [] }
unfolding scan_directory
scan_directory_none xs ctx small =
    let test : (ltb (length xs) (length (xs ++ slash ∷ []))
          && (char_at (length xs) (xs ++ slash ∷ []) == slash))
        ≡ true =
      rw (char_at-append slash xs []) (ground (arith, length-append xs (slash ∷ []))) in
    let last : rfind slash (xs ++ slash ∷ []) npos ≡ length xs =
      rfind_last slash xs [] tt (omega (arith, length-append xs (slash ∷ []))) in
    let same : ltb (length xs) (length xs) ≡ false = ground arith in
    rw (scan_directory, test, last, same) refl

pub scan_directory_some :
    (xs dir : Text) (ctx : UriContext)
    → length xs + 1 + length dir < npos
    → scan_directory
        (xs ++ slash ∷ (dir ++ slash ∷ []))
        (record { startpos = length xs; context = ctx })
      ≡ record ctx { directory = dir }
unfolding scan_directory
scan_directory_some xs dir ctx small =
    let s = xs ++ slash ∷ (dir ++ slash ∷ []) in
    let test : (ltb (length xs) (length s) && (char_at (length xs) s == slash)) ≡ true =
      rw (char_at-append slash xs (dir ++ slash ∷ []))
        (ground (arith, length-append xs (slash ∷ (dir ++ slash ∷ [])))) in
    let shape : s ≡ (xs ++ slash ∷ dir) ++ slash ∷ [] =
      sym (append_assoc xs (slash ∷ dir) (slash ∷ [])) in
    let size : length (xs ++ slash ∷ dir) ≡ length xs + 1 + length dir =
      omega (arith, length-append xs (slash ∷ dir)) in
    let last : rfind slash s npos ≡ length xs + 1 + length dir =
      ap (λ t. rfind slash t npos) shape
      ∙ rfind_last slash (xs ++ slash ∷ dir) [] tt
          (omega (arith, length-append (xs ++ slash ∷ dir) (slash ∷ [])))
      ∙ size in
    let more : ltb (length xs) (length xs + 1 + length dir) ≡ true = ground arith in
    let found : substr s (length xs + 1) (length xs + 1 + length dir - length xs - 1) ≡ dir =
      (λ i.
        substr (sym (append_assoc xs (slash ∷ []) (dir ++ slash ∷ [])) i) (front_of xs slash i)
          (length xs + 1 + length dir - length xs - 1))
      ∙ substr-append (xs ++ slash ∷ []) dir (slash ∷ [])
          (length xs + 1 + length dir - length xs - 1) (omega arith) in
    rw (scan_directory, test, last, more, found) refl
