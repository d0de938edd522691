-- ===== src/Transfer/Uri/RoundTrip.antt =====
-- A printed `URI` is parsed back (libcore/src/transfer/URI.hpp).
use sirikata.Base.{
  ℕ, ◌+◌, ◌-◌, ◌<◌, ◌≡◌, refl, sym, ap, subst, ◌∙◌, Bool, true, false, not, ◌&&◌, [], ◌∷◌, ◌++◌,
  ◌==◌, if◌then◌else◌, length, length-append, arith, append_assoc,
}
use sirikata.Transfer.Uri.{
  Text, colon, slash, at_sign, npos, char_at, with_slash, UriContext, scan_proto, scan_user,
  scan_authority, scan_directory, empty, to_string, cleanup, cleaned, parse,
}
use sirikata.Transfer.Uri.Search.{Lacks, Lacks-append, char_at-append}
use sirikata.Transfer.Uri.Stages.{
  before_authority, scan_proto_lem, scan_user_none, scan_user_some, scan_authority_lem,
  scan_directory_none, scan_directory_some,
}

abbrev pub user_part : Text → Text
user_part user = if empty user then [] else user ++ at_sign ∷ []

abbrev pub authority : UriContext → Text
authority ctx = user_part ctx.user ++ ctx.host

abbrev pub directory_part : Text → Text
directory_part [] = []
directory_part (c ∷ cs) = (c ∷ cs) ++ slash ∷ []

abbrev pub printed : UriContext → Text
printed ctx = before_authority ctx.proto ++ (authority ctx ++ slash ∷ directory_part ctx.directory)

-- A context whose parts are told apart by the characters between them, and are clean.
pub record IsCanonical (tolower : ℕ → ℕ) (isspace : ℕ → Bool) (ctx : UriContext) : Type 0 where
  pub proto_no_colon : Lacks colon ctx.proto
  pub proto_no_slash : Lacks slash ctx.proto
  pub user_no_slash : Lacks slash ctx.user
  pub host_no_slash : Lacks slash ctx.host
  pub host_no_at : Lacks at_sign ctx.host
  pub host_some : 0 < length ctx.host
  pub proto_clean : cleanup tolower isspace ctx.proto ≡ ctx.proto
  pub host_clean : cleanup tolower isspace ctx.host ≡ ctx.host
  pub small : length (printed ctx) < npos

printed_lem :
    (proto user host dir tail : Text)
    → (((proto ++ colon ∷ slash ∷ slash ∷ user) ++ host) ++ dir) ++ tail
      ≡ before_authority proto ++ ((user ++ host) ++ (dir ++ tail))
printed_lem proto user host dir tail =
    append_assoc ((proto ++ colon ∷ slash ∷ slash ∷ user) ++ host) dir tail
    ∙ append_assoc (proto ++ colon ∷ slash ∷ slash ∷ user) host (dir ++ tail)
    ∙ ap (λ t. t ++ (host ++ (dir ++ tail)))
        (sym (append_assoc proto (colon ∷ slash ∷ slash ∷ []) user))
    ∙ append_assoc (before_authority proto) user (host ++ (dir ++ tail))
    ∙ ap (λ t. before_authority proto ++ t) (sym (append_assoc user host (dir ++ tail)))

pub to_string-printed : (ctx : UriContext) → to_string ctx true ≡ printed ctx
unfolding to_string
to_string-printed ctx = on_directory ctx.directory
  where
    on_directory :
        (dir : Text)
        → to_string (record ctx { directory = dir }) true ≡ printed (record ctx { directory = dir })
    on_directory [] = printed_lem ctx.proto (user_part ctx.user) ctx.host [] (slash ∷ [])
    on_directory (c ∷ cs) =
        printed_lem ctx.proto (user_part ctx.user) ctx.host (slash ∷ c ∷ cs) (slash ∷ [])

authority-slash :
    (ctx : UriContext) → Lacks slash ctx.user → Lacks slash ctx.host → Lacks slash (authority ctx)
authority-slash ctx user host =
    Lacks-append slash (user_part ctx.user) ctx.host (on_user ctx.user user) host
  where
    on_user : (user : Text) → Lacks slash user → Lacks slash (user_part user)
    on_user [] h = tt
    on_user (c ∷ cs) h = Lacks-append slash (c ∷ cs) (at_sign ∷ []) h (refl, tt)

scan_user-authority :
    (pre rest : Text) (ctx old : UriContext)
    → Lacks at_sign ctx.host
    → 0 < length ctx.host
    → length pre + length (authority ctx) < npos
    → scan_user
        (pre ++ (authority ctx ++ slash ∷ rest))
        (length pre)
        (length pre + length (authority ctx))
        old
      ≡ record old { user = ctx.user; host = ctx.host }
scan_user-authority pre rest ctx old no_at more small = on_user ctx.user small
  where
    on_user :
        (user : Text)
        → (let ctx' : UriContext = record ctx { user = user } in
            length pre + length (authority ctx') < npos
            → scan_user
                (pre ++ (authority ctx' ++ slash ∷ rest))
                (length pre)
                (length pre + length (authority ctx'))
                old
              ≡ record old { user = user; host = ctx.host })
    on_user [] small = scan_user_none pre ctx.host rest old no_at more small
    on_user (c ∷ cs) small =
        let user = c ∷ cs in
        let host = ctx.host in
        let ends : length pre + length ((user ++ at_sign ∷ []) ++ host)
            ≡ length pre + length user + 1 + length host =
          omega
            (arith, length-append (user ++ at_sign ∷ []) host, length-append user (at_sign ∷ [])) in
        let shape : (((user ++ at_sign ∷ []) ++ host) ++ slash ∷ rest)
            ≡ user ++ at_sign ∷ (host ++ slash ∷ rest) =
          append_assoc (user ++ at_sign ∷ []) host (slash ∷ rest)
          ∙ append_assoc user (at_sign ∷ []) (host ++ slash ∷ rest) in
        (λ i. scan_user (pre ++ shape i) (length pre) (ends i) old)
        ∙ scan_user_some pre user host rest old no_at (omega arith) more
            (omega (arith, small, ends))

scan_directory-part :
    (xs dir : Text) (ctx : UriContext)
    → length (xs ++ slash ∷ directory_part dir) < npos
    → scan_directory
        (xs ++ slash ∷ directory_part dir)
        (record { startpos = length xs; context = ctx })
      ≡ record ctx { directory = dir }
scan_directory-part xs [] ctx small =
    scan_directory_none xs ctx (omega (arith, length-append xs (slash ∷ [])))
scan_directory-part xs (c ∷ cs) ctx small = scan_directory_some xs (c ∷ cs) ctx (
    omega (
      arith,
      length-append xs (slash ∷ ((c ∷ cs) ++ slash ∷ [])),
      length-append (c ∷ cs) (slash ∷ []),
    ))

with_slash_lem : (xs : Text) → with_slash (xs ++ slash ∷ []) ≡ xs ++ slash ∷ []
unfolding with_slash
with_slash_lem xs =
    let s = xs ++ slash ∷ [] in
    let last : length s - 1 ≡ length xs = omega (arith, length-append xs (slash ∷ [])) in
    let ends : char_at (length s - 1) s ≡ slash =
      ap (λ i. char_at i s) last ∙ char_at-append slash xs [] in
    let test : (not (empty s) && not (char_at (length s - 1) s == slash)) ≡ false = ground arith in
    rw (with_slash, test) refl

-- A printed context ends with a slash.
printed_ends : (ctx : UriContext) → (xs : Text) × (printed ctx ≡ xs ++ slash ∷ [])
printed_ends ctx = on_directory ctx.directory
  where
    front : Text
    front = before_authority ctx.proto ++ authority ctx

    on_directory :
        (dir : Text)
        → (xs : Text) × (before_authority ctx.proto ++ (authority ctx ++ slash ∷ directory_part dir)
            ≡ xs ++ slash ∷ [])
    on_directory [] = (
      before_authority ctx.proto ++ authority ctx,
      sym (append_assoc (before_authority ctx.proto) (authority ctx) (slash ∷ [])),
    )
    on_directory (c ∷ cs) = (
      (before_authority ctx.proto ++ authority ctx) ++ slash ∷ c ∷ cs,
      sym (
            append_assoc (before_authority ctx.proto) (authority ctx)
              (slash ∷ ((c ∷ cs) ++ slash ∷ [])))
          ∙ sym (
              append_assoc (before_authority ctx.proto ++ authority ctx) (slash ∷ c ∷ cs)
                (slash ∷ [])),
    )

sizes :
    (ctx : UriContext)
    → length (printed ctx)
      ≡ length (before_authority ctx.proto)
        + length (authority ctx)
        + 1
        + length (directory_part ctx.directory)
sizes ctx = omega (
  arith,
  length-append (before_authority ctx.proto)
      (authority ctx ++ slash ∷ directory_part ctx.directory),
  length-append (authority ctx) (slash ∷ directory_part ctx.directory),
)

module _ (tolower : ℕ → ℕ) (isspace : ℕ → Bool) where
  pub parse-printed :
      (ctx parent : UriContext)
      → IsCanonical tolower isspace ctx
      → parse tolower isspace (printed ctx) parent ≡ ctx
  unfolding parse cleaned
  parse-printed ctx parent h =
      let s = printed ctx in
      let pre = before_authority ctx.proto in
      let tail = authority ctx ++ slash ∷ directory_part ctx.directory in
      let whole : with_slash s ≡ s =
        let (xs, ends) = printed_ends ctx in ap with_slash ends ∙ with_slash_lem xs ∙ sym ends in
      let pre_length : length pre ≡ length ctx.proto + 3 =
        omega (arith, length-append ctx.proto (colon ∷ slash ∷ slash ∷ [])) in
      let first : scan_proto s parent ≡ record {
        startpos = length ctx.proto + 1;
        context = record parent { proto = ctx.proto; user = [] };
      } =
        ap (λ t. scan_proto t parent) (append_assoc ctx.proto (colon ∷ slash ∷ slash ∷ []) tail)
        ∙ scan_proto_lem ctx.proto (slash ∷ tail) parent h.proto_no_colon h.proto_no_slash
            (omega (arith, h.small, sizes ctx, pre_length)) in
      let old : UriContext = record parent { proto = ctx.proto; user = [] } in
      let second : scan_authority s (scan_proto s parent) ≡ record {
        startpos = length pre + length (authority ctx);
        context = record old { user = ctx.user; host = ctx.host };
      } =
        ap (scan_authority s) first
        ∙ scan_authority_lem ctx.proto (authority ctx) (directory_part ctx.directory) old
            (authority-slash ctx h.user_no_slash h.host_no_slash)
        ∙ ap (λ c. record { startpos = length pre + length (authority ctx); context = c })
            (scan_user-authority pre (directory_part ctx.directory) ctx old h.host_no_at h.host_some
              (omega (arith, h.small, sizes ctx))) in
      let shape : s ≡ (pre ++ authority ctx) ++ slash ∷ directory_part ctx.directory =
        sym (append_assoc pre (authority ctx) (slash ∷ directory_part ctx.directory)) in
      let third : scan_directory s (scan_authority s (scan_proto s parent)) ≡ ctx =
        ap (scan_directory s) second
        ∙ (λ i. scan_directory (shape i) (record {
          startpos = sym (length-append pre (authority ctx)) i;
          context = record old { user = ctx.user; host = ctx.host };
        }))
        ∙ scan_directory-part (pre ++ authority ctx) ctx.directory
            (record old { user = ctx.user; host = ctx.host })
            (subst (λ t. length t < npos) shape h.small) in
      (λ i.
        cleaned tolower isspace
          (scan_directory (whole i) (scan_authority (whole i) (scan_proto (whole i) parent))))
      ∙ ap (cleaned tolower isspace) third
      ∙ (λ i. record ctx { proto = h.proto_clean i; host = h.host_clean i })
