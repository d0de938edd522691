-- ===== src/Transfer/Uri/Order.antt =====
-- The comparisons of `URIContext` and `URI` (libcore/src/transfer/URI.hpp), by which maps are kept.
use sirikata.Base.{
  ◌≡◌, ◌↔◌, refl, sym, ap, ◌∙◌, Bool, true, false, ◌&&◌, [], ◌∷◌, ltb, ◌==◌, if◌then◌else◌, arith,
}
use sirikata.Transfer.Uri.{Text, UriContext, Uri}

-- `operator==` and `operator<` of `std::string`.
unfoldable pub text_eqb : Text → Text → Bool
text_eqb [] [] = true
text_eqb [] (y ∷ ys) = false
text_eqb (x ∷ xs) [] = false
text_eqb (x ∷ xs) (y ∷ ys) = x == y && text_eqb xs ys

unfoldable pub text_less : Text → Text → Bool
text_less [] [] = false
text_less [] (y ∷ ys) = true
text_less (x ∷ xs) [] = false
text_less (x ∷ xs) (y ∷ ys) =
    let rest = text_less xs ys in if ltb x y then true else if ltb y x then false else rest

unfoldable pub context_eqb : UriContext → UriContext → Bool
context_eqb c d =
    text_eqb c.directory d.directory
    && (text_eqb c.host d.host && (text_eqb c.proto d.proto && text_eqb c.user d.user))

unfoldable pub context_less : UriContext → UriContext → Bool
context_less c d =
    if text_eqb c.proto d.proto
    then if text_eqb c.user d.user
      then if text_eqb c.host d.host
        then text_less c.directory d.directory
        else text_less c.host d.host
      else text_less c.user d.user
    else text_less c.proto d.proto

unfoldable pub uri_eqb : Uri → Uri → Bool
uri_eqb u v = text_eqb u.path v.path && context_eqb u.context v.context

unfoldable pub uri_less : Uri → Uri → Bool
uri_less u v =
    if context_eqb u.context v.context
    then text_less u.path v.path
    else context_less u.context v.context

-- A test of equality and a strict total order that fit together.
pub record IsStrictTotal {A : Type 0} (eqb less : A → A → Bool) : Type 0 where
  pub equal : (a b : A) → (eqb a b ≡ true) ↔ (a ≡ b)
  pub irreflexive : (a : A) → less a a ≡ false
  pub transitive : (a b c : A) → less a b ≡ true → less b c ≡ true → less a c ≡ true
  pub total : (a b : A) → less a b ≡ false → less b a ≡ false → a ≡ b

text_eqb→eq : (a b : Text) → text_eqb a b ≡ true → a ≡ b
unfolding text_eqb
text_eqb→eq [] [] h = refl
text_eqb→eq [] (y ∷ ys) h = absurd (cc)
text_eqb→eq (x ∷ xs) [] h = absurd (cc)
text_eqb→eq (x ∷ xs) (y ∷ ys) h = ground (arith, text_eqb→eq xs ys)

text_eqb_self : (a : Text) → text_eqb a a ≡ true
unfolding text_eqb
text_eqb_self [] = refl
text_eqb_self (x ∷ xs) = ground (arith, text_eqb_self xs)

text_less_irreflexive : (a : Text) → text_less a a ≡ false
unfolding text_less
text_less_irreflexive [] = refl
text_less_irreflexive (x ∷ xs) = ground (arith, text_less_irreflexive xs)

text_less_total : (a b : Text) → text_less a b ≡ false → text_less b a ≡ false → a ≡ b
unfolding text_less
text_less_total [] [] h k = refl
text_less_total [] (y ∷ ys) h k = absurd (cc)
text_less_total (x ∷ xs) [] h k = absurd (cc)
text_less_total (x ∷ xs) (y ∷ ys) h k = ground (arith, text_less_total xs ys)

text_less_trans :
    (a b c : Text) → text_less a b ≡ true → text_less b c ≡ true → text_less a c ≡ true
unfolding text_less
text_less_trans [] [] c h k = absurd (cc)
text_less_trans [] (y ∷ ys) [] h k = absurd (cc)
text_less_trans [] (y ∷ ys) (z ∷ zs) h k = refl
text_less_trans (x ∷ xs) [] c h k = absurd (cc)
text_less_trans (x ∷ xs) (y ∷ ys) [] h k = absurd (cc)
text_less_trans (x ∷ xs) (y ∷ ys) (z ∷ zs) h k = ground (arith, text_less_trans xs ys zs)

pub text_order : IsStrictTotal text_eqb text_less
text_order = record {
  equal = λ a b. (text_eqb→eq a b, λ e. ap (text_eqb a) (sym e) ∙ text_eqb_self a);
  irreflexive = text_less_irreflexive;
  transitive = text_less_trans;
  total = text_less_total;
}

-- Pairs in the order of their first components, then of their second.
module _ {A B : Type 0} (eqb_a less_a : A → A → Bool) (eqb_b less_b : B → B → Bool) where
  lex_eqb : A × B → A × B → Bool
  lex_eqb (a, b) (a', b') = eqb_a a a' && eqb_b b b'

  lex : A × B → A × B → Bool
  lex (a, b) (a', b') = if eqb_a a a' then less_b b b' else less_a a a'

  lex_order : IsStrictTotal eqb_a less_a → IsStrictTotal eqb_b less_b → IsStrictTotal lex_eqb lex
  unfolding lex lex_eqb
  lex_order S T = record {
    equal = λ x y. ground (arith, S.equal x.0 y.0, T.equal x.1 y.1);
    irreflexive = λ x. ground (arith, S.irreflexive x.0, T.irreflexive x.1);
    transitive = λ x y z h k. ground (
      arith,
      S.equal x.0 y.0,
      S.equal y.0 z.0,
      S.equal x.0 z.0,
      S.irreflexive x.0,
      S.transitive x.0 y.0 z.0,
      T.transitive x.1 y.1 z.1,
    );
    total = λ x y h k.
        ground (arith, S.equal x.0 y.0, S.equal y.0 x.0, S.total x.0 y.0, T.total x.1 y.1);
  }

abbrev key : UriContext → Text × (Text × (Text × Text))
key c = (c.proto, (c.user, (c.host, c.directory)))

abbrev from_key : Text × (Text × (Text × Text)) → UriContext
from_key (p, (u, (h, d))) = record { proto = p; user = u; host = h; directory = d }

pub context_order : IsStrictTotal context_eqb context_less
unfolding context_eqb context_less lex lex_eqb
context_order =
    let order =
      lex_order _ _ _ _ text_order
        (lex_order _ _ _ _ text_order (lex_order _ _ _ _ text_order text_order)) in
    record {
      equal = λ a b. ground (
        arith,
        text_order.equal a.proto b.proto,
        text_order.equal a.user b.user,
        text_order.equal a.host b.host,
        text_order.equal a.directory b.directory,
      );
      irreflexive = λ a. order.irreflexive (key a);
      transitive = λ a b c. order.transitive (key a) (key b) (key c);
      total = λ a b h k. ap from_key (order.total (key a) (key b) h k);
    }

-- `operator==` of `URI` holds exactly of equal ones, and `operator<` is a strict total order: of two
-- that are not equal exactly one is less. So a map keeps one entry for each URI.
pub uri_order : IsStrictTotal uri_eqb uri_less
unfolding uri_eqb uri_less lex lex_eqb
uri_order =
    let order = lex_order _ _ _ _ context_order text_order in
    record {
      equal = λ u v.
          ground (arith, text_order.equal u.path v.path, context_order.equal u.context v.context);
      irreflexive = λ u. order.irreflexive (u.context, u.path);
      transitive =
          λ u v w. order.transitive (u.context, u.path) (v.context, v.path) (w.context, w.path);
      total = λ u v h k.
          let same = order.total (u.context, u.path) (v.context, v.path) h k in
          ground (arith, ap (λ p. p.0) same, ap (λ p. p.1) same);
    }
