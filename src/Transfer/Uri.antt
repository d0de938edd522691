-- ===== src/Transfer/Uri.antt =====
-- `URIContext` and `URI` (libcore/src/transfer/URI.hpp). A string is a list of character codes;
-- `npos` is the position where nothing is found. The locale's `tolower` and `isspace` are
-- parameters.
use sirikata.Base.{
  ℕ, zero, suc, ◌+◌, ◌-◌, ◌^◌, ◌<◌, ◌≡◌, Bool, true, false, not, ◌&&◌, ◌||◌, Option, none, some,
  List, [], ◌∷◌, ◌++◌, map, ltb, ◌==◌, if◌then◌else◌, length, drop, take, get_elem?,
}
pub mod Search
pub mod Stages
pub mod RoundTrip
pub mod Whole
pub mod Order
mod Tests

abbrev pub Text : Type 0
Text = List ℕ

abbrev pub colon : ℕ
colon = 58

abbrev pub slash : ℕ
slash = 47

abbrev pub at_sign : ℕ
at_sign = 64

abbrev pub npos : ℕ
npos = 2 ^ 64 - 1

abbrev pub empty : Text → Bool
empty [] = true
empty (c ∷ cs) = false

abbrev pub index_of : ℕ → Text → Option ℕ
index_of c [] = none
index_of c (x ∷ xs) =
    if x == c then some 0 else elim (index_of c xs) [ none ↦ none | some i ↦ some (suc i) ]

abbrev pub last_index_of : ℕ → Text → Option ℕ
last_index_of c [] = none
last_index_of c (x ∷ xs) = elim (last_index_of c xs) [
  | none ↦ if x == c then some 0 else none
  | some i ↦ some (suc i)
]

-- `find` from a position on, and `rfind` up to one.
unfoldable pub find : ℕ → Text → ℕ → ℕ
find c s pos = elim (index_of c (drop pos s)) [ none ↦ npos | some i ↦ pos + i ]

unfoldable pub rfind : ℕ → Text → ℕ → ℕ
rfind c s pos = elim (last_index_of c (take (pos + 1) s)) [ none ↦ npos | some i ↦ i ]

abbrev pub substr : Text → ℕ → ℕ → Text
substr s pos n = take n (drop pos s)

-- A character that is read where the length has been tested.
unfoldable pub char_at : ℕ → Text → ℕ
char_at i s = elim (get_elem? s i) [ none ↦ 0 | some c ↦ c ]

unfoldable pub with_slash : Text → Text
with_slash s =
    if not (empty s) && not (char_at (length s - 1) s == slash) then s ++ slash ∷ [] else s

pub record UriContext : Type 0 where
  pub proto : Text
  pub host : Text
  pub user : Text
  pub directory : Text

-- The parse of a context has come to `startpos`.
pub record Scan : Type 0 where
  pub startpos : ℕ
  pub context : UriContext

unfoldable pub scan_proto : Text → UriContext → Scan
scan_proto s ctx =
    let colonpos = find colon s 0 in
    let firstslashpos = find slash s 0 in
    if not (colonpos == npos) && (firstslashpos == npos || ltb colonpos firstslashpos)
    then record {
      startpos = colonpos + 1;
      context = record ctx { proto = substr s 0 colonpos; user = [] };
    }
    else record { startpos = 0; context = ctx }

-- The host in what follows the user, up to the next slash.
unfoldable pub scan_host : Text → ℕ → ℕ → UriContext → UriContext
scan_host s beginpos slashpos ctx =
    if slashpos == beginpos
    then ctx
    else if slashpos == npos
    then record ctx { host = drop beginpos s }
    else record ctx { host = substr s beginpos (slashpos - beginpos) }

unfoldable pub scan_user : Text → ℕ → ℕ → UriContext → UriContext
scan_user s beginpos slashpos ctx =
    let atpos = rfind at_sign s slashpos in
    if not (atpos == npos) && (ltb beginpos atpos && ltb atpos slashpos)
    then scan_host s (atpos + 1) slashpos
        (record ctx { user = substr s beginpos (atpos - beginpos) })
    else scan_host s beginpos slashpos (record ctx { user = [] })

unfoldable pub scan_authority : Text → Scan → Scan
scan_authority s scan =
    let pos = scan.startpos in
    let slashpos = find slash s (pos + 2) in
    if ltb (pos + 2) (length s) && ((char_at pos s == slash) && (char_at (pos + 1) s == slash))
    then record { startpos = slashpos; context = scan_user s (pos + 2) slashpos scan.context }
    else scan

unfoldable pub scan_directory : Text → Scan → UriContext
scan_directory s scan =
    let pos = scan.startpos in
    let ctx = scan.context in
    let lastdir = rfind slash s npos in
    if ltb pos (length s) && (char_at pos s == slash)
    then record ctx {
      directory = if ltb pos lastdir then substr s (pos + 1) (lastdir - pos - 1) else [];
    }
    else if not (lastdir == npos) && ltb pos lastdir
    then record ctx {
      directory =
          if empty ctx.directory
          then substr s pos (lastdir - pos)
          else ctx.directory ++ slash ∷ substr s pos (lastdir - pos);
    }
    else ctx

pub record Uri : Type 0 where
  pub context : UriContext
  pub path : Text

-- `URIContext::toString`.
unfoldable pub to_string : UriContext → Bool → Text
to_string ctx trailing_slash =
    ctx.proto
    ++ colon ∷ slash ∷ slash ∷ (if empty ctx.user then [] else ctx.user ++ at_sign ∷ [])
    ++ ctx.host
    ++ (if empty ctx.directory then [] else slash ∷ ctx.directory)
    ++ (if trailing_slash then slash ∷ [] else [])

-- `URI::toString`.
unfoldable pub uri_to_string : Uri → Text
uri_to_string uri = to_string uri.context true ++ uri.path

module _ (tolower : ℕ → ℕ) (isspace : ℕ → Bool) where
  unfoldable pub cleanup : Text → Text
  cleanup [] = []
  cleanup (c ∷ cs) = if isspace (tolower c) then cleanup cs else tolower c ∷ cleanup cs

  unfoldable pub cleaned : UriContext → UriContext
  cleaned ctx = record ctx { proto = cleanup ctx.proto; host = cleanup ctx.host }

  unfoldable pub parse : Text → UriContext → UriContext
  parse identifier ctx =
      let s = with_slash identifier in
      cleaned (scan_directory s (scan_authority s (scan_proto s ctx)))

  -- The constructor of `URI` from a parent and a string.
  unfoldable pub find_slash : UriContext → Text → Uri
  find_slash parent url =
      let last = rfind slash url npos in
      let first_colon = find colon url 0 in
      if not (last == npos)
      then if ltb 0 last
          && ((char_at (last - 1) url == slash)
              && not (ltb 1 last && (char_at (last - 2) url == slash)))
        then record { path = []; context = parse url parent }
        else record { path = drop (last + 1) url; context = parse (substr url 0 (last + 1)) parent }
      else if not (first_colon == npos)
      then record {
        path = drop (first_colon + 1) url;
        context = parse (substr url 0 (first_colon + 1)) parent;
      }
      else record { path = url; context = parent }
