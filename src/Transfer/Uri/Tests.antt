-- ===== src/Transfer/Uri/Tests.antt =====
-- One URI, printed and parsed (libcore/src/transfer/URI.hpp).
use sirikata.Base.{ℕ, ◌+◌, ◌≡◌, refl, Bool, ◌&&◌, [], ◌∷◌, leb, ◌==◌, if◌then◌else◌, arith}
use sirikata.Transfer.Uri.{
  char_at, UriContext, Uri, uri_to_string, to_string, find_slash, find, rfind, cleanup,
}
use sirikata.Transfer.Uri.RoundTrip.{IsCanonical}
use sirikata.Transfer.Uri.Whole.{find_slash-uri_to_string}

abbrev tolower : ℕ → ℕ
tolower c = if leb 65 c && leb c 90 then c + 32 else c

abbrev isspace : ℕ → Bool
isspace c = c == 32

-- http://me@h.net/d/f
abbrev file : Uri
file = record {
  context = record {
    proto = 104 ∷ 116 ∷ 116 ∷ 112 ∷ [];
    user = 109 ∷ 101 ∷ [];
    host = 104 ∷ 46 ∷ 110 ∷ 101 ∷ 116 ∷ [];
    directory = 100 ∷ [];
  };
  path = 102 ∷ [];
}

abbrev nowhere : UriContext
nowhere = record { proto = []; user = []; host = []; directory = [] }

file-IsCanonical : IsCanonical tolower isspace file.context
unfolding cleanup
file-IsCanonical = record {
  proto_no_colon = (refl, (refl, (refl, (refl, tt))));
  proto_no_slash = (refl, (refl, (refl, (refl, tt))));
  user_no_slash = (refl, (refl, tt));
  host_no_slash = (refl, (refl, (refl, (refl, (refl, tt)))));
  host_no_at = (refl, (refl, (refl, (refl, (refl, tt)))));
  host_some = omega arith;
  proto_clean = refl;
  host_clean = refl;
  small = omega arith;
}

find_slash-uri_to_string_example : find_slash tolower isspace nowhere (uri_to_string file) ≡ file
unfolding char_at uri_to_string to_string
find_slash-uri_to_string_example =
    find_slash-uri_to_string tolower isspace file nowhere file-IsCanonical (refl, tt) refl
      (omega arith)

-- http://h/a//f has no file name, but the directory a//f.
double_slash :
    (find_slash tolower isspace nowhere
      (104 ∷ 116 ∷ 116 ∷ 112 ∷ 58 ∷ 47 ∷ 47 ∷ 104 ∷ 47 ∷ 97 ∷ 47 ∷ 47 ∷ 102 ∷ [])).path
    ≡ []
unfolding find_slash char_at rfind find
double_slash = refl
