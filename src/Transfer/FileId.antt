-- ===== src/Transfer/FileId.antt =====
-- `RemoteFileId` (libcore/src/transfer/URI.hpp): the SHA-256 value of a file, and where it can be
-- had.
use sirikata.Base.{ℕ, ◌+◌, ◌*◌, Option, none, some, List, [], ◌∷◌}
use sirikata.Transfer.Uri.{Uri}
use sirikata.Util.Sha256.{convert_from_hex}

pub record RemoteFileId : Type 0 where
  pub fingerprint : ℕ
  pub uri : Uri

-- The number that the bytes of a hash value stand for, after those read before.
abbrev number : ℕ → List ℕ → ℕ
number read [] = read
number read (b ∷ bytes) = number (read * 256 + b) bytes

-- The constructor from a URI whose file name is the hash value; `none` is the exception.
unfoldable pub file_id_of : Uri → Option RemoteFileId
file_id_of uri = elim (convert_from_hex uri.path) [
  | none ↦ none
  | some bytes ↦ some (record { fingerprint = number 0 bytes; uri = uri })
]
