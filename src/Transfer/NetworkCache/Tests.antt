-- ===== src/Transfer/NetworkCache/Tests.antt =====
-- A request that the second service serves (libcore/src/transfer/NetworkCacheLayer.hpp).
use sirikata.Base.{ℕ, ◌+◌, ◌≡◌, refl, true, false, none, some, [], ◌∷◌, ltb, if◌then◌else◌, arith}
use sirikata.Base.Assoc.{lookup, has}
use sirikata.Transfer.Range.{Range}
use sirikata.Transfer.Sparse.{DenseData}
use sirikata.Transfer.Uri.{UriContext}
use sirikata.Transfer.FileId.{RemoteFileId}
use sirikata.Transfer.Services.{ListOfServices, Registry}
use sirikata.Transfer.NetworkCache.{
  for_services, RequestInfo, Layer, got_services, get_data, request, start_layer, Reach, start,
  later,
}
use sirikata.Transfer.NetworkCache.Once.{ends, ends_once}
use sirikata.Transfer.NetworkCache.Rounds.{Answers, serve, outcome, ended}
use sirikata.Transfer.NetworkCache.Outcome.{serve-got_services}

abbrev server : UriContext
server = record { proto = 104 ∷ []; host = 115 ∷ []; user = []; directory = [] }

abbrev registry : Registry ℕ
registry = record {
  handlers = (104 ∷ [], (104 ∷ [], some 5)) ∷ [];
  services = none;
  allow_non_service = true;
}

abbrev file : RemoteFileId
file = record { fingerprint = 9; uri = record { context = server; path = 102 ∷ [] } }

abbrev range : Range
range = record { start = 0; length = 2; whole_file = false }

abbrev piece : DenseData
piece = record { range = range; bytes = 1 ∷ 2 ∷ [] }

abbrev mirrors : ListOfServices
mirrors = (server, []) ∷ (server, []) ∷ []

abbrev answers : Answers
answers k = if ltb k 1 then (none, false) else (some piece, true)

abbrev info : RequestInfo
info = record { file = file; range = range; services = none; waiting = for_services }

abbrev layer : Layer
layer = record start_layer { active = (0, info) ∷ []; next_request = 1 }

layer-Reach : Reach (λ c. c) (λ c. false) registry layer
unfolding get_data
layer-Reach = later start (request file range)

ends_once_example :
    ends 0 layer.log + (if has 0 layer.active then 1 else 0)
    ≡ (if ltb 0 layer.next_request then 1 else 0)
ends_once_example = ends_once (λ c. c) (λ c. false) registry {m = layer} 0 layer-Reach

serve-got_services_example :
    serve
      (λ c. c)
      (λ c. false)
      registry
      2
      answers
      0
      (got_services (λ c. c) (λ c. false) registry 0 info (some mirrors) layer)
    ≡ ended 0 (outcome (λ c. c) (λ c. false) registry answers 0 file mirrors 0 []) layer
unfolding lookup has
serve-got_services_example =
    serve-got_services (λ c. c) (λ c. false) registry answers 0 2 info mirrors layer (omega arith)
      refl refl (refl, tt)
