-- ===== src/Transfer/Services/Tests.antt =====
-- A chain of a cache and the options (libcore/src/transfer/ServiceLookup.hpp).
use sirikata.Base.{◌≡◌, refl, some, List, [], ◌∷◌, map}
use sirikata.Transfer.Uri.{UriContext}
use sirikata.Transfer.Uri.Order.{text_less}
use sirikata.Transfer.Services.{
  find, assign, insert, ListOfServices, Lookup, cached, options, add_to_cache, cached_services,
  lookup_service, get_param, set_param,
}
use sirikata.Transfer.Services.Chain.{answer, IsCoherent, run, run-answer}

abbrev server : UriContext
server = record { proto = 104 ∷ []; host = 115 ∷ []; user = []; directory = [] }

abbrev other : UriContext
other = record { proto = 104 ∷ []; host = 116 ∷ []; user = []; directory = [] }

abbrev offers : ListOfServices
offers = (server, []) ∷ []

abbrev chain : List Lookup
chain = cached [] ∷ options (λ c. some offers) ∷ []

chain-IsCoherent : IsCoherent chain
unfolding cached_services find
chain-IsCoherent = (λ c e. absurd (e refl), tt)

run-answer_example :
    run (server ∷ other ∷ server ∷ []) chain
    ≡ map (λ c. answer c chain) (server ∷ other ∷ server ∷ [])
run-answer_example = run-answer (server ∷ other ∷ server ∷ []) chain chain-IsCoherent

-- The first lookup fills the cache.
lookup_service_fills :
    lookup_service server [] chain
    ≡ (some offers, cached ((server, some offers) ∷ []) ∷ options (λ c. some offers) ∷ [])
unfolding lookup_service cached_services find add_to_cache insert
lookup_service_fills = refl

get_param_again : get_param (1 ∷ []) (set_param (1 ∷ []) (7 ∷ []) ((1 ∷ [], 5 ∷ []) ∷ [])) ≡ 7 ∷ []
unfolding get_param set_param assign find text_less
get_param_again = refl
