-- ===== src/Network/StreamBuilder/Tests.antt =====
-- Two clients that connect at the same time (libcore/src/network/ASIOStreamBuilder.cpp).
use sirikata.Base.{◌≡◌, refl, none, List, [], ◌∷◌, ◌++◌, replicate, arith}
use sirikata.Network.StreamBuilder.{
  Bytes, Builder, copy_header, num_connections, find_or_add, add_socket, build_stream,
}
use sirikata.Network.StreamBuilder.Gather.{
  Arrival, arrive_all, sockets_of, built_for, arrive_all-built_for,
}

abbrev first : Bytes
first = replicate 16 1

abbrev second : Bytes
second = replicate 16 2

abbrev no_streams : Builder
no_streams = record { incomplete = λ key. none; stale = []; built = [] }

abbrev arrivals : List Arrival
arrivals =
    record { key = first; num = 2; socket = 7 }
    ∷ record { key = second; num = 1; socket = 8 }
    ∷ record { key = first; num = 2; socket = 9 }
    ∷ []

arrivals-built :
    (arrive_all arrivals no_streams).built
    ≡ record { context = second; members = 8 ∷ [] }
      ∷ record { context = first; members = 7 ∷ 9 ∷ [] }
      ∷ []
unfolding build_stream add_socket find_or_add num_connections copy_header
arrivals-built = refl

arrive_all-built_for_example :
    ((arrive_all arrivals no_streams).incomplete first ≡ none)
    × (built_for first (arrive_all arrivals no_streams).built
        ≡ built_for first no_streams.built ++ sockets_of first arrivals ∷ [])
arrive_all-built_for_example =
    arrive_all-built_for first arrivals no_streams
      (
        omega arith,
        (λ own. (refl, refl)),
        (omega arith, (λ own. absurd (ground arith)), (omega arith, (λ own. (refl, refl)), tt)),
      )
      refl (omega arith)
