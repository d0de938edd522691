-- ===== src/Network/Handshake/Tests.antt =====
-- Three sockets to one host (libcore/src/network/ASIOConnectAndHandshake.cpp).
use sirikata.Base.{
  ℕ, ◌≡◌, refl, ◌&&◌, none, some, List, [], ◌∷◌, length, ltb, ◌==◌, if◌then◌else◌, arith,
}
use sirikata.Base.Int.{◌-ℤ◌}
use sirikata.Network.Handshake.{
  connection_failed, read_buffer, Outcome, header, unreachable, check_header_contents,
  no_address_left, connect_to_ip_address, finish_socket, finish_all, initial,
}
use sirikata.Network.Handshake.Agreement.{times_connected, times_failed, agree, finish_all-agree}

abbrev results : List (ℕ × Outcome)
results = (2, header 7) ∷ (0, header 7) ∷ (1, header 7) ∷ []

finish_all-agree_example :
    let log = (finish_all 3 results (initial 3)).log in
    (times_connected log ≡ (if agree results && length results == 3 then 1 else 0))
    × (times_failed log ≡ (if agree results then 0 else 1))
finish_all-agree_example = finish_all-agree 3 results (omega arith) (omega arith)

one_differs :
    (finish_all 3 ((2, header 7) ∷ (0, header 8) ∷ (1, unreachable) ∷ []) (initial 3)).log
    ≡ connection_failed 0 ∷ read_buffer 2 ∷ []
unfolding finish_all finish_socket check_header_contents no_address_left ◌-ℤ◌
one_differs = refl

-- The second address answers.
second_address :
    connect_to_ip_address (λ a. if ltb a 5 then none else some 7) (4 ∷ 6 ∷ 8 ∷ []) ≡ header 7
unfolding connect_to_ip_address
second_address = refl
