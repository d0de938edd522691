-- ===== src/Network/MultiplexedSocket/Tests.antt =====
-- A `MultiplexedSocket` on concrete requests and packets.
use sirikata.Base.{
  ℕ, suc, ◌<◌, ◌≡◌, refl, Bool, true, false, Option, none, some, List, [], ◌∷◌, ◌++◌, arith, ◌==◌,
}
use sirikata.Base.Assoc.{has, lookup}
use sirikata.Network.Frame.{close_stream, ack_close_stream, control}
use sirikata.Network.MultiplexedSocket.{
  Socket, preconnection, connected, Request, send_closed, told_disconnected, get_new_id, member,
}
use sirikata.Network.MultiplexedSocket.Close.{
  shut_down_closed_stream, finish_close, receive_full_chunk,
}
use sirikata.Network.MultiplexedSocket.Ids.{IdsValid}
use sirikata.Network.MultiplexedSocket.Closing.{
  receive_times, receive_times-finish, get_new_id-both_closed,
}
use sirikata.Network.MultiplexedSocket.Callbacks.{shut_down-told}

abbrev same_number : ℕ → ℕ
same_number k = k

abbrev keep_all : ℕ → Bool
keep_all k = true

abbrev quiet : ℕ → List (ℕ × Option ℕ)
quiet cb = []

abbrev ignored : ℕ → Option ℕ
ignored id = none

-- The side that connects, over two connections.
abbrev fresh_socket : Socket
fresh_socket = record {
  sockets = 2;
  phase = preconnection;
  new_requests = [];
  registrations = [];
  callbacks = [];
  acked = [];
  one_sided = [];
  highest = 1;
  free_ids = [];
  draws = 0;
  sent = [];
  called = [];
}

abbrev live_socket : Socket
live_socket = record fresh_socket { phase = connected; callbacks = (3, 70) ∷ []; highest = 3 }

abbrev data_request : ℕ → ℕ → Request
data_request id byte = record {
  origin = id;
  unordered = false;
  unreliable = false;
  bytes = byte ∷ [];
}

is_three : ℕ → Bool
is_three k = k == 3

live_socket-IdsValid : IdsValid is_three live_socket
unfolding member is_three
live_socket-IdsValid = record {
  different = tt;
  unused = λ k f. absurd (cc);
  own = λ k c. ground arith;
}

receive_times-finish_example :
    ((k : ℕ)
      → k < 1
      → receive_times same_number same_number keep_all quiet ignored
          (suc k)
          0
          (control close_stream 3).payload
          live_socket
        ≡ some (record live_socket { acked = (3, suc k) ∷ [] }))
    × (receive_times same_number same_number keep_all quiet ignored 2 0
          (control close_stream 3).payload
          live_socket
        ≡ finish_close same_number same_number keep_all quiet ignored close_stream 3 live_socket)
unfolding lookup has
receive_times-finish_example =
    receive_times-finish same_number same_number keep_all quiet ignored close_stream 3 1 live_socket
      (λ e. absurd (omega arith)) (omega arith) refl refl

-- The side that connected, over one connection, after it has closed its stream 3.
abbrev closed_socket : Socket
closed_socket = record fresh_socket {
  sockets = 1;
  phase = connected;
  one_sided = 3 ∷ [];
  highest = 3;
}

get_new_id-both_closed_example :
    (m1 m2 : Socket) × (receive_full_chunk same_number same_number keep_all quiet ignored 0
        (control close_stream 3).payload
        closed_socket
      ≡ some m1)
    × (receive_full_chunk same_number same_number keep_all quiet ignored 0
          (control ack_close_stream 3).payload
          m1
        ≡ some m2)
    × ((get_new_id m2).0 ≡ 3)
    × ((get_new_id (get_new_id m2).1).0 ≡ 3)
unfolding lookup has
get_new_id-both_closed_example =
    get_new_id-both_closed same_number same_number keep_all quiet ignored 3 closed_socket
      (λ e. absurd (omega arith)) (omega arith) refl refl refl refl refl refl refl

shut_down-told_example :
    (quiet 70 ≡ []
      → (m' : Socket) × (shut_down_closed_stream same_number same_number keep_all quiet ignored
            close_stream 3 live_socket
          ≡ some m')
        × (lookup 3 m'.callbacks ≡ none)
        × (m'.called ≡ [] ++ send_closed 70 ∷ told_disconnected 70 ∷ []))
    × (quiet 70 ≡ (3, none) ∷ []
        → shut_down_closed_stream same_number same_number keep_all quiet ignored close_stream 3
            live_socket
          ≡ none)
unfolding lookup has
shut_down-told_example =
    shut_down-told same_number same_number keep_all quiet ignored 3 70 live_socket refl (refl, tt)
      refl
