-- ===== src/Network/TcpStream/Tests.antt =====
-- A stream over two connections is cloned and closed (libcore/src/network/TCPStream.cpp).
use sirikata.Base.{ℕ, ◌≡◌, refl, Bool, true, false, Option, none, some, List, [], ◌∷◌, ◌++◌, arith}
use sirikata.Network.Frame.{close_stream, construct_control_packet}
use sirikata.Network.MultiplexedSocket.{Socket, connected, add_callbacks, raw_send_all, member}
use sirikata.Network.MultiplexedSocket.Ids.{IdsValid}
use sirikata.Network.TcpStream.{
  StreamReliability, TcpStream, connect, clone_from, send, close, close_send_status,
}
use sirikata.Network.TcpStream.Life.{IsCloned, clone_each, close-send, clone_from-send}

abbrev same_number : ℕ → ℕ
same_number k = k

abbrev keep_all : ℕ → Bool
keep_all k = true

-- The stream that `connect` makes, and its socket once the connection is there.
abbrev stream : TcpStream
unfolding connect
stream = (connect 70).0

abbrev live_socket : Socket
unfolding connect add_callbacks
live_socket = record (connect 70).1 { phase = connected }

abbrev none_given : ℕ → Bool
none_given k = false

live_socket-IdsValid : IdsValid none_given live_socket
unfolding member connect add_callbacks
live_socket-IdsValid = record {
  different = tt;
  unused = λ k f. refl;
  own = λ k c. absurd (ground arith);
}

clone_from-send_example :
    IsCloned same_number same_number keep_all none_given 80 live_socket
      (clone_from (some stream) 80 (record stream { attached = false }) live_socket)
unfolding live_socket stream
clone_from-send_example =
    clone_from-send same_number same_number keep_all none_given stream
      (record stream { attached = false }) 80 live_socket live_socket-IdsValid (omega arith) refl
      refl refl

close-send_example :
    (s' : TcpStream) × (m' : Socket) × (close same_number same_number keep_all stream live_socket
      ≡ some (s', m'))
    × (m'.sent ≡ [] ++ raw_send_all 3 (construct_control_packet close_stream 1))
    × (m'.registrations ≡ ((1, some 70) ∷ []) ++ (1, none) ∷ [])
    × ((clones : List (Option TcpStream × ℕ × Socket)) (reliability : StreamReliability)
          (chunk : List ℕ) (later : Socket)
        → let s2 = clone_each clones s' in
          send same_number same_number keep_all reliability chunk s2 later ≡ (s2, later))
unfolding live_socket stream
close-send_example = close-send same_number same_number keep_all stream live_socket refl refl

-- With a send under way the loop of `closeSendStatus` does not end by itself.
waits_for_send : close_send_status 1 ≡ none
unfolding close_send_status
waits_for_send = refl
