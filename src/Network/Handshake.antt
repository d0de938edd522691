-- ===== src/Network/Handshake.antt =====
-- `ASIOConnectAndHandshake` (libcore/src/network/ASIOConnectAndHandshake.cpp): the side that
-- connects opens several sockets to one host, and counts down until all have brought the same
-- header. A header is the number of its 24 bytes. The count is a C++ `int`, here a number without a
-- bound.
use sirikata.Base.{
  ℕ, zero, suc, ◌+◌, ◌≡◌, Bool, true, false, not, ◌&&◌, Option, none, some, List, [], ◌∷◌, ltb,
  ◌==◌, if◌then◌else◌,
}
use sirikata.Base.Int.{ℤ, pos, pos_part, neg_part, ◌-ℤ◌}
pub mod Agreement
mod Tests

-- `connectedCallback`, `connectionFailedCallback` for a socket, and `MakeASIOReadBuffer`.
pub data Act : Type 0 where
  connected : Act
  connection_failed : ℕ → Act
  read_buffer : ℕ → Act

-- The log has the newest call first.
pub record Handshake : Type 0 where
  pub finished_check_count : ℤ
  pub first_received_header : ℕ
  pub log : List Act

abbrev pub is_int : ℤ → ℕ → Bool
is_int a n = pos_part a == n && neg_part a == 0

abbrev pub is_positive : ℤ → Bool
is_positive a = ltb 0 (pos_part a)

-- What `checkHeaderContents` does while the count is positive.
abbrev pub compare_header : ℕ → ℕ → ℕ → Handshake → Handshake
compare_header sockets which buffer h =
    let less = h.finished_check_count -ℤ pos 1 in
    if not (h.first_received_header == buffer)
    then record h {
      finished_check_count = h.finished_check_count -ℤ pos sockets -ℤ pos 1;
      log = connection_failed which ∷ h.log;
    }
    else record h {
      finished_check_count = less;
      log = read_buffer which ∷ (if is_int less 0 then connected ∷ h.log else h.log);
    }

unfoldable pub check_header_contents : ℕ → ℕ → ℕ → Handshake → Handshake
check_header_contents sockets which buffer h =
    let first = if is_int h.finished_check_count sockets then buffer else h.first_received_header in
    let h' : Handshake = record h { first_received_header = first } in
    if is_positive h.finished_check_count
    then compare_header sockets which buffer h'
    else record h' { finished_check_count = h.finished_check_count -ℤ pos 1 }

-- `connectToIPAddress` when the last address of a socket has failed.
unfoldable pub no_address_left : ℕ → ℕ → Handshake → Handshake
no_address_left sockets which h =
    if is_positive h.finished_check_count
    then record h {
      finished_check_count = h.finished_check_count -ℤ pos sockets -ℤ pos 1;
      log = connection_failed which ∷ h.log;
    }
    else record h { finished_check_count = h.finished_check_count -ℤ pos 1 }

-- What comes of one socket.
pub data Outcome : Type 0 where
  header : ℕ → Outcome
  unreachable : Outcome

-- The calls of `connectToIPAddress` for one socket over the addresses that the host has: the header
-- is read from the first that can be connected to.
unfoldable pub connect_to_ip_address : (ℕ → Option ℕ) → List ℕ → Outcome
connect_to_ip_address connects [] = unreachable
connect_to_ip_address connects (address ∷ addresses) =
    let next = connect_to_ip_address connects addresses in
    elim (connects address) [ none ↦ next | some h ↦ header h ]

unfoldable pub finish_socket : ℕ → ℕ → Outcome → Handshake → Handshake
finish_socket sockets which (header buffer) h = check_header_contents sockets which buffer h
finish_socket sockets which unreachable h = no_address_left sockets which h

-- The sockets in the order in which they are done.
unfoldable pub finish_all : ℕ → List (ℕ × Outcome) → Handshake → Handshake
finish_all sockets [] h = h
finish_all sockets ((which, outcome) ∷ results) h =
    finish_all sockets results (finish_socket sockets which outcome h)

-- The constructor.
abbrev pub initial : ℕ → Handshake
initial sockets = record { finished_check_count = pos sockets; first_received_header = 0; log = [] }
