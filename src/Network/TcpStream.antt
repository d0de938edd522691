-- ===== src/Network/TcpStream.antt =====
-- `TCPStream` (libcore/src/network/TCPStream.cpp) over its `MultiplexedSocket`: each call runs
-- alone. The steps of the word `mSendStatus` between threads are those of Network/StreamStatus.
use sirikata.Base.{
  ℕ, ◌+◌, ◌-◌, ◌*◌, ◌%◌, ◌^◌, ◌||◌, Bool, true, false, Option, none, some, List, [], ◌==◌,
  if◌then◌else◌,
}
use sirikata.Network.Frame.{encode, close_stream}
use sirikata.Network.StreamStatus.{send_status_closing, closing}
use sirikata.Network.MultiplexedSocket.{
  Phase, preconnection, disconnected, phase_eq, Request, Socket, add_callbacks, get_new_id,
  send_bytes, send_close,
}
pub mod Life
mod Tests

pub data StreamReliability : Type 0 where
  unreliable_unordered reliable_ordered reliable_unordered : StreamReliability

-- `attached` says whether `mSocket` is there.
pub record TcpStream : Type 0 where
  pub attached : Bool
  pub id : ℕ
  pub send_status : ℕ

-- The switch over the reliability: the flag `unordered`, then `unreliable`.
abbrev pub order_flags : StreamReliability → Bool × Bool
order_flags unreliable_unordered = (true, true)
order_flags reliable_ordered = (false, false)
order_flags reliable_unordered = (true, false)

abbrev pub to_be_sent : StreamReliability → List ℕ → ℕ → Request
to_be_sent reliability chunk id = record {
  origin = id;
  unordered = (order_flags reliability).0;
  unreliable = (order_flags reliability).1;
  bytes = encode (record { stream = id; payload = chunk });
}

-- `closeSendStatus` while no other thread is in `send`: the word that ends the wait, or `none` when
-- the loop never ends.
unfoldable pub close_send_status : ℕ → Option ℕ
close_send_status status =
    let next = if closing status == 0 then (status + send_status_closing) % 2 ^ 32 else status in
    if next == send_status_closing
      || (next == 2 * send_status_closing || next == 3 * send_status_closing)
    then some next
    else none

-- A new `MultiplexedSocket` of the side that connects, after `connect` with this many connections.
-- What `ASIOConnectAndHandshake` then does is in Network/Handshake.
abbrev pub constructed : ℕ → Socket
constructed sockets = record {
  sockets = sockets;
  phase = preconnection;
  new_requests = [];
  registrations = [];
  callbacks = [];
  acked = [];
  one_sided = [];
  highest = 1;
  free_ids = [];
  draws = 0;
  sent = [];
  called = [];
}

unfoldable pub connect : ℕ → TcpStream × Socket
connect callbacks = (
  record { attached = true; id = 1; send_status = 0 },
  (add_callbacks 1 (some callbacks) (constructed 3)).0,
)

-- Another stream is cloned; `none` is a stream of another class. With the returned value.
unfoldable pub clone_from : Option TcpStream → ℕ → TcpStream → Socket → TcpStream × Socket × Bool
clone_from none callbacks s m = (s, m, false)
clone_from (some other) callbacks s m =
    if other.attached
    then (let (new_id, m1) = get_new_id m in
        let (m2, phase) = add_callbacks new_id (some callbacks) m1 in
        let cloned : TcpStream = record s { attached = true; id = new_id } in
        (cloned, m2, (if phase_eq phase disconnected then false else true)))
    else (record s { attached = false }, m, false)

module _ (hash rand : ℕ → ℕ) (kept : ℕ → Bool) where
  unfoldable pub send : StreamReliability → List ℕ → TcpStream → Socket → TcpStream × Socket
  send reliability chunk s m =
      let entered = (s.send_status + 1) % 2 ^ 32 in
      let m' =
        if closing entered == 0
        then send_bytes hash rand kept (to_be_sent reliability chunk s.id) m
        else m in
      (record s { send_status = (entered + (2 ^ 32 - 1)) % 2 ^ 32 }, m')

  unfoldable pub close : TcpStream → Socket → Option (TcpStream × Socket)
  close s m = elim (close_send_status s.send_status) [
    | none ↦ none
    | some status ↦ some (
      record s { send_status = status },
      send_close hash rand kept close_stream s.id (add_callbacks s.id none m).0,
    )
  ]
