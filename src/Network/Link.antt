-- ===== src/Network/Link.antt =====
-- Both ends of a connection: what the streams of one `MultiplexedSocket` send, one of its
-- connections carries, and what the `MultiplexedSocket` of the other side hands to the callbacks of
-- its streams (libcore/src/network/MultiplexedSocket.cpp, ASIOReadBuffer.cpp).
use sirikata.Base.{ℕ, ◌%◌, Bool, Option, none, some, List, [], ◌∷◌, map, ◌==◌, if◌then◌else◌}
use sirikata.Network.Frame.{Packet}
use sirikata.Network.TcpStream.{reliable_ordered, to_be_sent}
use sirikata.Network.MultiplexedSocket.{Request, Socket, Call, received}
use sirikata.Network.MultiplexedSocket.Close.{receive_full_chunk}
pub mod Delivery
mod Tests

-- What `TCPStream::send` hands to `sendBytes` for these packets.
abbrev pub requests : List Packet → List Request
requests [] = []
requests (p ∷ ps) = to_be_sent reliable_ordered p.payload p.stream ∷ requests ps

module _ (hash : ℕ → ℕ) where
  -- The packets whose stream is on connection `k` of `n`.
  abbrev pub carried : ℕ → ℕ → List Packet → List Packet
  carried n k [] = []
  carried n k (p ∷ ps) = if hash p.stream % n == k then p ∷ carried n k ps else carried n k ps

-- The payloads of one stream.
abbrev pub payloads : ℕ → List Packet → List (List ℕ)
payloads id [] = []
payloads id (p ∷ ps) = if p.stream == id then p.payload ∷ payloads id ps else payloads id ps

-- The callbacks that are told, where stream `id` has the callback `cb id`.
abbrev pub told_packets : (ℕ → ℕ) → List Packet → List Call
told_packets cb [] = []
told_packets cb (p ∷ ps) = received (cb p.stream) p.payload ∷ told_packets cb ps

-- `ASIOReadBuffer::processFullChunk` for packet after packet.
module _ (hash rand : ℕ → ℕ) (kept : ℕ → Bool) (react : ℕ → List (ℕ × Option ℕ))
    (accept : ℕ → Option ℕ) where
  unfoldable pub process_full_chunks : List Packet → Socket → Option Socket
  process_full_chunks [] m = some m
  process_full_chunks (p ∷ ps) m =
      elim (receive_full_chunk hash rand kept react accept p.stream p.payload m) [
        | none ↦ none
        | some m' ↦ process_full_chunks ps m'
      ]
