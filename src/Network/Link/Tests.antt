-- ===== src/Network/Link/Tests.antt =====
-- Two streams over two connections; the second connection carries stream 3.
use sirikata.Base.{
  ℕ, ◌+◌, ◌%◌, ◌≡◌, refl, Bool, true, Option, none, some, List, [], ◌∷◌, ◌++◌, arith,
}
use sirikata.Base.Quantify.{All}
use sirikata.Base.Assoc.{lookup}
use sirikata.Network.Uint30.{serialize, unserialize}
use sirikata.Network.Frame.{Packet, encode, body, AllSendable}
use sirikata.Network.MultiplexedSocket.{
  Socket, connected, received, raw_send_all, raw_send_each, emit, send_bytes_now, flush, send_bytes,
  set_phase, commit_each, commit_callback, commit_callbacks,
}
use sirikata.Network.MultiplexedSocket.Sending.{on_socket, send_all}
use sirikata.Network.ReadBuffer.{
  fixed, receive, translate, process_partial_chunk, receive_all, FitReads,
}
use sirikata.Network.ReadBuffer.Reassembly.{flat}
use sirikata.Network.TcpStream.{constructed}
use sirikata.Network.Link.{requests, carried, payloads, told_packets, process_full_chunks}
use sirikata.Network.Link.Delivery.{Takes, deliver}

abbrev same_number : ℕ → ℕ
same_number k = k

abbrev keep_all : ℕ → Bool
keep_all k = true

abbrev quiet : ℕ → List (ℕ × Option ℕ)
quiet cb = []

abbrev ignored : ℕ → Option ℕ
ignored id = none

abbrev callback : ℕ → ℕ
callback id = id + 67

abbrev early : List Packet
early = record { stream = 3; payload = 10 ∷ 20 ∷ [] } ∷ []

abbrev late : List Packet
late = record { stream = 4; payload = 5 ∷ [] } ∷ record { stream = 3; payload = 30 ∷ [] } ∷ []

abbrev peer : Socket
peer = record (constructed 2) { phase = connected; callbacks = (3, 70) ∷ (4, 71) ∷ [] }

abbrev reads : List (List ℕ)
reads = (3 ∷ 3 ∷ 10 ∷ []) ∷ (20 ∷ 2 ∷ 3 ∷ 30 ∷ []) ∷ []

reads-FitReads : FitReads (fixed []) reads
unfolding receive translate unserialize process_partial_chunk
reads-FitReads = (omega arith, (omega arith, tt))

sendable_all : AllSendable (early ++ late)
unfolding serialize body
sendable_all = (
  record { stream_fits = omega arith; length_fits = omega arith },
  (
    record { stream_fits = omega arith; length_fits = omega arith },
    (record { stream_fits = omega arith; length_fits = omega arith }, tt),
  ),
)

has_callbacks :
    All
      (Takes same_number same_number keep_all quiet ignored callback peer.callbacks)
      (early ++ late)
unfolding lookup
has_callbacks = ((refl, refl), ((refl, refl), ((refl, refl), tt)))

sent_bytes :
    flat reads
    ≡ flat (
        on_socket 1
          (send_all same_number same_number keep_all
            (requests late)
            (commit_callbacks same_number same_number keep_all connected true
              (send_all same_number same_number keep_all (requests early) (constructed 2))).0).sent)
unfolding commit_callbacks set_phase flush send_bytes send_bytes_now emit raw_send_all raw_send_each
    commit_each commit_callback encode body serialize
sent_bytes = refl

deliver_example :
    (process_full_chunks same_number same_number keep_all quiet ignored
        (receive_all (fixed []) reads).0
        peer
      ≡ some (record peer {
        called = [] ++ told_packets callback (carried same_number 2 1 (early ++ late));
      }))
    × ((receive_all (fixed []) reads).1 ≡ fixed [])
    × ((id : ℕ)
        → id % 2 ≡ 1
        → payloads id (carried same_number 2 1 (early ++ late)) ≡ payloads id (early ++ late))
deliver_example =
    deliver same_number same_number keep_all quiet ignored callback 1 early late (constructed 2)
      peer reads refl refl refl (omega arith) sendable_all reads-FitReads sent_bytes refl
      has_callbacks

told_in_order :
    told_packets callback (carried same_number 2 1 (early ++ late))
    ≡ received 70 (10 ∷ 20 ∷ []) ∷ received 70 (30 ∷ []) ∷ []
told_in_order = refl
