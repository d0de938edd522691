-- ===== src/Network/Tests.antt =====
-- The packet format and its receiver on concrete bytes.
use sirikata.Base.{ℕ, ◌≤◌, ◌≡◌, refl, List, [], ◌∷◌, ◌++◌, some, arith, length}
use sirikata.Network.Uint30.{serialize, unserialize, unserialize-serialize}
use sirikata.Network.Frame.{
  Packet, encode, wire, close_stream, construct_control_packet, control, AllSendable, body,
}
use sirikata.Network.ReadBuffer.{
  fixed, receive, translate, process_partial_chunk, receive_all, room, FitReads,
}
use sirikata.Network.ReadBuffer.Reassembly.{flat, receive_all-wire}
use sirikata.Network.ReadBuffer.Bounds.{IsLive, AllReads, receive_all-IsLive}

serialize_small : serialize 100 ≡ 100 ∷ []
unfolding serialize
serialize_small = refl

serialize_two : serialize 300 ≡ 172 ∷ 2 ∷ []
unfolding serialize
serialize_two = refl

serialize_four : serialize 1000000 ≡ 192 ∷ 132 ∷ 61 ∷ 0 ∷ []
unfolding serialize
serialize_four = refl

unserialize-serialize_example :
    unserialize (serialize 300 ++ 7 ∷ []) ≡ some (300, length (serialize 300))
unserialize-serialize_example = unserialize-serialize 300 (7 ∷ []) (omega arith)

construct_control_packet_bytes : construct_control_packet close_stream 5 ≡ 3 ∷ 0 ∷ 1 ∷ 5 ∷ []
unfolding construct_control_packet serialize
construct_control_packet_bytes = refl

abbrev two_packets : List Packet
two_packets = record { stream = 5; payload = 10 ∷ 20 ∷ 30 ∷ [] } ∷ control close_stream 5 ∷ []

abbrev three_reads : List (List ℕ)
three_reads = (4 ∷ 5 ∷ 10 ∷ []) ∷ (20 ∷ 30 ∷ 3 ∷ 0 ∷ []) ∷ (1 ∷ 5 ∷ []) ∷ []

two_packets-AllSendable : AllSendable two_packets
unfolding serialize body
two_packets-AllSendable = (
  record { stream_fits = omega arith; length_fits = omega arith },
  (record { stream_fits = omega arith; length_fits = omega arith }, tt),
)

three_reads-FitReads : FitReads (fixed []) three_reads
unfolding receive translate unserialize process_partial_chunk
three_reads-FitReads = (omega arith, (omega arith, (omega arith, tt)))

three_reads-wire : flat three_reads ≡ wire two_packets
unfolding wire encode body serialize
three_reads-wire = refl

receive_all-wire_example : receive_all (fixed []) three_reads ≡ (two_packets, fixed [])
receive_all-wire_example =
    receive_all-wire three_reads two_packets two_packets-AllSendable three_reads-FitReads
      three_reads-wire

three_reads-AllReads : AllReads three_reads
three_reads-AllReads = ground arith

receive_all-IsLive_example :
    IsLive (receive_all (fixed []) three_reads).1
    × (1 ≤ room (receive_all (fixed []) three_reads).1)
receive_all-IsLive_example =
    receive_all-IsLive (fixed []) three_reads (omega arith, tt) three_reads-AllReads
