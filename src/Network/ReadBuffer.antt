-- ===== src/Network/ReadBuffer.antt =====
-- `ASIOReadBuffer` (libcore/src/network/ASIOReadBuffer.cpp): bytes come from one TCP connection in
-- pieces of any size, into a fixed buffer or, for a large packet, into a chunk of its own.
-- The state is that of the outstanding read: `readIntoFixedBuffer` or `readIntoChunk`. The first
-- `mBufferPos` bytes of `mBuffer`, or of `mNewChunk`, are the list.
use sirikata.Base.{
  ℕ, zero, suc, ◌+◌, ◌-◌, ◌≤◌, ◌≡◌, List, [], ◌∷◌, ◌++◌, Bool, Option, none, some, ltb, leb,
  if◌then◌else◌, length, drop, take,
}
use sirikata.Network.Frame.{Packet}
use sirikata.Network.Uint30.{unserialize}
pub mod Bounds
pub mod Translate
pub mod Reassembly

abbrev pub low_water_mark : ℕ
low_water_mark = 256

abbrev buffer_length : ℕ
buffer_length = 1440

pub data Receive : Type 0 where
  fixed : List ℕ → Receive
  chunk : (stream size : ℕ) → List ℕ → Receive

-- The id and its length; a failed read leaves the default id and the length as it was.
abbrev pub parsed_id : ℕ → Option (ℕ × ℕ) → ℕ × ℕ
parsed_id size none = (0, size)
parsed_id size (some r) = r

-- `processPartialChunk` on the bytes received of a packet: the id, the size of the chunk, and
-- the bytes copied into it.
unfoldable pub process_partial_chunk : List ℕ → ℕ → ℕ × ℕ × List ℕ
process_partial_chunk bytes packet_length =
    let (id, header) = parsed_id (length bytes) (unserialize bytes) in
    (id, packet_length - header, drop header bytes)

abbrev whole_packet : ℕ × ℕ × List ℕ → Packet
whole_packet (id, _, bytes) = record { stream = id; payload = bytes }

abbrev pub start_chunk : ℕ × ℕ × List ℕ → Receive
start_chunk (id, size, bytes) = chunk id size bytes

-- The loop of `translateBuffer`, over the bytes from `chunkPos` on: the packets handed to
-- `processFullChunk`, and the read that is then started. A round uses at least one byte, so as
-- much fuel as there are bytes, and one more, is enough.
unfoldable pub translate : ℕ → List ℕ → List Packet × Receive
translate zero bs = ([], fixed bs)
translate (suc fuel) bs = elim (unserialize bs) [
  | none ↦ ([], fixed bs)
  | some (len, header) ↦
      let part = drop header bs in
      let rest = translate fuel (drop len part) in
      if ltb (length bs) (len + header)
      then if ltb (length bs) low_water_mark
        then ([], fixed bs)
        else ([], start_chunk (process_partial_chunk part len))
      else (whole_packet (process_partial_chunk (take len part) len) ∷ rest.0, rest.1)
]

-- `asioReadIntoFixedBuffer` and `asioReadIntoChunk` on a read with no error.
unfoldable pub receive : Receive → List ℕ → List Packet × Receive
receive (fixed buffer) bytes =
    let filled = buffer ++ bytes in translate (suc (length filled)) filled
receive (chunk stream size got) bytes =
    let filled = got ++ bytes in
    if leb size (length filled)
    then (record { stream = stream; payload = filled } ∷ [], fixed [])
    else ([], chunk stream size filled)

-- The space that `async_receive` is given.
abbrev pub room : Receive → ℕ
room (fixed buffer) = buffer_length - length buffer
room (chunk stream size got) = size - length got

-- A run of reads: the packets in the order in which they are handed on.
unfoldable pub receive_all : Receive → List (List ℕ) → List Packet × Receive
receive_all s [] = ([], s)
receive_all s (bytes ∷ reads) =
    let (packets, s') = receive s bytes in
    let (more, s'') = receive_all s' reads in (packets ++ more, s'')

-- No read brings more bytes than it was given space for.
abbrev pub FitReads : Receive → List (List ℕ) → Type 0
FitReads s [] = Unit {0}
FitReads s (bytes ∷ reads) = (length bytes ≤ room s) × FitReads (receive s bytes).1 reads
