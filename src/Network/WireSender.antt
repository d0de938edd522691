-- ===== src/Network/WireSender.antt =====
-- The asynchronous sends of `ASIOSocketWrapper` (libcore/src/network/ASIOSocketWrapper.cpp): the one
-- actor that sends hands a chunk, the front of a queue of chunks, or a buffer filled from several to
-- `async_send`, and goes on when the socket tells how many bytes of it were taken.
use sirikata.Base.{
  ℕ, zero, suc, ◌+◌, ◌-◌, ◌≤◌, ◌<◌, ◌≡◌, List, [], ◌∷◌, ◌++◌, Bool, true, false, ◌||◌, Option, none,
  some, ltb, ◌==◌, if◌then◌else◌, length, drop, take,
}
pub mod Progress
pub mod Completion
pub mod Stream
pub mod Drain
mod Tests

abbrev pub packet_buffer_size : ℕ
packet_buffer_size = 1400

abbrev pub Chunk : Type 0
Chunk = List ℕ

-- The send that is out, with what is bound to its completion handler: `sendLargeChunkItem`,
-- `sendLargeDequeItem` or `sendStaticBuffer`.
pub data Pending : Type 0 where
  large_chunk : Chunk → ℕ → Pending
  large_deque : List Chunk → ℕ → Pending
  static_buffer : List Chunk → List ℕ → ℕ → Pending

-- The bytes given to `async_send`.
abbrev pub offered : Pending → List ℕ
offered (large_chunk chunk offset) = drop offset chunk
offered (large_deque [] offset) = []
offered (large_deque (chunk ∷ chunks) offset) = drop offset chunk
offered (static_buffer chunks buffer offset) = buffer

-- `wire` is the log of the bytes that the socket took.
pub record Wrapper : Type 0 where
  pub queue : List Chunk
  pub pending : Option Pending
  pub wire : List ℕ

pub record Filled : Type 0 where
  pub copied : List ℕ
  pub rest : List Chunk
  pub offset : ℕ

-- The loop that fills `mBuffer` from `bufferLocation` on. The last chunk may be copied in part.
unfoldable pub fill : ℕ → List Chunk → Filled
fill location [] = record { copied = []; rest = []; offset = 0 }
fill location (chunk ∷ chunks) =
    let after = fill (location + length chunk) chunks in
    if ltb location packet_buffer_size
    then if ltb (packet_buffer_size - location) (length chunk)
      then record {
        copied = take (packet_buffer_size - location) chunk;
        rest = chunk ∷ chunks;
        offset = packet_buffer_size - location;
      }
      else record after { copied = chunk ++ after.copied }
    else record { copied = []; rest = chunk ∷ chunks; offset = 0 }

abbrev pub is_empty : List Chunk → Bool
is_empty [] = true
is_empty (chunk ∷ chunks) = false

-- `sendToWire` of a queue; `none` where no send is started.
unfoldable pub send_deque : List Chunk → ℕ → Option Pending
send_deque [] offset = none
send_deque (chunk ∷ chunks) offset =
    if ltb packet_buffer_size (length chunk - offset) || is_empty chunks
    then some (large_deque (chunk ∷ chunks) offset)
    else if ltb 0 (length chunk)
    then (let filled = fill (length chunk - offset) chunks in
        some (static_buffer filled.rest (drop offset chunk ++ filled.copied) filled.offset))
    else none

-- One chunk is sent by itself, more as a queue.
unfoldable pub send_to_wire : List Chunk → ℕ → Option Pending
send_to_wire [] offset = none
send_to_wire (chunk ∷ []) offset = some (large_chunk chunk offset)
send_to_wire (chunk ∷ next ∷ chunks) offset = send_deque (chunk ∷ next ∷ chunks) offset

-- `finishAsyncSend`.
unfoldable pub finish_async_send : Wrapper → Wrapper
finish_async_send m = record m { queue = []; pending = send_to_wire m.queue 0 }

-- The handler of a send that took `bytes_sent` bytes, with no error.
unfoldable pub completed : Pending → ℕ → Wrapper → Wrapper
completed (large_chunk chunk offset) bytes_sent m =
    if bytes_sent + offset == length chunk
    then finish_async_send m
    else record m { pending = some (large_chunk chunk (offset + bytes_sent)) }
completed (large_deque [] offset) bytes_sent m = record m { pending = none }
completed (large_deque (chunk ∷ chunks) offset) bytes_sent m =
    if bytes_sent + offset == length chunk
    then if is_empty chunks
      then finish_async_send m
      else record m { pending = send_to_wire chunks 0 }
    else record m { pending = send_deque (chunk ∷ chunks) (offset + bytes_sent) }
completed (static_buffer chunks buffer offset) bytes_sent m =
    if bytes_sent == length buffer
    then if is_empty chunks
      then finish_async_send m
      else record m { pending = send_to_wire chunks offset }
    else record m { pending = some (static_buffer chunks (drop bytes_sent buffer) offset) }

-- The socket takes `bytes_sent` bytes of what is out.
unfoldable pub take_bytes : ℕ → Wrapper → Wrapper
take_bytes bytes_sent m = elim m.pending [
  | none ↦ m
  | some p ↦ completed p bytes_sent (record m { wire = m.wire ++ take bytes_sent (offered p) })
]

-- `rawSend`, as the only call under way: the chunk goes out, or waits while another send is out.
unfoldable pub raw_send : Chunk → Wrapper → Wrapper
raw_send chunk m = elim m.pending [
  | none ↦ record m { pending = send_to_wire (chunk ∷ []) 0 }
  | some p ↦ record m { queue = m.queue ++ chunk ∷ [] }
]
