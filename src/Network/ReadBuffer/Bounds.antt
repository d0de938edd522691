-- ===== src/Network/ReadBuffer/Bounds.antt =====
-- The read buffer on any input, malformed packets included: it never asks for a read of no bytes,
-- and the asserts of `processPartialChunk` and `readIntoChunk` hold.
use sirikata.Base.{
  ℕ, zero, suc, ◌+◌, ◌≤◌, ◌<◌, inl, inr, List, [], ◌∷◌, ◌++◌, arith, ltb, ltb→lt, not-ltb→le,
  Bool-cases, Option-cases, length, drop, length-drop,
}
use sirikata.Network.Uint30.{unserialize, AllBytes, unserialize_bounds, unserialize-ne-none}
use sirikata.Network.ReadBuffer.{
  Receive, fixed, chunk, parsed_id, process_partial_chunk, translate, receive, room, receive_all,
  low_water_mark,
}

abbrev pub IsLive : Receive → Type 0
IsLive (fixed buffer) = (length buffer < low_water_mark) × AllBytes buffer
IsLive (chunk stream size got) = length got < size

abbrev pub AllReads : List (List ℕ) → Type 0
AllReads [] = Unit {0}
AllReads (bytes ∷ reads) = AllBytes bytes × AllReads reads

AllBytes-drop : (n : ℕ) (bs : List ℕ) → AllBytes bs → AllBytes (drop n bs)
AllBytes-drop zero bs h = h
AllBytes-drop (suc n) [] h = h
AllBytes-drop (suc n) (b ∷ bs) h = AllBytes-drop n bs h.1

AllBytes-append : (bs cs : List ℕ) → AllBytes bs → AllBytes cs → AllBytes (bs ++ cs)
AllBytes-append [] cs h k = k
AllBytes-append (b ∷ bs) cs h k = (h.0, AllBytes-append bs cs h.1 k)

-- `assert(headerLength<=bufferReceived)` and, as no more was received than the packet has,
-- `assert(headerLength<=packetLength)`.
parsed_id-le :
    (bytes : List ℕ)
    → AllBytes bytes
    → (parsed_id (length bytes) (unserialize bytes)).1 ≤ length bytes
parsed_id-le bytes h = elim (Option-cases (unserialize bytes)) [
  | inl e ↦ rw (e, parsed_id) (omega arith)
  | inr ((v, n), e) ↦ rw (e, parsed_id) ((unserialize_bounds bytes h e).3)
]

-- The chunk that is started is not yet full, so `readIntoChunk` may start.
process_partial_chunk-open :
    (bytes : List ℕ) (len : ℕ)
    → AllBytes bytes
    → length bytes < len
    → length (process_partial_chunk bytes len).2 < (process_partial_chunk bytes len).1
unfolding process_partial_chunk
process_partial_chunk-open bytes len h less = omega (
  arith,
  parsed_id-le bytes h,
  length-drop (parsed_id (length bytes) (unserialize bytes)).1 bytes,
)

translate-IsLive :
    (fuel : ℕ) (bs : List ℕ) → AllBytes bs → length bs < fuel → IsLive (translate fuel bs).1
unfolding translate
translate-IsLive zero bs h f = absurd (omega arith)
translate-IsLive (suc fuel) bs h f = elim (Option-cases (unserialize bs)) [
  | inl e ↦
      rw (e, translate)
        (elim (Bool-cases (ltb (length bs) 4)) [
          | inl few ↦ (omega (arith, ltb→lt _ _ few), h)
          | inr more ↦ absurd (unserialize-ne-none bs (not-ltb→le _ _ more) e)
        ])
  | inr ((len, header), e) ↦
      rw (e, translate)
        (elim (Bool-cases (ltb (length bs) (len + header))) [
          | inr all ↦ rw all (
              translate-IsLive fuel (drop len (drop header bs))
                (AllBytes-drop len _ (AllBytes-drop header bs h))
                (omega (
                  arith,
                  length-drop len (drop header bs),
                  length-drop header bs,
                  unserialize_bounds bs h e,
                )))
          | inl part ↦ rw part (elim (Bool-cases (ltb (length bs) low_water_mark)) [
            | inl low ↦ rw low (ltb→lt _ _ low, h)
            | inr high ↦ rw high (
                process_partial_chunk-open (drop header bs) len (AllBytes-drop header bs h) (
                  omega (arith, ltb→lt _ _ part, length-drop header bs, unserialize_bounds bs h e)))
          ])
        ])
]

receive-IsLive :
    (s : Receive) (bytes : List ℕ) → IsLive s → AllBytes bytes → IsLive (receive s bytes).1
unfolding receive
receive-IsLive (fixed buffer) bytes v h =
    translate-IsLive (suc (length (buffer ++ bytes))) (buffer ++ bytes)
      (AllBytes-append buffer bytes v.1 h) (omega arith)
receive-IsLive (chunk stream size got) bytes v h = ground arith

IsLive-room : (s : Receive) → IsLive s → 1 ≤ room s
IsLive-room (fixed buffer) v = omega arith
IsLive-room (chunk stream size got) v = omega arith

-- From a live state and after any reads of any bytes the state is live and the next read has space
-- for at least one byte: the connection never stalls on a read of no bytes, and the fixed buffer
-- never overflows.
pub receive_all-IsLive :
    (s : Receive) (reads : List (List ℕ))
    → IsLive s
    → AllReads reads
    → IsLive (receive_all s reads).1 × (1 ≤ room (receive_all s reads).1)
unfolding receive_all
receive_all-IsLive s [] v h = (v, IsLive-room s v)
receive_all-IsLive s (bytes ∷ reads) v h =
    receive_all-IsLive (receive s bytes).1 reads (receive-IsLive s bytes v h.0) h.1
