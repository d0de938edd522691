-- ===== src/Network/WireSender/Progress.antt =====
-- Starting a send (libcore/src/network/ASIOSocketWrapper.cpp): whatever way the chunks are cut,
-- what is out and what is left of the queue are the bytes that were to be sent, in order.
use sirikata.Base.{
  ℕ, ◌+◌, ◌-◌, ◌<◌, ◌≡◌, refl, sym, ap, ◌∙◌, inl, inr, List, [], ◌∷◌, ◌++◌, ◌||◌, Option, none,
  some, ltb, length, drop, take, append_assoc, append-nil, arith, length-append, length-drop,
  take-drop, Bool-cases, ltb→lt, not-ltb→le,
}
use sirikata.Network.WireSender.{
  Chunk, Pending, large_chunk, large_deque, static_buffer, Wrapper, fill, is_empty, send_deque,
  send_to_wire, packet_buffer_size,
}

abbrev pub joined : List Chunk → List ℕ
joined [] = []
joined (chunk ∷ chunks) = chunk ++ joined chunks

-- A queue without its first bytes.
abbrev pub joined_from : List Chunk → ℕ → List ℕ
joined_from [] offset = []
joined_from (chunk ∷ chunks) offset = drop offset chunk ++ joined chunks

-- The bytes that are still to be sent of what is out.
abbrev pub left : Pending → List ℕ
left (large_chunk chunk offset) = drop offset chunk
left (large_deque chunks offset) = joined_from chunks offset
left (static_buffer chunks buffer offset) = buffer ++ joined_from chunks offset

abbrev pub left_of : Option Pending → List ℕ
left_of none = []
left_of (some p) = left p

-- All bytes that were given and are not on the wire.
abbrev pub to_send : Wrapper → List ℕ
to_send m = left_of m.pending ++ joined m.queue

abbrev pub NoneEmpty : List Chunk → Type 0
NoneEmpty [] = Unit {0}
NoneEmpty (chunk ∷ chunks) = (0 < length chunk) × NoneEmpty chunks

-- The offset lies within the first chunk, and no chunk is empty.
abbrev pub IsOffset : List Chunk → ℕ → Type 0
IsOffset [] offset = Unit {0}
IsOffset (chunk ∷ chunks) offset = (offset < length chunk) × NoneEmpty chunks

abbrev pub IsOut : Pending → Type 0
IsOut (large_chunk chunk offset) = offset < length chunk
IsOut (large_deque [] offset) = ⊥
IsOut (large_deque (chunk ∷ chunks) offset) = (offset < length chunk) × NoneEmpty chunks
IsOut (static_buffer chunks buffer offset) = (0 < length buffer) × IsOffset chunks offset

-- A send that is to start does, unless nothing is left.
abbrev pub Starts : Option Pending → List ℕ → Type 0
Starts none bytes = bytes ≡ []
Starts (some p) bytes = IsOut p × (left p ≡ bytes)

fill-joined :
    (location : ℕ) (chunks : List Chunk)
    → (let filled = fill location chunks in filled.copied ++ joined_from filled.rest filled.offset)
      ≡ joined chunks
unfolding fill
fill-joined location [] = refl
fill-joined location (chunk ∷ chunks) = elim (Bool-cases (ltb location packet_buffer_size)) [
  | inr e ↦ rw e refl
  | inl e ↦ elim (Bool-cases (ltb (packet_buffer_size - location) (length chunk))) [
    | inl f ↦
        rw (e, f)
          (sym (
              append_assoc (take (packet_buffer_size - location) chunk)
                (drop (packet_buffer_size - location) chunk) (joined chunks))
            ∙ ap (λ bytes. bytes ++ joined chunks)
                (take-drop (packet_buffer_size - location) chunk))
    | inr f ↦
        rw (e, f)
          (append_assoc chunk (fill (location + length chunk) chunks).copied (
              joined_from (fill (location + length chunk) chunks).rest
                (fill (location + length chunk) chunks).offset)
            ∙ ap (λ bytes. chunk ++ bytes) (fill-joined (location + length chunk) chunks))
  ]
]

fill-IsOffset :
    (location : ℕ) (chunks : List Chunk)
    → NoneEmpty chunks
    → IsOffset (fill location chunks).rest (fill location chunks).offset
unfolding fill
fill-IsOffset location [] h = tt
fill-IsOffset location (chunk ∷ chunks) h = elim (Bool-cases (ltb location packet_buffer_size)) [
  | inr e ↦ rw e h
  | inl e ↦ elim (Bool-cases (ltb (packet_buffer_size - location) (length chunk))) [
    | inl f ↦ rw (e, f) (ltb→lt _ _ f, h.1)
    | inr f ↦ rw (e, f) (fill-IsOffset (location + length chunk) chunks h.1)
  ]
]

pub drop-positive : (xs ys : List ℕ) (n : ℕ) → n < length xs → 0 < length (drop n xs ++ ys)
drop-positive xs ys n h = omega (arith, length-append (drop n xs) ys, length-drop n xs)

pub send_deque-Starts :
    (chunk : Chunk) (chunks : List Chunk) (offset : ℕ)
    → offset < length chunk
    → NoneEmpty chunks
    → Starts (send_deque (chunk ∷ chunks) offset) (joined_from (chunk ∷ chunks) offset)
unfolding send_deque
send_deque-Starts chunk chunks offset lt h =
    elim (Bool-cases (ltb packet_buffer_size (length chunk - offset) || is_empty chunks)) [
      | inl e ↦ rw e ((lt, h), refl)
      | inr e ↦ elim (Bool-cases (ltb 0 (length chunk))) [
        | inl f ↦
            rw (e, f)
              (
                (
                  drop-positive chunk (fill (length chunk - offset) chunks).copied offset lt,
                  fill-IsOffset (length chunk - offset) chunks h,
                ),
                (append_assoc (drop offset chunk) (fill (length chunk - offset) chunks).copied (
                      joined_from (fill (length chunk - offset) chunks).rest
                        (fill (length chunk - offset) chunks).offset)
                    ∙ ap (λ bytes. drop offset chunk ++ bytes)
                        (fill-joined (length chunk - offset) chunks)),
              )
        | inr f ↦ absurd (omega (arith, not-ltb→le _ _ f))
      ]
    ]

pub send_to_wire-Starts :
    (chunks : List Chunk) (offset : ℕ)
    → IsOffset chunks offset
    → Starts (send_to_wire chunks offset) (joined_from chunks offset)
unfolding send_to_wire
send_to_wire-Starts [] offset h = refl
send_to_wire-Starts (chunk ∷ []) offset h = (h.0, sym (append-nil (drop offset chunk)))
send_to_wire-Starts (chunk ∷ next ∷ chunks) offset h =
    send_deque-Starts chunk (next ∷ chunks) offset h.0 h.1

pub NoneEmpty-IsOffset : (chunks : List Chunk) → NoneEmpty chunks → IsOffset chunks 0
NoneEmpty-IsOffset [] h = tt
NoneEmpty-IsOffset (chunk ∷ chunks) h = h

pub joined_from_zero : (chunks : List Chunk) → joined_from chunks 0 ≡ joined chunks
joined_from_zero [] = refl
joined_from_zero (chunk ∷ chunks) = refl
