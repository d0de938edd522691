-- ===== src/Network/WireSender/Completion.antt =====
-- What a send that completes leaves to be sent (libcore/src/network/ASIOSocketWrapper.cpp).
use sirikata.Base.{
  ℕ, ◌+◌, ◌≤◌, ◌<◌, ◌≡◌, refl, sym, ap, subst, ◌∙◌, inl, inr, List, [], ◌∷◌, ◌++◌, false, Option,
  none, some, ◌==◌, if◌then◌else◌, length, drop, append-nil, arith, length-drop, drop-drop,
  drop_all, drop_within, Bool-cases,
}
use sirikata.Network.WireSender.{
  Chunk, Pending, large_chunk, large_deque, static_buffer, offered, Wrapper, is_empty, send_deque,
  send_to_wire, finish_async_send, completed,
}
use sirikata.Network.WireSender.Progress.{
  joined, joined_from, left, to_send, NoneEmpty, IsOffset, IsOut, Starts, drop-positive,
  send_deque-Starts, send_to_wire-Starts, NoneEmpty-IsOffset, joined_from_zero,
}

-- A send is out while anything is to be sent.
abbrev pub Waits : Option Pending → List Chunk → Type 0
Waits none queue = queue ≡ []
Waits (some p) queue = IsOut p

abbrev pub IsSending : Wrapper → Type 0
IsSending m = NoneEmpty m.queue × Waits m.pending m.queue

-- The socket sends `bytes` and then the queue of `m`.
abbrev pub Continues : Wrapper → Wrapper → List ℕ → Type 0
Continues m after bytes =
    IsSending after × (after.wire ≡ m.wire) × (to_send after ≡ bytes ++ joined m.queue)

-- A send goes on within its chunks.
goes_on :
    (m : Wrapper) (o : Option Pending) (bytes : List ℕ)
    → NoneEmpty m.queue
    → 0 < length bytes
    → Starts o bytes
    → Continues m (record m { pending = o }) bytes
goes_on m none bytes h more starts = absurd (omega (arith, ap length starts))
goes_on m (some p) bytes h more starts =
    ((h, starts.0), refl, ap (λ sent. sent ++ joined m.queue) starts.1)

Starts-Continues :
    (m : Wrapper) (o : Option Pending)
    → Starts o (joined m.queue)
    → Continues m (record m { queue = []; pending = o }) []
Starts-Continues m none starts = ((tt, refl), refl, sym starts)
Starts-Continues m (some p) starts = ((tt, starts.0), refl, append-nil (left p) ∙ starts.1)

finish_async_send-Continues :
    (m : Wrapper) → NoneEmpty m.queue → Continues m (finish_async_send m) []
unfolding finish_async_send
finish_async_send-Continues m h = Starts-Continues m (send_to_wire m.queue 0) (
    subst (Starts (send_to_wire m.queue 0)) (joined_from_zero m.queue)
      (send_to_wire-Starts m.queue 0 (NoneEmpty-IsOffset m.queue h)))

-- A send whose bytes are all taken makes way for the chunks behind it, or for the queue.
goes_behind :
    (m : Wrapper) (chunks : List Chunk) (offset : ℕ)
    → NoneEmpty m.queue
    → IsOffset chunks offset
    → Continues m
        (if is_empty chunks
          then finish_async_send m
          else record m { pending = send_to_wire chunks offset })
        (joined_from chunks offset)
goes_behind m [] offset h at = finish_async_send-Continues m h
goes_behind m (chunk ∷ chunks) offset h at =
    goes_on m (send_to_wire (chunk ∷ chunks) offset) (joined_from (chunk ∷ chunks) offset) h
      (drop-positive chunk (joined chunks) offset at.0)
      (send_to_wire-Starts (chunk ∷ chunks) offset at)

drop-taken :
    (n offset : ℕ) (xs ys : List ℕ) → n + offset ≡ length xs → drop n (drop offset xs ++ ys) ≡ ys
drop-taken n offset xs ys e =
    drop_within n (drop offset xs) ys (omega (arith, length-drop offset xs))
    ∙ ap (λ zs. zs ++ ys) (drop_all n (drop offset xs) (omega (arith, length-drop offset xs)))

drop-left :
    (n offset : ℕ) (xs ys : List ℕ)
    → n ≤ length (drop offset xs)
    → drop n (drop offset xs ++ ys) ≡ drop (offset + n) xs ++ ys
drop-left n offset xs ys le =
    drop_within n (drop offset xs) ys le ∙ ap (λ zs. zs ++ ys) (drop-drop n offset xs)

not_all :
    (n offset : ℕ) (xs : List ℕ)
    → n ≤ length (drop offset xs)
    → (n + offset == length xs) ≡ false
    → offset < length xs
    → offset + n < length xs
not_all n offset xs le e lt = ground (arith, length-drop offset xs)

pub completed-Continues :
    (n : ℕ) (p : Pending) (m : Wrapper)
    → NoneEmpty m.queue
    → IsOut p
    → n ≤ length (offered p)
    → Continues m (completed p n m) (drop n (left p))
unfolding completed
completed-Continues n (large_chunk chunk offset) m h out le =
    elim (Bool-cases (n + offset == length chunk)) [
      | inl e ↦
          rw (e, drop_all n (drop offset chunk) (ground (arith, length-drop offset chunk)))
            (finish_async_send-Continues m h)
      | inr e ↦
          rw (e, drop-drop n offset chunk)
            (goes_on m (some (large_chunk chunk (offset + n))) (drop (offset + n) chunk) h
              (omega (arith, length-drop (offset + n) chunk, not_all n offset chunk le e out))
              (not_all n offset chunk le e out, refl))
    ]
completed-Continues n (large_deque [] offset) m h out le = elim out [ ]
completed-Continues n (large_deque (chunk ∷ chunks) offset) m h out le =
    elim (Bool-cases (n + offset == length chunk)) [
      | inl e ↦
          rw
            (
              e,
              drop-taken n offset chunk (joined chunks) (ground arith),
              sym (joined_from_zero chunks),
            )
            (goes_behind m chunks 0 h (NoneEmpty-IsOffset chunks out.1))
      | inr e ↦
          rw (e, drop-left n offset chunk (joined chunks) le)
            (goes_on m (send_deque (chunk ∷ chunks) (offset + n))
              (joined_from (chunk ∷ chunks) (offset + n)) h
              (drop-positive chunk (joined chunks) (offset + n) (not_all n offset chunk le e out.0))
              (send_deque-Starts chunk chunks (offset + n) (not_all n offset chunk le e out.0)
                out.1))
    ]
completed-Continues n (static_buffer chunks buffer offset) m h out le =
    elim (Bool-cases (n == length buffer)) [
      | inl e ↦
          rw (e, drop-taken n 0 buffer (joined_from chunks offset) (ground arith))
            (goes_behind m chunks offset h out.1)
      | inr e ↦
          rw (e, drop_within n buffer (joined_from chunks offset) le)
            (goes_on m (some (static_buffer chunks (drop n buffer) offset))
              (drop n buffer ++ joined_from chunks offset) h
              (drop-positive buffer (joined_from chunks offset) n (ground arith))
              ((ground (arith, length-drop n buffer), out.1), refl))
    ]
