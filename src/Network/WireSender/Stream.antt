-- ===== src/Network/WireSender/Stream.antt =====
-- The socket as a stream of bytes (libcore/src/network/ASIOSocketWrapper.cpp): how the chunks are
-- cut into sends is forgotten.
use sirikata.Base.{
  ℕ, zero, suc, ◌≤◌, ◌<◌, ◌≡◌, refl, sym, ap, ◌∙◌, List, [], ◌∷◌, ◌++◌, Option, none, some, length,
  drop, take, append_assoc, append-nil, arith, length-append, length-drop, drop_all, drop_within,
}
use sirikata.Network.WireSender.{
  Chunk, Pending, large_chunk, large_deque, static_buffer, offered, Wrapper, take_bytes, raw_send,
  send_to_wire,
}
use sirikata.Network.WireSender.Progress.{
  joined, joined_from, left, left_of, to_send, NoneEmpty, IsOut,
}
use sirikata.Network.WireSender.Completion.{IsSending, Waits, completed-Continues}

-- The bytes on the wire, and those that follow.
pub record Stream : Type 0 where
  pub sent : List ℕ
  pub waiting : List ℕ

abbrev pub stream : Wrapper → Stream
stream m = record { sent = m.wire; waiting = to_send m }

-- A completion, or a call of `rawSend`.
pub data Event : Type 0 where
  taken : ℕ → Event
  given : Chunk → Event

abbrev pub handle : Event → Wrapper → Wrapper
handle (taken n) m = take_bytes n m
handle (given chunk) m = raw_send chunk m

abbrev pub run : List Event → Wrapper → Wrapper
run [] m = m
run (e ∷ es) m = run es (handle e m)

abbrev pub stream_handle : Event → Stream → Stream
stream_handle (taken n) s = record { sent = s.sent ++ take n s.waiting; waiting = drop n s.waiting }
stream_handle (given chunk) s = record s { waiting = s.waiting ++ chunk }

abbrev pub stream_run : List Event → Stream → Stream
stream_run [] s = s
stream_run (e ∷ es) s = stream_run es (stream_handle e s)

-- A completion tells of at least one byte and at most those offered; no empty chunk is given.
abbrev pub IsTaken : ℕ → Option Pending → Type 0
IsTaken n none = Unit {0}
IsTaken n (some p) = (0 < n) × (n ≤ length (offered p))

abbrev pub Fits : Event → Wrapper → Type 0
Fits (taken n) m = IsTaken n m.pending
Fits (given chunk) m = 0 < length chunk

abbrev pub FitsAll : List Event → Wrapper → Type 0
FitsAll [] m = Unit {0}
FitsAll (e ∷ es) m = Fits e m × FitsAll es (handle e m)

behind : Pending → List ℕ
behind (large_chunk chunk offset) = []
behind (large_deque [] offset) = []
behind (large_deque (chunk ∷ chunks) offset) = joined chunks
behind (static_buffer chunks buffer offset) = joined_from chunks offset

left_lem : (p : Pending) → left p ≡ offered p ++ behind p
unfolding behind
left_lem (large_chunk chunk offset) = sym (append-nil (drop offset chunk))
left_lem (large_deque [] offset) = refl
left_lem (large_deque (chunk ∷ chunks) offset) = refl
left_lem (static_buffer chunks buffer offset) = refl

take_within : (n : ℕ) (xs ys : List ℕ) → n ≤ length xs → take n (xs ++ ys) ≡ take n xs
take_within zero xs ys h = refl
take_within (suc n) [] ys h = absurd (omega arith)
take_within (suc n) (x ∷ xs) ys h = ap (λ zs. x ∷ zs) (take_within n xs ys (omega arith))

-- What the stream takes from the front is what the socket took.
-- What the stream takes from the front is what the socket took.
left-take :
    (n : ℕ) (p : Pending) (ys : List ℕ)
    → n ≤ length (offered p)
    → take n (left p ++ ys) ≡ take n (offered p)
left-take n p ys le =
    rw (left_lem p, append_assoc (offered p) (behind p) ys)
      (take_within n (offered p) (behind p ++ ys) le)

left-drop :
    (n : ℕ) (p : Pending) (ys : List ℕ)
    → n ≤ length (offered p)
    → drop n (left p ++ ys) ≡ drop n (left p) ++ ys
left-drop n p ys le =
    drop_within n (left p) ys
      (omega (arith, ap length (left_lem p), length-append (offered p) (behind p)))

pub drop_none : (n : ℕ) → drop {A = ℕ} n [] ≡ []
drop_none n = drop_all n [] (omega arith)

take_none : (n : ℕ) → take {A = ℕ} n [] ≡ []
take_none zero = refl
take_none (suc n) = refl

Stream-eq : (s s' : Stream) → s.sent ≡ s'.sent → s.waiting ≡ s'.waiting → s ≡ s'
Stream-eq s s' e f = λ i. record { sent = e i; waiting = f i }

joined-append :
    (chunks : List Chunk) (chunk : Chunk) → joined (chunks ++ chunk ∷ []) ≡ joined chunks ++ chunk
joined-append [] chunk = append-nil chunk
joined-append (c ∷ chunks) chunk =
    ap (λ bytes. c ++ bytes) (joined-append chunks chunk)
    ∙ sym (append_assoc c (joined chunks) chunk)

NoneEmpty-append :
    (chunks : List Chunk) (chunk : Chunk)
    → NoneEmpty chunks
    → 0 < length chunk
    → NoneEmpty (chunks ++ chunk ∷ [])
NoneEmpty-append [] chunk h more = (more, tt)
NoneEmpty-append (c ∷ chunks) chunk h more = (h.0, NoneEmpty-append chunks chunk h.1 more)

taken-stream :
    (n : ℕ) (m : Wrapper) (o : Option Pending)
    → IsSending (record m { pending = o })
    → IsTaken n o
    → (let after = take_bytes n (record m { pending = o }) in
        IsSending after
        × (stream after ≡ stream_handle (taken n) (stream (record m { pending = o }))))
unfolding take_bytes
taken-stream n m none h fits = (
  h,
  Stream-eq _ _ (rw (h.1, take_none n) (sym (append-nil m.wire))) (rw (h.1, drop_none n) refl),
)
taken-stream n m (some p) h fits =
    let goes =
      completed-Continues n p (record m { pending = some p; wire = m.wire ++ take n (offered p) })
        h.0 h.1 fits.1 in
    (
      goes.0,
      Stream-eq _ _
          (goes.1 ∙ ap (λ bytes. m.wire ++ bytes) (sym (left-take n p (joined m.queue) fits.1)))
          (goes.2 ∙ sym (left-drop n p (joined m.queue) fits.1)),
    )

given-stream :
    (chunk : Chunk) (m : Wrapper) (o : Option Pending)
    → IsSending (record m { pending = o })
    → 0 < length chunk
    → (let after = raw_send chunk (record m { pending = o }) in
        IsSending after
        × (stream after ≡ stream_handle (given chunk) (stream (record m { pending = o }))))
unfolding raw_send send_to_wire
given-stream chunk m none h more = rw h.1 ((tt, more), Stream-eq _ _ refl (append-nil chunk))
given-stream chunk m (some p) h more = (
  (NoneEmpty-append m.queue chunk h.0 more, h.1),
  Stream-eq _ _ refl (
      ap (λ bytes. left p ++ bytes) (joined-append m.queue chunk)
      ∙ sym (append_assoc (left p) (joined m.queue) chunk)),
)

pub handle-stream :
    (e : Event) (m : Wrapper)
    → IsSending m
    → Fits e m
    → IsSending (handle e m) × (stream (handle e m) ≡ stream_handle e (stream m))
handle-stream (taken n) m h fits = taken-stream n m m.pending h fits
handle-stream (given chunk) m h fits = given-stream chunk m m.pending h fits

pub runs :
    (es : List Event) (m : Wrapper)
    → IsSending m
    → FitsAll es m
    → IsSending (run es m) × (stream (run es m) ≡ stream_run es (stream m))
runs [] m h fits = (h, refl)
runs (e ∷ es) m h fits =
    let (sending, same) = handle-stream e m h fits.0 in
    let (sending', same') = runs es (handle e m) sending fits.1 in
    (sending', same' ∙ ap (stream_run es) same)

-- The completions that tell of these sizes.
abbrev pub completions : List ℕ → List Event
completions [] = []
completions (n ∷ ns) = taken n ∷ completions ns

IsOut-offered : (p : Pending) → IsOut p → 0 < length (offered p)
IsOut-offered (large_chunk chunk offset) out = omega (arith, length-drop offset chunk)
IsOut-offered (large_deque [] offset) out = elim out [ ]
IsOut-offered (large_deque (chunk ∷ chunks) offset) out =
    ground (arith, length-drop offset chunk, out.0)
IsOut-offered (static_buffer chunks buffer offset) out = out.0

offers :
    (m : Wrapper)
    → IsSending m
    → 0 < length (to_send m)
    → (p : Pending) × (m.pending ≡ some p) × (0 < length (offered p))
offers m h more = offers_on m.pending m.queue h.1 refl more
  where
    offers_on :
        (o : Option Pending) (queue : List Chunk)
        → Waits o queue
        → m.pending ≡ o
        → 0 < length (left_of o ++ joined queue)
        → (p : Pending) × (m.pending ≡ some p) × (0 < length (offered p))
    offers_on none queue wait e more =
        absurd (omega (arith, ap (λ chunks. length (joined chunks)) wait))
    offers_on (some p) queue wait e more = (p, e, IsOut-offered p wait)

-- From a state that is sending what there is to send, through any completions that take between one
-- and all offered bytes and any calls of `rawSend` with chunks that are not empty, the socket is a
-- stream of bytes; and while bytes wait a send is out that offers at least one.
pub run-stream :
    (es : List Event) (m : Wrapper)
    → IsSending m
    → FitsAll es m
    → (let after = run es m in
        (stream after ≡ stream_run es (stream m))
        × (0 < length (to_send after)
            → (p : Pending) × (after.pending ≡ some p) × (0 < length (offered p))))
run-stream es m h fits = let (sending, same) = runs es m h fits in (same, offers (run es m) sending)
