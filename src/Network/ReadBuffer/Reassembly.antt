-- ===== src/Network/ReadBuffer/Reassembly.antt =====
-- What the read buffer hands on is what the other side sent.
use sirikata.Base.{
  ℕ, suc, ◌≤◌, ◌≡◌, refl, sym, ap, ◌∙◌, inl, inr, subst, List, [], ◌∷◌, ◌++◌, arith, lt→not-leb,
  le→leb, length, length-append, append-split, length-zero, append-nil, append_assoc,
}
use sirikata.Network.Uint30.{length-serialize_bounds}
use sirikata.Network.Frame.{Packet, body, encode, wire, AllSendable}
use sirikata.Network.ReadBuffer.{Receive, fixed, chunk, receive, room, receive_all, FitReads}
use sirikata.Network.ReadBuffer.Translate.{
  Incomplete, Awaits, Delivers, length-encode, translate-Delivers,
}

-- All bytes of a sequence of reads.
abbrev pub flat : List (List ℕ) → List ℕ
flat [] = []
flat (bytes ∷ reads) = bytes ++ flat reads

whole_packet-eq :
    (p : Packet) (stream : ℕ) (bytes : List ℕ) (ps : List Packet)
    → p.stream ≡ stream
    → bytes ≡ p.payload
    → record { stream = stream; payload = bytes } ∷ ps ≡ p ∷ ps
whole_packet-eq p stream bytes ps e f = rw (← e, f)

Incomplete-nil : (ps : List Packet) → Incomplete [] ps
Incomplete-nil [] = tt
Incomplete-nil (p ∷ ps) = omega (arith, length-encode p, length-serialize_bounds (length (body p)))

-- One read keeps the promise: what it hands on, and what is then still awaited, is what was
-- awaited before.
receive-Delivers :
    (s : Receive) (bytes w : List ℕ) (ps : List Packet)
    → AllSendable ps
    → length bytes ≤ room s
    → Awaits s (bytes ++ w) ps
    → Delivers (receive s bytes) w ps
unfolding receive
receive-Delivers (fixed buffer) bytes w ps h fits a =
    translate-Delivers (suc (length (buffer ++ bytes))) (buffer ++ bytes) w ps h (omega arith)
      (append_assoc buffer bytes w ∙ a.0)
receive-Delivers (chunk stream size got) bytes w [] h fits a = absurd a
receive-Delivers (chunk stream size got) bytes w (p ∷ ps) h fits (id_eq, size_eq, e, open_) =
    elim (append-split (got ++ bytes) w p.payload (wire ps) (append_assoc got bytes w ∙ e)) [
      | inl short ↦
          rw (lt→not-leb size (length (got ++ bytes)) (omega (arith, size_eq)))
            (p ∷ ps, refl, (id_eq, size_eq, append_assoc got bytes w ∙ e, omega (arith, size_eq)))
      | inr (r, cut, follows) ↦
          let all : r ≡ [] =
            length-zero r
              (omega (arith, ap length cut, length-append got bytes, length-append p.payload r)) in
          let whole : got ++ bytes ≡ p.payload = rw all at cut ∙ append-nil p.payload in
          rw (le→leb size (length (got ++ bytes)) (omega (arith, ap length whole))) (
            ps,
            whole_packet-eq p stream (got ++ bytes) ps id_eq whole,
            (rw all at follows, Incomplete-nil ps),
          )
    ]

AllSendable-rest : (ps qs : List Packet) → AllSendable (ps ++ qs) → AllSendable qs
AllSendable-rest [] qs h = h
AllSendable-rest (p ∷ ps) qs h = AllSendable-rest ps qs h.1

-- Whatever the sizes of the reads, the packets handed on so far are the first of those sent,
-- in order and unchanged, and the state awaits exactly the others.
receive_all-Delivers :
    (s : Receive) (reads : List (List ℕ)) (w : List ℕ) (ps : List Packet)
    → AllSendable ps
    → FitReads s reads
    → Awaits s (flat reads ++ w) ps
    → Delivers (receive_all s reads) w ps
unfolding receive_all
receive_all-Delivers s [] w ps h fit a = (ps, refl, a)
receive_all-Delivers s (bytes ∷ reads) w ps h fit a =
    let (rest, total, awaits) =
      receive-Delivers s bytes (flat reads ++ w) ps h fit.0
        (subst (λ t. Awaits s t ps) (append_assoc bytes (flat reads) w) a) in
    let (rest', total', awaits') =
      receive_all-Delivers (receive s bytes).1 reads w rest
        (AllSendable-rest (receive s bytes).0 rest (subst AllSendable (sym total) h)) fit.1
        awaits in
    (
      rest',
      append_assoc (receive s bytes).0 (receive_all (receive s bytes).1 reads).0 rest'
          ∙ ap (◌++◌ (receive s bytes).0) total'
          ∙ total,
      awaits',
    )

Awaits-wire : (ps : List Packet) → Awaits (fixed []) (wire ps) ps
Awaits-wire ps = (refl, Incomplete-nil ps)

-- With nothing to come, a state awaits nothing only if it is the empty buffer.
Awaits-end : (s : Receive) (ps : List Packet) → Awaits s [] ps → (ps ≡ []) × (s ≡ fixed [])
unfolding wire
Awaits-end (fixed buffer) [] a = (refl, ap fixed (sym (append-nil buffer) ∙ a.0))
Awaits-end (fixed buffer) (p ∷ ps) a = absurd (
    omega
      (arith, ap length (sym (append-nil buffer) ∙ a.0), length-append (encode p) (wire ps), a.1))
Awaits-end (chunk stream size got) [] a = absurd a
Awaits-end (chunk stream size got) (p ∷ ps) (_, size_eq, e, open_) =
    absurd (omega (arith, ap length (sym (append-nil got) ∙ e), length-append p.payload (wire ps)))

-- When all bytes of some sendable packets have come, in pieces of any size that fits, exactly these
-- packets have been handed on, in order, and the buffer is empty again.
pub receive_all-wire :
    (reads : List (List ℕ)) (ps : List Packet)
    → AllSendable ps
    → FitReads (fixed []) reads
    → flat reads ≡ wire ps
    → receive_all (fixed []) reads ≡ (ps, fixed [])
receive_all-wire reads ps h fit e =
    let (rest, total, awaits) =
      receive_all-Delivers (fixed []) reads [] ps h fit (
        subst (λ t. Awaits (fixed []) t ps) (sym (append-nil (flat reads) ∙ e)) (Awaits-wire ps)) in
    let (none_left, empty) = Awaits-end (receive_all (fixed []) reads).1 rest awaits in
    λ i. ((sym (append-nil (receive_all (fixed []) reads).0) ∙ (rw none_left at total)) i, empty i)
