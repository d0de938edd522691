-- ===== src/Network/ReadBuffer/Translate.antt =====
-- `translateBuffer` on the bytes of packets: those that are whole are handed on, in order.
use sirikata.Base.{
  ℕ, zero, suc, ◌+◌, ◌≤◌, ◌<◌, ◌≡◌, refl, sym, ap, ◌∙◌, inl, inr, subst, List, [], ◌∷◌, ◌++◌, none,
  arith, ltb, Bool-cases, not-ltb→le, le→not-ltb, lt→ltb, length, length-append, append-split,
  drop-append, take-append, length-zero, append_assoc,
}
use sirikata.Network.Uint30.{
  serialize, unserialize, unserialize-short, unserialize-serialize, length-serialize_bounds,
}
use sirikata.Network.Frame.{Packet, body, encode, wire, wire-cons, IsSendable, AllSendable}
use sirikata.Network.ReadBuffer.{
  Receive, fixed, chunk, process_partial_chunk, translate, low_water_mark, start_chunk,
}

-- The first packet is not in the buffer as a whole.
abbrev pub Incomplete : List ℕ → List Packet → Type 0
Incomplete buffer [] = Unit {0}
Incomplete buffer (p ∷ ps) = length buffer < length (encode p)

-- In this state, with `w` still to come, exactly the packets `ps` are still to be handed on.
abbrev pub Awaits : Receive → List ℕ → List Packet → Type 0
Awaits (fixed buffer) w ps = (buffer ++ w ≡ wire ps) × Incomplete buffer ps
Awaits (chunk stream size got) w [] = ⊥
Awaits (chunk stream size got) w (p ∷ ps) =
    (p.stream ≡ stream)
    × (length p.payload ≡ size)
    × (got ++ w ≡ p.payload ++ wire ps)
    × (length got < size)

abbrev pub Delivers : List Packet × Receive → List ℕ → List Packet → Type 0
Delivers (packets, s) w ps = (rest : List Packet) × (packets ++ rest ≡ ps) × Awaits s w rest

-- A packet whose bytes are all there is handed on whole.
process_partial_chunk-whole :
    (p : Packet)
    → IsSendable p
    → process_partial_chunk (body p) (length (body p)) ≡ (p.stream, length p.payload, p.payload)
unfolding process_partial_chunk body
process_partial_chunk-whole p h =
    rw (unserialize-serialize p.stream p.payload h.stream_fits, drop-append)
      (ground (arith, length-append (serialize p.stream) p.payload))

long :
    (p : Packet) (q : List ℕ)
    → length (body p) + length (serialize (length (body p)))
      ≤ length (serialize (length (body p)) ++ (body p ++ q))
long p q =
    omega
      (arith, length-append (serialize (length (body p))) (body p ++ q), length-append (body p) q)

-- The part of a packet from which a chunk is started holds the whole stream id.
process_partial_chunk-part :
    (p : Packet) (r w : List ℕ) (ps : List Packet)
    → IsSendable p
    → 4 ≤ length r
    → length r < length (body p)
    → r ++ w ≡ body p ++ wire ps
    → (got : List ℕ) × (process_partial_chunk r (length (body p))
        ≡ (p.stream, length p.payload, got))
      × (got ++ w ≡ p.payload ++ wire ps)
      × (length got < length p.payload)
unfolding process_partial_chunk body
process_partial_chunk-part p r w ps h enough short e =
    elim (append-split r w (serialize p.stream) (p.payload ++ wire ps)
      (e ∙ append_assoc (serialize p.stream) p.payload (wire ps))) [
        | inl less ↦ absurd (omega (arith, length-serialize_bounds p.stream))
        | inr (got, cut, follows) ↦ (
          got,
          rw (cut, unserialize-serialize p.stream got h.stream_fits, drop-append)
              (ground (arith, length-append (serialize p.stream) p.payload)),
          follows,
          omega (
            arith,
            ap length cut,
            length-append (serialize p.stream) got,
            length-append (serialize p.stream) p.payload,
          ),
        )
      ]

pub length-encode :
    (p : Packet) → length (encode p) ≡ length (serialize (length (body p))) + length (body p)
unfolding encode
length-encode p = length-append (serialize (length (body p))) (body p)

module _ (fuel : ℕ) where
  translate-none : (bs : List ℕ) → unserialize bs ≡ none → translate (suc fuel) bs ≡ ([], fixed bs)
  unfolding translate
  translate-none bs e = rw (e, translate)

  -- One round over a whole packet.
  translate-whole :
      (p : Packet) (q : List ℕ)
      → IsSendable p
      → translate (suc fuel) (serialize (length (body p)) ++ (body p ++ q))
        ≡ (p ∷ (translate fuel q).0, (translate fuel q).1)
  unfolding translate
  translate-whole p q h = rw (
    unserialize-serialize (length (body p)) (body p ++ q) h.length_fits,
    translate,
    drop-append (serialize (length (body p))) (body p ++ q),
    drop-append (body p) q,
    take-append (body p) q,
    process_partial_chunk-whole p h,
    le→not-ltb _ (length (body p) + length (serialize (length (body p)))) (long p q),
  )

  -- A round over a part of a packet: it waits for more, or starts a chunk.
  translate-part :
      (p : Packet) (r w : List ℕ) (ps : List Packet)
      → IsSendable p
      → length r < length (body p)
      → r ++ w ≡ body p ++ wire ps
      → Delivers (translate (suc fuel) (serialize (length (body p)) ++ r)) w (p ∷ ps)
  unfolding translate wire
  translate-part p r w ps h short e =
      rw
        (
          unserialize-serialize (length (body p)) r h.length_fits,
          translate,
          drop-append (serialize (length (body p))) r,
          lt→ltb (length (serialize (length (body p)) ++ r))
              (length (body p) + length (serialize (length (body p)))) less,
        )
        (elim (Bool-cases (ltb (length (serialize (length (body p)) ++ r)) low_water_mark)) [
          | inl low ↦ rw low (p ∷ ps, refl, (joined, less'))
          | inr high ↦
              let (got, same, follows, open_) =
                process_partial_chunk-part p r w ps h
                  (omega (
                    arith,
                    not-ltb→le _ _ high,
                    length-append (serialize (length (body p))) r,
                    length-serialize_bounds (length (body p)),
                  ))
                  short e in
              rw high (
                subst (λ t. Delivers ([], start_chunk t) w (p ∷ ps)) (sym same)
                  (p ∷ ps, refl, (refl, refl, follows, open_)))
        ])
    where
      less :
          length (serialize (length (body p)) ++ r)
          < length (body p) + length (serialize (length (body p)))
      less = omega (arith, length-append (serialize (length (body p))) r)

      less' : length (serialize (length (body p)) ++ r) < length (encode p)
      less' = omega (arith, less, length-encode p)

      joined : (serialize (length (body p)) ++ r) ++ w ≡ encode p ++ wire ps
      joined =
          append_assoc (serialize (length (body p))) r w
          ∙ ap (◌++◌ (serialize (length (body p)))) e
          ∙ sym (wire-cons p ps)

pub nothing : (bs w : List ℕ) → bs ++ w ≡ wire [] → length bs ≤ 0
unfolding wire
nothing bs w e = omega (arith, ap length e, length-append bs w)

nothing_read : unserialize [] ≡ none
unfolding unserialize
nothing_read = refl

pub translate-Delivers :
    (fuel : ℕ) (bs w : List ℕ) (ps : List Packet)
    → AllSendable ps
    → length bs < fuel
    → bs ++ w ≡ wire ps
    → Delivers (translate fuel bs) w ps
translate-Delivers zero bs w ps h f e = absurd (omega arith)
translate-Delivers (suc fuel) bs w [] h f e =
    let none_left : bs ≡ [] = length-zero bs (nothing bs w e) in
    rw (none_left, translate-none fuel [] nothing_read) ([], refl, ((rw none_left at e), tt))
translate-Delivers (suc fuel) bs w (p ∷ ps) h f e =
    elim (append-split bs w (serialize (length (body p))) (body p ++ wire ps)
      (e ∙ wire-cons p ps)) [
        | inl short ↦
            rw (translate-none fuel bs (unserialize-short _ bs w _ (e ∙ wire-cons p ps) short))
              (p ∷ ps, refl, (e, omega (arith, length-encode p)))
        | inr (r, cut, follows) ↦ elim (append-split r w (body p) (wire ps) follows) [
          | inl part ↦ rw cut (translate-part fuel p r w ps h.0 part follows)
          | inr (q, cut', follows') ↦
              let fewer : length q < fuel = omega (
                arith,
                ap length cut,
                ap length cut',
                length-append (body p) q,
                length-append (serialize (length (body p))) r,
                length-serialize_bounds (length (body p)),
              ) in
              let (rest, total, awaits) = translate-Delivers fuel q w ps h.1 fewer follows' in
              rw (cut, cut', translate-whole fuel p q h.0) (rest, ap (◌∷◌ p) total, awaits)
        ]
      ]
