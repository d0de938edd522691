-- ===== src/Network/Link/Delivery.antt =====
-- What is sent on the streams of one side is what the callbacks of the other side get.
use sirikata.Base.{
  ℕ, ◌%◌, ◌<◌, ◌≡◌, refl, sym, ap, subst, ◌∙◌, Bool, true, false, inl, inr, Bool-cases, Option,
  some, List, [], ◌∷◌, ◌++◌, append_assoc, append-nil, ◌==◌, arith,
}
use sirikata.Base.Quantify.{All, All-map}
use sirikata.Base.Assoc.{lookup}
use sirikata.Network.Frame.{Packet, wire, AllSendable}
use sirikata.Network.MultiplexedSocket.{
  Socket, preconnection, connected, received, commit_callbacks,
}
use sirikata.Network.MultiplexedSocket.Close.{receive_full_chunk, receive_data}
use sirikata.Network.MultiplexedSocket.Sending.{
  on_socket, AllOrdered, meant_for, send_all, on_socket-send_all,
}
use sirikata.Network.ReadBuffer.{fixed, receive_all, FitReads}
use sirikata.Network.ReadBuffer.Reassembly.{flat, receive_all-wire}
use sirikata.Network.Link.{requests, carried, payloads, told_packets, process_full_chunks}

-- The stream of the packet is not that of control packets.
abbrev pub IsData : Packet → Type 0
IsData p = (p.stream == 0) ≡ false

requests-AllOrdered : (ps : List Packet) → AllOrdered (requests ps)
requests-AllOrdered [] = tt
requests-AllOrdered (p ∷ ps) = (refl, refl, requests-AllOrdered ps)

requests-append : (ps qs : List Packet) → requests (ps ++ qs) ≡ requests ps ++ requests qs
requests-append [] qs = refl
requests-append (p ∷ ps) qs = ground (arith, requests-append ps qs)

module _ (hash : ℕ → ℕ) where
  carried-AllSendable :
      (n k : ℕ) (ps : List Packet) → AllSendable ps → AllSendable (carried hash n k ps)
  carried-AllSendable n k [] h = tt
  carried-AllSendable n k (p ∷ ps) h = ground (arith, carried-AllSendable n k ps h.1)

  carried-All :
      (Q : Packet → Type 0) (n k : ℕ) (ps : List Packet) → All Q ps → All Q (carried hash n k ps)
  carried-All Q n k [] h = tt
  carried-All Q n k (p ∷ ps) h = elim (Bool-cases (hash p.stream % n == k)) [
    | inl on ↦ rw (on) (h.0, carried-All Q n k ps h.1)
    | inr off ↦ rw (off) (carried-All Q n k ps h.1)
  ]

  -- All packets of a stream go over one connection.
  payloads-carried :
      (n id : ℕ) (ps : List Packet) → payloads id (carried hash n (hash id % n) ps) ≡ payloads id ps
  payloads-carried n id [] = refl
  payloads-carried n id (p ∷ ps) = ground (arith, payloads-carried n id ps)

  module _ (rand : ℕ → ℕ) (kept : ℕ → Bool) where
    flat-meant_for :
        (n k : ℕ) (ps : List Packet)
        → All IsData ps
        → flat (meant_for hash rand kept n k (requests ps)) ≡ wire (carried hash n k ps)
    unfolding wire
    flat-meant_for n k [] data_only = refl
    flat-meant_for n k (p ∷ ps) data_only = ground (arith, flat-meant_for n k ps data_only.1)

  -- The socket, and the callback of each stream. Nothing waits to be registered.
  module _ (rand : ℕ → ℕ) (kept : ℕ → Bool) (react : ℕ → List (ℕ × Option ℕ))
      (accept : ℕ → Option ℕ) (cb : ℕ → ℕ) where
    abbrev pub Takes : List (ℕ × ℕ) → Packet → Type 0
    Takes callbacks p = ((p.stream == 0) ≡ false) × (lookup p.stream callbacks ≡ some (cb p.stream))

    receive_full_chunk-told :
        (p : Packet) (m : Socket)
        → m.registrations ≡ []
        → Takes m.callbacks p
        → receive_full_chunk hash rand kept react accept p.stream p.payload m
          ≡ some (record m { called = m.called ++ received (cb p.stream) p.payload ∷ [] })
    unfolding receive_full_chunk receive_data commit_callbacks lookup
    receive_full_chunk-told p m idle (data_stream, known) = rw (data_stream, idle, known) refl

    process_full_chunks-next :
        (p : Packet) (ps : List Packet) (m m1 : Socket)
        → receive_full_chunk hash rand kept react accept p.stream p.payload m ≡ some m1
        → process_full_chunks hash rand kept react accept (p ∷ ps) m
          ≡ process_full_chunks hash rand kept react accept ps m1
    unfolding process_full_chunks
    process_full_chunks-next p ps m m1 e = rw (process_full_chunks, e) refl

    process_full_chunks-told :
        (ps : List Packet) (m : Socket)
        → m.registrations ≡ []
        → All (Takes m.callbacks) ps
        → process_full_chunks hash rand kept react accept ps m
          ≡ some (record m { called = m.called ++ told_packets cb ps })
    unfolding process_full_chunks
    process_full_chunks-told [] m idle takes =
        ap (λ l. some (record m { called = l })) (sym (append-nil m.called))
    process_full_chunks-told (p ∷ ps) m idle takes =
        let m1 : Socket = record m { called = m.called ++ received (cb p.stream) p.payload ∷ [] } in
        process_full_chunks-next p ps m m1 (receive_full_chunk-told p m idle takes.0)
        ∙ (process_full_chunks-told ps m1 idle takes.1
            ∙ ap (λ l. some (record m { called = l }))
                (append_assoc m.called (received (cb p.stream) p.payload ∷ [])
                  (told_packets cb ps)))

    -- Let the side that sends be a socket before its connection, with no request queued, that has
    -- sent nothing on connection `k`; let packets that can be sent go out on its streams, none on
    -- stream 0, reliably and in order, `ps` before the connection is made and `qs` after it; and let
    -- the bytes of connection `k` come to the other side in pieces of any size that fits. If that
    -- side has a callback for each stream that is sent on, which only takes note of what it gets,
    -- and nothing to register, then its callbacks are told exactly the packets that the connection
    -- carries, in the order in which they were sent, no byte is left over, and of a stream of the
    -- connection these are all that were sent on it.
    pub deliver :
        (k : ℕ) (ps qs : List Packet) (m peer : Socket) (reads : List (List ℕ))
        → m.phase ≡ preconnection
        → m.new_requests ≡ []
        → on_socket k m.sent ≡ []
        → k < m.sockets
        → AllSendable (ps ++ qs)
        → FitReads (fixed []) reads
        → flat reads
          ≡ flat (
              on_socket k
                (send_all hash rand kept
                  (requests qs)
                  (commit_callbacks hash rand kept connected true
                    (send_all hash rand kept (requests ps) m)).0).sent)
        → peer.registrations ≡ []
        → All (Takes peer.callbacks) (ps ++ qs)
        → (process_full_chunks hash rand kept react accept (receive_all (fixed []) reads).0 peer
            ≡ some (record peer {
              called = peer.called ++ told_packets cb (carried hash m.sockets k (ps ++ qs));
            }))
          × ((receive_all (fixed []) reads).1 ≡ fixed [])
          × ((id : ℕ)
              → hash id % m.sockets ≡ k
              → payloads id (carried hash m.sockets k (ps ++ qs)) ≡ payloads id (ps ++ qs))
    deliver k ps qs m peer reads early none_queued unsent on_one sendable fit bytes idle takes =
        let n = m.sockets in
        let here = carried hash n k (ps ++ qs) in
        let sent =
          on_socket-send_all hash rand kept k (requests ps) (requests qs) m early none_queued
            (requests-AllOrdered ps) (requests-AllOrdered qs) on_one in
        let data_only : All IsData (ps ++ qs) =
          All-map {P = Takes peer.callbacks} {Q = IsData} (ps ++ qs) (λ p t. t.0) takes in
        let on_wire : flat reads ≡ wire here =
          bytes
          ∙ (ap flat sent
              ∙ (ap (λ l. flat (l ++ meant_for hash rand kept n k (requests ps ++ requests qs)))
                    unsent
                  ∙ (ap (λ l. flat (meant_for hash rand kept n k l)) (sym (requests-append ps qs))
                      ∙ flat-meant_for rand kept n k (ps ++ qs) data_only))) in
        let received_all =
          receive_all-wire reads here (carried-AllSendable n k (ps ++ qs) sendable) fit on_wire in
        (
          ap (λ r. process_full_chunks hash rand kept react accept r.0 peer) received_all
              ∙ process_full_chunks-told here peer idle
                  (carried-All (Takes peer.callbacks) n k (ps ++ qs) takes),
          ap (λ r. r.1) received_all,
          λ id on.
              subst (λ j. payloads id (carried hash n j (ps ++ qs)) ≡ payloads id (ps ++ qs)) on
                (payloads-carried n id (ps ++ qs)),
        )
