-- ===== src/Network/MultiplexedSocket/Sending.antt =====
-- `sendBytes`, `sendBytesNow` and `CommitCallbacks`: what goes to each socket, and in which order.
use sirikata.Base.{
  ℕ, zero, suc, ◌+◌, ◌-◌, ◌%◌, ◌<◌, ◌≡◌, refl, sym, ap, ◌∙◌, Bool, true, false, ◌||◌, ◌&&◌, Option,
  none, some, List, [], ◌∷◌, ◌++◌, ◌==◌, leb, ltb, if◌then◌else◌, arith, append_assoc, append-nil,
}
use sirikata.Network.MultiplexedSocket.{
  Socket, preconnection, connected, Request, raw_send_each, raw_send_all, emit, emit_all,
  send_bytes_now, flush, send_bytes, set_phase, commit_callback, commit_each, commit_callbacks,
}

-- What one socket got, in order.
abbrev pub on_socket : ℕ → List (ℕ × List ℕ) → List (List ℕ)
on_socket k [] = []
on_socket k ((j, bytes) ∷ log) = if j == k then bytes ∷ on_socket k log else on_socket k log

on_socket-append :
    (k : ℕ) (log more : List (ℕ × List ℕ))
    → on_socket k (log ++ more) ≡ on_socket k log ++ on_socket k more
on_socket-append k [] more = refl
on_socket-append k ((j, bytes) ∷ log) more = ground (arith, on_socket-append k log more)

on_socket-raw_send_each :
    (k i n : ℕ) (bytes : List ℕ)
    → on_socket k (raw_send_each i n bytes) ≡ (if leb i k && ltb k (i + n) then bytes ∷ [] else [])
unfolding raw_send_each
on_socket-raw_send_each k i zero bytes = ground arith
on_socket-raw_send_each k i (suc n) bytes =
    ground (arith, on_socket-raw_send_each k (suc i) n bytes)

on_socket-raw_send_all :
    (k n : ℕ) (bytes : List ℕ) → k < n → on_socket k (raw_send_all n bytes) ≡ bytes ∷ []
unfolding raw_send_all
on_socket-raw_send_all k n bytes h = ground (
  arith,
  on_socket-append k (raw_send_each 1 (n - 1) bytes) ((0, bytes) ∷ []),
  on_socket-raw_send_each k 1 (n - 1) bytes,
)

abbrev pub AllOrdered : List Request → Type 0
AllOrdered [] = Unit {0}
AllOrdered (r ∷ rs) = (r.unordered ≡ false) × (r.unreliable ≡ false) × AllOrdered rs

module _ (hash rand : ℕ → ℕ) (kept : ℕ → Bool) where
  -- What a socket is to get: the control packets and the data of the streams that hash to it.
  abbrev pub meant_for : ℕ → ℕ → List Request → List (List ℕ)
  meant_for n k [] = []
  meant_for n k (r ∷ rs) =
      if r.origin == 0 || hash r.origin % n == k
      then r.bytes ∷ meant_for n k rs
      else meant_for n k rs

  emit-ordered :
      (n k : ℕ) (r : Request) (out : ℕ × List (ℕ × List ℕ))
      → r.unordered ≡ false
      → r.unreliable ≡ false
      → k < n
      → on_socket k (emit hash rand kept n r out).1 ≡ on_socket k out.1 ++ meant_for n k (r ∷ [])
  unfolding emit
  emit-ordered n k r (draws, log) o u h = ground (
    arith,
    on_socket-append k log (raw_send_all n r.bytes),
    on_socket-raw_send_all k n r.bytes h,
    on_socket-append k log ((hash r.origin % n, r.bytes) ∷ []),
  )

  meant_for-append :
      (n k : ℕ) (rs qs : List Request)
      → meant_for n k (rs ++ qs) ≡ meant_for n k rs ++ meant_for n k qs
  meant_for-append n k [] qs = refl
  meant_for-append n k (r ∷ rs) qs = ground (arith, meant_for-append n k rs qs)

  emit_all-ordered :
      (n k : ℕ) (rs : List Request) (out : ℕ × List (ℕ × List ℕ))
      → AllOrdered rs
      → k < n
      → on_socket k (emit_all hash rand kept n rs out).1 ≡ on_socket k out.1 ++ meant_for n k rs
  unfolding emit_all
  emit_all-ordered n k [] out o h = sym (append-nil (on_socket k out.1))
  emit_all-ordered n k (r ∷ rs) out (o, u, os) h =
      emit_all-ordered n k rs (emit hash rand kept n r out) os h
      ∙ ap (λ t. t ++ meant_for n k rs) (emit-ordered n k r out o u h)
      ∙ append_assoc (on_socket k out.1) (meant_for n k (r ∷ [])) (meant_for n k rs)
      ∙ ap (◌++◌ (on_socket k out.1)) (sym (meant_for-append n k (r ∷ []) rs))

  -- The socket after the given log.
  abbrev logged : ℕ × List (ℕ × List ℕ) → Socket → Socket
  logged out m = record m { draws = out.0; sent = out.1 }

  flush-emit_all :
      (rs : List Request) (m : Socket)
      → flush hash rand kept rs m
        ≡ logged (emit_all hash rand kept m.sockets rs (m.draws, m.sent)) m
  unfolding flush emit_all send_bytes_now
  flush-emit_all [] m = refl
  flush-emit_all (r ∷ rs) m =
      flush-emit_all rs (logged (emit hash rand kept m.sockets r (m.draws, m.sent)) m)

  abbrev pub send_all : List Request → Socket → Socket
  send_all [] m = m
  send_all (r ∷ rs) m = send_all rs (send_bytes hash rand kept r m)

  send_bytes-early :
      (r : Request) (m : Socket)
      → m.phase ≡ preconnection
      → send_bytes hash rand kept r m ≡ record m { new_requests = m.new_requests ++ r ∷ [] }
  unfolding send_bytes
  send_bytes-early r m h = ground arith

  send_bytes-connected :
      (r : Request) (m : Socket)
      → m.phase ≡ connected
      → send_bytes hash rand kept r m ≡ send_bytes_now hash rand kept r m
  unfolding send_bytes
  send_bytes-connected r m h = ground arith

  send_all-early :
      (rs : List Request) (m : Socket)
      → m.phase ≡ preconnection
      → send_all rs m ≡ record m { new_requests = m.new_requests ++ rs }
  send_all-early [] m h = ap (λ l. record m { new_requests = l }) (sym (append-nil m.new_requests))
  send_all-early (r ∷ rs) m h =
      ap (send_all rs) (send_bytes-early r m h)
      ∙ send_all-early rs (record m { new_requests = m.new_requests ++ r ∷ [] }) h
      ∙ ap (λ l. record m { new_requests = l }) (append_assoc m.new_requests (r ∷ []) rs)

  send_all-connected :
      (rs : List Request) (m : Socket)
      → m.phase ≡ connected
      → send_all rs m ≡ logged (emit_all hash rand kept m.sockets rs (m.draws, m.sent)) m
  unfolding emit_all send_bytes_now
  send_all-connected [] m h = refl
  send_all-connected (r ∷ rs) m h =
      ap (send_all rs) (send_bytes-connected r m h)
      ∙ send_all-connected rs (logged (emit hash rand kept m.sockets r (m.draws, m.sent)) m) h

  -- What the commit of callbacks leaves alone.
  pub record SameWire (m m' : Socket) : Type 0 where
    pub sockets : m'.sockets ≡ m.sockets
    pub phase : m'.phase ≡ m.phase
    pub new_requests : m'.new_requests ≡ m.new_requests
    pub draws : m'.draws ≡ m.draws
    pub sent : m'.sent ≡ m.sent

  commit_each-SameWire : (rs : List (ℕ × Option ℕ)) (m : Socket) → SameWire m (commit_each rs m)
  unfolding commit_each commit_callback
  commit_each-SameWire [] m = record {
    sockets = refl;
    phase = refl;
    new_requests = refl;
    draws = refl;
    sent = refl;
  }
  commit_each-SameWire ((id, none) ∷ rs) m =
      let r = commit_each-SameWire rs (commit_callback (id, none) m) in
      record {
        sockets = r.sockets;
        phase = r.phase;
        new_requests = r.new_requests;
        draws = r.draws;
        sent = r.sent;
      }
  commit_each-SameWire ((id, some cb) ∷ rs) m =
      let r = commit_each-SameWire rs (commit_callback (id, some cb) m) in
      record {
        sockets = r.sockets;
        phase = r.phase;
        new_requests = r.new_requests;
        draws = r.draws;
        sent = r.sent;
      }

  -- The early requests go out, in order, and the queue is empty.
  connect-emit_all :
      (m : Socket)
      → SameWire
          (record (logged (emit_all hash rand kept m.sockets m.new_requests (m.draws, m.sent)) m) {
            phase = connected;
            new_requests = [];
            registrations = [];
          })
          (commit_callbacks hash rand kept connected true m).0
  unfolding commit_callbacks set_phase flush
  connect-emit_all m =
      rw (flush-emit_all m.new_requests (record m { new_requests = [] }))
        (commit_each-SameWire m.registrations _)

  -- A socket before its connection, with no request queued: each connection gets exactly the
  -- ordered reliable requests that are meant for it, those sent before the
  -- connection was made and those sent after it, in the order in which they were sent.
  pub on_socket-send_all :
      (k : ℕ) (rs qs : List Request) (m : Socket)
      → m.phase ≡ preconnection
      → m.new_requests ≡ []
      → AllOrdered rs
      → AllOrdered qs
      → k < m.sockets
      → on_socket k
          (send_all qs (commit_callbacks hash rand kept connected true (send_all rs m)).0).sent
        ≡ on_socket k m.sent ++ meant_for m.sockets k (rs ++ qs)
  on_socket-send_all k rs qs m early none_queued o o' h =
      let start : ℕ × List (ℕ × List ℕ) = (m.draws, m.sent) in
      let m0 = record m { new_requests = m.new_requests ++ rs } in
      let c = connect-emit_all m0 in
      let m1 = (commit_callbacks hash rand kept connected true m0).0 in
      let sent_early : on_socket k m1.sent ≡ on_socket k m.sent ++ meant_for m.sockets k rs =
        ap (on_socket k) c.sent
        ∙ ap (λ l. on_socket k (emit_all hash rand kept m.sockets (l ++ rs) start).1) none_queued
        ∙ emit_all-ordered m.sockets k rs start o h in
      ap (λ x. on_socket k (send_all qs (commit_callbacks hash rand kept connected true x).0).sent)
        (send_all-early rs m early)
      ∙ ap (λ x. on_socket k x.sent) (send_all-connected qs m1 c.phase)
      ∙ emit_all-ordered m1.sockets k qs (m1.draws, m1.sent) o' (omega (arith, c.sockets))
      ∙ ap (λ n. on_socket k m1.sent ++ meant_for n k qs) c.sockets
      ∙ ap (λ t. t ++ meant_for m.sockets k qs) sent_early
      ∙ append_assoc (on_socket k m.sent) (meant_for m.sockets k rs) (meant_for m.sockets k qs)
      ∙ ap (◌++◌ (on_socket k m.sent)) (sym (meant_for-append m.sockets k rs qs))
