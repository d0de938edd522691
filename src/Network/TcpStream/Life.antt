-- ===== src/Network/TcpStream/Life.antt =====
-- The life of a `TCPStream`: cloned, sent on, closed.
use sirikata.Base.{
  ℕ, ◌+◌, ◌-◌, ◌*◌, ◌%◌, ◌^◌, ◌<◌, ◌≡◌, refl, ap, ◌∙◌, sym, subst, ◌⊎◌, inl, inr, Bool, true, false,
  Option, none, some, List, [], ◌∷◌, ◌++◌, ◌==◌, arith,
}
use sirikata.Network.Frame.{encode, close_stream, construct_control_packet}
use sirikata.Network.StreamStatus.{send_status_closing, closing}
use sirikata.Network.MultiplexedSocket.{
  Socket, connected, Request, raw_send_all, add_callbacks, get_new_id, emit, send_bytes_now,
  send_bytes, send_close,
}
use sirikata.Network.MultiplexedSocket.Ids.{
  IdsValid, get_new_id-IsFresh, get_new_id-nil, get_new_id-cons,
}
use sirikata.Network.TcpStream.{
  StreamReliability, reliable_ordered, TcpStream, to_be_sent, close_send_status, clone_from, send,
  close,
}

-- A new id leaves the rest of the socket as it is.
abbrev Keeps : Socket → ℕ × Socket → Type 0
Keeps m (id, m') =
    (m'.sent ≡ m.sent)
    × (m'.sockets ≡ m.sockets)
    × (m'.phase ≡ m.phase)
    × (m'.registrations ≡ m.registrations)

get_new_id-Keeps : (m : Socket) → Keeps m (get_new_id m)
get_new_id-Keeps m = by_free m.free_ids refl
  where
    by_free : (ids : List ℕ) → m.free_ids ≡ ids → Keeps m (get_new_id m)
    by_free [] e = subst (Keeps m) (sym (get_new_id-nil m e)) (refl, refl, refl, refl)
    by_free (id ∷ rest) e =
        subst (Keeps m) (sym (get_new_id-cons m id rest e)) (refl, refl, refl, refl)

abbrev cloned_stream : ℕ → TcpStream → TcpStream
cloned_stream id s = record s { attached = true; id = id }

abbrev registered : ℕ → ℕ → Socket → Socket
registered id callbacks m = record m {
  registrations = m.registrations ++ (id, some callbacks) ∷ [];
}

clone_from-attached :
    (other s : TcpStream) (callbacks : ℕ) (m : Socket)
    → other.attached ≡ true
    → m.phase ≡ connected
    → clone_from (some other) callbacks s m ≡ (
      cloned_stream (get_new_id m).0 s,
      registered (get_new_id m).0 callbacks (get_new_id m).1,
      true,
    )
unfolding clone_from add_callbacks
clone_from-attached other s callbacks m attached at_work =
    let phase = (get_new_id-Keeps m).2 ∙ at_work in rw (attached, phase) refl

not_zero : (id : ℕ) → 1 < id → (id == 0) ≡ false
not_zero id h = ground arith

-- A word that `closeSendStatus` leaves.
abbrev IsClosing : ℕ → Type 0
IsClosing status =
    (status ≡ send_status_closing)
    ⊎ ((status ≡ 2 * send_status_closing) ⊎ (status ≡ 3 * send_status_closing))

enters_closing : (status : ℕ) → IsClosing status → (closing ((status + 1) % 2 ^ 32) == 0) ≡ false
enters_closing status (inl e) = ground (arith, e)
enters_closing status (inr (inl e)) = ground (arith, e)
enters_closing status (inr (inr e)) = ground (arith, e)

IsClosing-below : (status : ℕ) → IsClosing status → status < 2 ^ 32
IsClosing-below status (inl e) = omega (arith, e)
IsClosing-below status (inr (inl e)) = omega (arith, e)
IsClosing-below status (inr (inr e)) = omega (arith, e)

leaves : (status : ℕ) → status < 2 ^ 32 → ((status + 1) % 2 ^ 32 + (2 ^ 32 - 1)) % 2 ^ 32 ≡ status
leaves status h = omega (arith, h)

clone_from-status :
    (other : Option TcpStream) (callbacks : ℕ) (s : TcpStream) (m : Socket)
    → (clone_from other callbacks s m).0.send_status ≡ s.send_status
unfolding clone_from
clone_from-status none callbacks s m = refl
clone_from-status (some other) callbacks s m = ground arith

-- The stream after it was cloned from other streams, each with the socket of that time.
abbrev pub clone_each : List (Option TcpStream × ℕ × Socket) → TcpStream → TcpStream
clone_each [] s = s
clone_each ((other, callbacks, m) ∷ clones) s = clone_each clones (clone_from other callbacks s m).0

clone_each-status :
    (clones : List (Option TcpStream × ℕ × Socket)) (s : TcpStream)
    → (clone_each clones s).send_status ≡ s.send_status
clone_each-status [] s = refl
clone_each-status ((other, callbacks, m) ∷ clones) s =
    clone_each-status clones (clone_from other callbacks s m).0
    ∙ clone_from-status other callbacks s m

module _ (hash rand : ℕ → ℕ) (kept : ℕ → Bool) where
  -- A closed stream refuses what is sent, and its word is as before.
  send-refused :
      (reliability : StreamReliability) (chunk : List ℕ) (s : TcpStream) (m : Socket)
      → IsClosing s.send_status
      → send hash rand kept reliability chunk s m ≡ (s, m)
  unfolding send
  send-refused reliability chunk s m flagged =
      let below : s.send_status < 2 ^ 32 = IsClosing-below s.send_status flagged in
      rw (enters_closing s.send_status flagged, leaves s.send_status below) refl

  send_close-connected :
      (id : ℕ) (m : Socket)
      → m.phase ≡ connected
      → (send_close hash rand kept close_stream id m).sent
        ≡ m.sent ++ raw_send_all m.sockets (construct_control_packet close_stream id)
  unfolding send_close send_bytes send_bytes_now emit
  send_close-connected id m e = rw (e) refl

  send_close-registrations :
      (id : ℕ) (m : Socket)
      → m.phase ≡ connected
      → (send_close hash rand kept close_stream id m).registrations ≡ m.registrations
  unfolding send_close send_bytes send_bytes_now emit
  send_close-registrations id m e = rw (e) refl

  send_bytes-ordered :
      (r : Request) (m : Socket)
      → m.phase ≡ connected
      → r.unordered ≡ false
      → r.unreliable ≡ false
      → (r.origin == 0) ≡ false
      → (send_bytes hash rand kept r m).sent ≡ m.sent ++ (hash r.origin % m.sockets, r.bytes) ∷ []
  unfolding send_bytes send_bytes_now emit
  send_bytes-ordered r m e o u named = rw (e, o, u, named) refl

  close-open :
      (s : TcpStream) (m : Socket)
      → s.send_status ≡ 0
      → close hash rand kept s m
        ≡ some (
          record s { send_status = send_status_closing },
          send_close hash rand kept close_stream s.id (add_callbacks s.id none m).0,
        )
  unfolding close close_send_status
  close-open s m e = rw (e) refl

  -- On a connected socket, with no send under way and none before that closed it, a close of a
  -- stream returns, sends the control packet on all connections and registers that the stream has
  -- no callbacks. A send on the closed stream then does nothing, whatever has become of the socket;
  -- and so it is after the closed stream was made a clone of other streams, any number of times. (A
  -- new `connect` would set the word to 0 again.)
  pub close-send :
      (s : TcpStream) (m : Socket)
      → m.phase ≡ connected
      → s.send_status ≡ 0
      → (s' : TcpStream) × (m' : Socket) × (close hash rand kept s m ≡ some (s', m'))
        × (m'.sent ≡ m.sent ++ raw_send_all m.sockets (construct_control_packet close_stream s.id))
        × (m'.registrations ≡ m.registrations ++ (s.id, none) ∷ [])
        × ((clones : List (Option TcpStream × ℕ × Socket)) (reliability : StreamReliability)
              (chunk : List ℕ) (later : Socket)
            → let s2 = clone_each clones s' in
              send hash rand kept reliability chunk s2 later ≡ (s2, later))
  unfolding add_callbacks
  close-send s m live zero_status =
      let s' : TcpStream = record s { send_status = send_status_closing } in
      let (m1, phase) = add_callbacks s.id none m in
      (
        s',
        send_close hash rand kept close_stream s.id m1,
        close-open s m zero_status,
        send_close-connected s.id m1 live,
        send_close-registrations s.id m1 live,
        λ clones reliability chunk later.
            send-refused reliability chunk (clone_each clones s') later
              (inl (clone_each-status clones s')),
      )

  send-open :
      (chunk : List ℕ) (s : TcpStream) (m : Socket)
      → s.send_status ≡ 0
      → send hash rand kept reliable_ordered chunk s m
        ≡ (s, send_bytes hash rand kept (to_be_sent reliable_ordered chunk s.id) m)
  unfolding send
  send-open chunk s m e =
      let enters : (closing ((s.send_status + 1) % 2 ^ 32) == 0) ≡ true = ground arith in
      rw (enters, leaves s.send_status (omega (arith, e))) refl

  -- What came of a clone: the stream, the socket and the answer.
  abbrev pub IsCloned : (ℕ → Bool) → ℕ → Socket → TcpStream × Socket × Bool → Type 0
  IsCloned live callbacks m (s', m', cloned) =
      (cloned ≡ true)
      × (live s'.id ≡ false)
      × (m'.registrations ≡ m.registrations ++ (s'.id, some callbacks) ∷ [])
      × ((chunk : List ℕ)
          → ((send hash rand kept reliable_ordered chunk s' m').0 ≡ s')
            × ((send hash rand kept reliable_ordered chunk s' m').1.sent
                ≡ m.sent
                  ++ (hash s'.id % m.sockets, encode (record { stream = s'.id; payload = chunk }))
                    ∷ []))

  -- With the ids valid, fewer than 2 ^ 32 numbers used, a connected socket and a stream that was
  -- not closed: a clone of an attached stream gets an id that is not in use and its callbacks
  -- registered under it. A reliable, ordered send on the clone then puts one packet of that id on
  -- the connection of the id, and changes the stream not at all.
  pub clone_from-send :
      (live : ℕ → Bool) (other s : TcpStream) (callbacks : ℕ) (m : Socket)
      → IdsValid live m
      → m.highest + 2 < 2 ^ 32
      → m.phase ≡ connected
      → other.attached ≡ true
      → s.send_status ≡ 0
      → IsCloned live callbacks m (clone_from (some other) callbacks s m)
  clone_from-send live other s callbacks m ids room at_work attached unused =
      let fresh = get_new_id-IsFresh live m ids room in
      let (sent, sockets, phase, registrations) = get_new_id-Keeps m in
      let cloned = clone_from-attached other s callbacks m attached at_work in
      subst (IsCloned live callbacks m) (sym cloned) (
        refl,
        fresh.0,
        ap (λ l. l ++ ((get_new_id m).0, some callbacks) ∷ []) registrations,
        λ chunk.
            let s' = cloned_stream (get_new_id m).0 s in
            let m' = registered (get_new_id m).0 callbacks (get_new_id m).1 in
            let opened = send-open chunk s' m' unused in
            let one =
              send_bytes-ordered (to_be_sent reliable_ordered chunk (get_new_id m).0) m'
                (phase ∙ at_work) refl refl (not_zero (get_new_id m).0 fresh.1) in
            (ap (λ t. t.0) opened, ap (λ t. t.1.sent) opened ∙ one ∙ rw (sent, sockets) refl),
      )
