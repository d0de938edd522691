-- ===== src/Network/MultiplexedSocket/Callbacks.antt =====
-- Which callbacks a `MultiplexedSocket` calls, on a change of the connection and on a closed stream.
use sirikata.Base.{
  ℕ, ◌≡◌, refl, sym, ap, ◌∙◌, inl, inr, Bool, true, not, Option, none, some, List, [], ◌∷◌, ◌++◌,
  map, append-nil, Option-cases, if◌then◌else◌, arith, Bool-cases,
}
use sirikata.Base.Assoc.{lookup, remove, Distinct, lookup-remove}
use sirikata.Network.Frame.{close_stream}
use sirikata.Network.MultiplexedSocket.{
  Socket, Phase, preconnection, waitconnecting, connected, disconnected, phase_eq, Call,
  send_closed, told_disconnected, Request, commit_callback, commit_each, flush, send_bytes_now,
  set_phase, commit_callbacks,
}
use sirikata.Network.MultiplexedSocket.Closing.{commit-nil}
use sirikata.Network.MultiplexedSocket.Close.{
  commit, tell_closed, free_id, shut_down_closed_stream, connection_changed,
}

phase_eq_refl : (p : Phase) → phase_eq p p ≡ true
phase_eq_refl preconnection = refl
phase_eq_refl waitconnecting = refl
phase_eq_refl connected = refl
phase_eq_refl disconnected = refl

phase_eq-connected : (p : Phase) → phase_eq p connected ≡ true → p ≡ connected
phase_eq-connected preconnection h = absurd (cc)
phase_eq-connected waitconnecting h = absurd (cc)
phase_eq-connected connected h = refl
phase_eq-connected disconnected h = absurd (cc)

commit_each-called :
    (rs : List (ℕ × Option ℕ)) (m : Socket)
    → ((commit_each rs m).called ≡ m.called) × ((commit_each rs m).phase ≡ m.phase)
unfolding commit_each commit_callback
commit_each-called [] m = (refl, refl)
commit_each-called ((id, none) ∷ rs) m = commit_each-called rs (commit_callback (id, none) m)
commit_each-called ((id, some cb) ∷ rs) m = commit_each-called rs (commit_callback (id, some cb) m)

module _ (hash rand : ℕ → ℕ) (kept : ℕ → Bool) where
  flush-called :
      (rs : List Request) (m : Socket)
      → ((flush hash rand kept rs m).called ≡ m.called)
        × ((flush hash rand kept rs m).phase ≡ m.phase)
        × ((flush hash rand kept rs m).callbacks ≡ m.callbacks)
        × ((flush hash rand kept rs m).registrations ≡ m.registrations)
  unfolding flush send_bytes_now
  flush-called [] m = (refl, refl, refl, refl)
  flush-called (r ∷ rs) m = flush-called rs (send_bytes_now hash rand kept r m)

  set_phase-called :
      (status : Phase) (m : Socket)
      → ((set_phase hash rand kept status m).called ≡ m.called)
        × ((set_phase hash rand kept status m).phase ≡ status)
  unfolding set_phase
  set_phase-called status m =
      ground (arith, flush-called m.new_requests m, phase_eq-connected status)

  -- The phase is then the given one, and the answer is whether it was another one.
  commit_callbacks-called :
      (status : Phase) (m : Socket)
      → ((commit_callbacks hash rand kept status true m).0.called ≡ m.called)
        × ((commit_callbacks hash rand kept status true m).0.phase ≡ status)
        × ((commit_callbacks hash rand kept status true m).1 ≡ not (phase_eq status m.phase))
  unfolding commit_callbacks
  commit_callbacks-called status m =
      let m1 =
        if phase_eq status connected
        then flush hash rand kept m.new_requests (record m { new_requests = [] })
        else m in
      let m2 = set_phase hash rand kept status m1 in
      let flushed = flush-called m.new_requests (record m { new_requests = [] }) in
      let same : (m1.called ≡ m.called) × (m1.phase ≡ m.phase) =
        elim (Bool-cases (phase_eq status connected)) [
          | inl made ↦ rw made (flushed.0, flushed.1)
          | inr other ↦ rw other (refl, refl)
        ] in
      let set = set_phase-called status m1 in
      let committed = commit_each-called m2.registrations (record m2 { registrations = [] }) in
      (committed.0 ∙ set.0 ∙ same.0, committed.1 ∙ set.1, ap (λ p. not (phase_eq status p)) same.1)

module _ (hash rand : ℕ → ℕ) (kept : ℕ → Bool) (react : ℕ → List (ℕ × Option ℕ))
    (accept : ℕ → Option ℕ) where
  connection_changed-phase :
      (status : Phase) (tell : ℕ → Call) (m : Socket)
      → ((connection_changed hash rand kept react accept status tell m).phase ≡ status)
        × ((connection_changed hash rand kept react accept status tell m).called
            ≡ m.called
              ++ (if phase_eq status m.phase
                  then []
                  else map
                      (λ c. tell c.1)
                      (connection_changed hash rand kept react accept status tell m).callbacks))
  unfolding connection_changed
  connection_changed-phase status tell m =
      let (called, phase, changed) = commit_callbacks-called hash rand kept status m in
      elim (Bool-cases (phase_eq status m.phase)) [
        | inl same ↦ rw (changed ∙ ap not same, same) (phase, called ∙ sym (append-nil m.called))
        | inr other ↦
            rw (changed ∙ ap not other, other)
              (
                phase,
                ap
                    (λ l.
                      l
                      ++ map (λ c. tell c.1)
                          (commit_callbacks hash rand kept status true m).0.callbacks)
                    called,
              )
      ]

  -- A change of the connection that is reported twice, as when two sockets of it fail, is told to
  -- each callback once: by the first report if the phase was another one, and not by the second.
  pub connection_changed-twice :
      (status : Phase) (tell again : ℕ → Call) (m : Socket)
      → let once = connection_changed hash rand kept react accept status tell m in
        (once.phase ≡ status)
        × (once.called
            ≡ m.called
              ++ (if phase_eq status m.phase then [] else map (λ c. tell c.1) once.callbacks))
        × ((connection_changed hash rand kept react accept status again once).called ≡ once.called)
  connection_changed-twice status tell again m =
      let once = connection_changed hash rand kept react accept status tell m in
      let (phase, called) = connection_changed-phase status tell m in
      let (_, called') = connection_changed-phase status again once in
      let same : phase_eq status once.phase ≡ true =
        ap (phase_eq status) phase ∙ phase_eq_refl status in
      (
        phase,
        called,
        called'
            ∙ ap
                (λ b.
                  once.called
                  ++ (if b
                      then []
                      else map (λ c. again c.1)
                          (connection_changed hash rand kept react accept status again
                            once).callbacks))
                same
            ∙ append-nil once.called,
      )

  commit-close :
      (id : ℕ) (m : Socket)
      → m.registrations ≡ (id, none) ∷ []
      → (commit hash rand kept react accept m).callbacks ≡ remove id m.callbacks
  unfolding commit_callbacks commit_each commit_callback
  commit-close id m e =
      ground (arith, flush-called hash rand kept m.new_requests (record m { new_requests = [] }))

  -- The state in which the callback is told.
  abbrev told : ℕ → Socket → Socket
  told cb m = record m {
    called = m.called ++ send_closed cb ∷ told_disconnected cb ∷ [];
    registrations = m.registrations ++ react cb;
  }

  abbrev then_free : ℕ → Option Socket → Option Socket
  then_free id none = none
  then_free id (some m) = some (free_id id m)

  shut_down-tell_closed :
      (id cb : ℕ) (m : Socket)
      → m.registrations ≡ []
      → lookup id m.callbacks ≡ some cb
      → shut_down_closed_stream hash rand kept react accept close_stream id m
        ≡ then_free id (tell_closed hash rand kept react accept cb id m)
  unfolding shut_down_closed_stream
  shut_down-tell_closed id cb m settled there =
      let same = commit-nil hash rand kept react accept m settled in
      let at = ap (λ s. lookup id s.callbacks) same ∙ there in
      elim (Option-cases
        (tell_closed hash rand kept react accept cb id (commit hash rand kept react accept m))) [
          | inl fault ↦
              rw (at, shut_down_closed_stream, fault)
                (sym (
                  ap (then_free id)
                    (ap (tell_closed hash rand kept react accept cb id) (sym same) ∙ fault)))
          | inr (m', done) ↦
              rw (at, shut_down_closed_stream, done)
                (sym (
                  ap (then_free id)
                    (ap (tell_closed hash rand kept react accept cb id) (sym same) ∙ done)))
        ]

  tell_closed-some :
      (cb id cb' : ℕ) (m : Socket)
      → lookup id (commit hash rand kept react accept (told cb m)).callbacks ≡ some cb'
      → tell_closed hash rand kept react accept cb id m
        ≡ some (record (commit hash rand kept react accept (told cb m)) {
          callbacks = remove id (commit hash rand kept react accept (told cb m)).callbacks;
        })
  unfolding tell_closed
  tell_closed-some cb id cb' m e = rw (e, tell_closed) refl

  tell_closed-none :
      (cb id : ℕ) (m : Socket)
      → lookup id (commit hash rand kept react accept (told cb m)).callbacks ≡ none
      → tell_closed hash rand kept react accept cb id m ≡ none
  unfolding tell_closed
  tell_closed-none cb id m e = rw (e, tell_closed) refl

  -- With no registration pending and distinct callbacks, a stream that the other side closes, whose
  -- callback is told: if the callback registers nothing,
  -- the stream has no callback any more; if it closes the stream itself, the code dereferences an
  -- iterator at the end of the map.
  pub shut_down-told :
      (id cb : ℕ) (m : Socket)
      → m.registrations ≡ []
      → Distinct m.callbacks
      → lookup id m.callbacks ≡ some cb
      → (react cb ≡ []
          → (m' : Socket) × (shut_down_closed_stream hash rand kept react accept close_stream id m
              ≡ some m')
            × (lookup id m'.callbacks ≡ none)
            × (m'.called ≡ m.called ++ send_closed cb ∷ told_disconnected cb ∷ []))
        × (react cb ≡ (id, none) ∷ []
            → shut_down_closed_stream hash rand kept react accept close_stream id m ≡ none)
  unfolding free_id
  shut_down-told id cb m settled d there =
      let gone : lookup id (remove id m.callbacks) ≡ none =
        ground (arith, lookup-remove id id m.callbacks d) in
      let registered : (told cb m).registrations ≡ react cb = ap (λ l. l ++ react cb) settled in
      (
        λ quiet.
            let same = commit-nil hash rand kept react accept (told cb m) (registered ∙ quiet) in
            (
              free_id id (record (commit hash rand kept react accept (told cb m)) {
                callbacks = remove id (commit hash rand kept react accept (told cb m)).callbacks;
              }),
              shut_down-tell_closed id cb m settled there
                  ∙ ap (then_free id)
                      (tell_closed-some cb id cb m (ap (λ s. lookup id s.callbacks) same ∙ there)),
              ap (λ s. lookup id (remove id s.callbacks)) same ∙ gone,
              ap (λ s. s.called) same,
            ),
        λ closes.
            shut_down-tell_closed id cb m settled there
            ∙ ap (then_free id) (
                tell_closed-none cb id m
                  (ap (lookup id) (commit-close id (told cb m) (registered ∙ closes)) ∙ gone)),
      )
