-- ===== src/Network/StreamStatus/Closed.antt =====
-- When `closeSendStatus` has returned, nothing is sent on the stream any more.
use sirikata.Base.{ℕ, suc, ◌+◌, ◌*◌, ◌^◌, ◌≤◌, ◌<◌, ◌≡◌, ◌≢◌, ◌⊎◌, refl, sym, ap, ◌∙◌, true, arith}
use sirikata.Base.Family.{
  update, total, others, total-others, total-update, total-zero, others-bound, others_mono,
  others-lt,
}
use sirikata.Network.StreamStatus.{
  closing, Shared, SendPc, outside, allowed, ClosePc, adding, waiting, SendMove, enter_open,
  enter_closing, send_bytes, leave_handed, leave_refused, CloseMove, find_open, find_closing,
  add_flag, wait_on, return, System, Step, sender, closer, start_system, Steps, none_yet, later,
  send_status_closing,
}

abbrev counted : SendPc → ℕ
counted outside = 0
counted _ = 1

-- The thread will hand its packet to the socket.
abbrev pub in_flight : SendPc → ℕ
in_flight (allowed x) = 1
in_flight _ = 0

abbrev adds : ClosePc → ℕ
adds adding = 1
adds _ = 0

abbrev waits : ClosePc → ℕ
waits waiting = 1
waits _ = 0

-- The sums `c` of those counted, `f` in flight, `a` about to add the flag and `w` waiting.
record Sums (m : Shared) (c f a w : ℕ) : Type 0 where
  status : m.status ≡ c + 2 ^ 29 * m.added
  few : m.added + a ≤ 3
  flying : f ≤ c
  small : c < 2 ^ 29
  flagged : 0 < w → 0 < m.added
  after : m.closed ≡ true → (f ≡ 0) × (0 < m.added)

SendMove-Sums :
    {m m' : Shared} {p p' : SendPc} (c f a w : ℕ)
    → SendMove m p m' p'
    → suc c < 2 ^ 29
    → f ≤ c
    → Sums m (c + counted p) (f + in_flight p) a w
    → Sums m' (c + counted p') (f + in_flight p') a w
SendMove-Sums c f a w (enter_open x e) small le s = record {
  status = ground arith;
  few = ground arith;
  flying = ground arith;
  small = ground arith;
  flagged = ground arith;
  after = ground arith;
}
SendMove-Sums c f a w mv small le s = record {
  status = ground arith;
  few = ground arith;
  flying = ground arith;
  small = ground arith;
  flagged = ground arith;
  after = ground arith;
}

-- What a thread that closes has read.
abbrev HasRead : {m m' : Shared} {p p' : ClosePc} → CloseMove m p m' p' → Type 0
HasRead {m} (find_open e) = closing m.status ≡ 0
HasRead {m} (find_closing e) = closing m.status ≢ 0
HasRead {m} (return e) = (m.status ≡ 2 ^ 29) ⊎ ((m.status ≡ 2 * 2 ^ 29) ⊎ (m.status ≡ 3 * 2 ^ 29))
HasRead _ = Unit

has_read : {m m' : Shared} {p p' : ClosePc} (mv : CloseMove m p m' p') → HasRead mv
has_read (find_open e) = e
has_read (find_closing e) = e
has_read (return e) = e
has_read _ = tt

CloseMove-Sums :
    {m m' : Shared} {p p' : ClosePc} (c f a w : ℕ)
    → CloseMove m p m' p'
    → a + 1 ≤ 3
    → Sums m c f (a + adds p) (w + waits p)
    → Sums m' c f (a + adds p') (w + waits p')
CloseMove-Sums c f a w add_flag le s = record {
  status = ground arith;
  few = ground arith;
  flying = ground arith;
  small = ground arith;
  flagged = ground arith;
  after = ground arith;
}
CloseMove-Sums c f a w mv le s = record {
  status = ground (arith, has_read mv);
  few = ground (arith, has_read mv);
  flying = ground arith;
  small = ground arith;
  flagged = ground (arith, has_read mv);
  after = ground (arith, has_read mv);
}

IsSound : ℕ → ℕ → System → Type 0
IsSound n k s =
    Sums s.mem (total counted n s.senders) (total in_flight n s.senders) (total adds k s.closers)
      (total waits k s.closers)

Sums-eq :
    {m : Shared} {c f a w c' f' a' w' : ℕ}
    → c ≡ c'
    → f ≡ f'
    → a ≡ a'
    → w ≡ w'
    → Sums m c f a w
    → Sums m c' f' a' w'
Sums-eq p q r t s = record {
  status = omega (arith, s.status);
  few = omega (arith, s.few);
  flying = omega (arith, s.flying);
  small = omega (arith, s.small);
  flagged = λ h. omega (arith, s.flagged (omega arith));
  after = λ h. (omega (arith, (s.after h).0), (s.after h).1);
}

Step-IsSound :
    {n k : ℕ} {s t : System} → n + 1 < 2 ^ 29 → k ≤ 3 → Step n k s t → IsSound n k s → IsSound n k t
unfolding IsSound
Step-IsSound {n} {k} {s} many few (sender i {m} {p} lt mv) sound =
    let before : (w : SendPc → ℕ) → total w n s.senders ≡ others w n i s.senders + w (s.senders i) =
      λ w. total-others w n i s.senders lt in
    let after : (w : SendPc → ℕ) → others w n i s.senders + w p ≡ total w n (update s.senders i p) =
      λ w. sym (total-update w n i s.senders p lt) in
    Sums-eq (after counted) (after in_flight) refl refl (
      SendMove-Sums _ _ _ _ mv
        (omega (arith, others-bound counted n i s.senders (λ p. ground arith)))
        (others_mono in_flight counted n i s.senders (λ p. ground arith))
        (Sums-eq (before counted) (before in_flight) refl refl sound))
Step-IsSound {n} {k} {s} many few (closer i {m} {p} lt mv) sound =
    let before : (w : ClosePc → ℕ)
        → total w k s.closers ≡ others w k i s.closers + w (s.closers i) =
      λ w. total-others w k i s.closers lt in
    let after : (w : ClosePc → ℕ)
        → others w k i s.closers + w p ≡ total w k (update s.closers i p) =
      λ w. sym (total-update w k i s.closers p lt) in
    Sums-eq refl refl (after adds) (after waits) (
      CloseMove-Sums _ _ _ _ mv (omega (arith, others-lt adds k i s.closers lt (λ p. ground arith)))
        (Sums-eq refl refl (before adds) (before waits) sound))

Steps-IsSound :
    {n k : ℕ} {s t : System}
    → n + 1 < 2 ^ 29
    → k ≤ 3
    → IsSound n k s
    → Steps n k s t
    → IsSound n k t
Steps-IsSound many few sound none_yet = sound
Steps-IsSound many few sound (later r st) =
    Step-IsSound many few st (Steps-IsSound many few sound r)

start-IsSound : (n k : ℕ) → IsSound n k start_system
unfolding IsSound
start-IsSound n k =
    Sums-eq (sym (total-zero counted n _ (λ i. refl))) (sym (total-zero in_flight n _ (λ i. refl)))
      (sym (total-zero adds k _ (λ i. refl))) (sym (total-zero waits k _ (λ i. refl)))
      (record {
        status = omega arith;
        few = omega arith;
        flying = omega arith;
        small = omega arith;
        flagged = λ h. absurd (omega arith);
        after = λ h. absurd (cc);
      })

-- A sender that is not in flight sends nothing.
SendMove-quiet :
    {m m' : Shared} {p p' : SendPc}
    → SendMove m p m' p'
    → in_flight p ≡ 0
    → (m'.sent ≡ m.sent) × (m'.closed ≡ m.closed)
SendMove-quiet (enter_open x e) h = (refl, refl)
SendMove-quiet (enter_closing e) h = (refl, refl)
SendMove-quiet send_bytes h = absurd (omega arith)
SendMove-quiet leave_handed h = (refl, refl)
SendMove-quiet leave_refused h = (refl, refl)

CloseMove-quiet :
    {m m' : Shared} {p p' : ClosePc}
    → CloseMove m p m' p'
    → m.closed ≡ true
    → (m'.sent ≡ m.sent) × (m'.closed ≡ true)
CloseMove-quiet (find_open e) c = (refl, c)
CloseMove-quiet (find_closing e) c = (refl, c)
CloseMove-quiet add_flag c = (refl, c)
CloseMove-quiet (wait_on d e g) c = (refl, c)
CloseMove-quiet (return e) c = (refl, refl)

Step-quiet :
    {n k : ℕ} {s t : System}
    → IsSound n k s
    → s.mem.closed ≡ true
    → Step n k s t
    → (t.mem.sent ≡ s.mem.sent) × (t.mem.closed ≡ true)
unfolding IsSound
Step-quiet {n} {s} sound c (sender i lt mv) =
    let on_ground : in_flight (s.senders i) ≡ 0 =
      omega (arith, (sound.after c).0, total-others in_flight n i s.senders lt) in
    let (same, still) = SendMove-quiet mv on_ground in (same, still ∙ c)
Step-quiet sound c (closer i lt mv) = CloseMove-quiet mv c

Steps-quiet :
    {n k : ℕ} {s t : System}
    → n + 1 < 2 ^ 29
    → k ≤ 3
    → IsSound n k s
    → s.mem.closed ≡ true
    → Steps n k s t
    → (t.mem.sent ≡ s.mem.sent) × (t.mem.closed ≡ true)
Steps-quiet many few sound c none_yet = (refl, c)
Steps-quiet many few sound c (later r st) =
    let (same, still) = Steps-quiet many few sound c r in
    let (same', still') = Step-quiet (Steps-IsSound many few sound r) still st in
    (same' ∙ same, still')

-- Of fewer than 2 ^ 29 - 1 threads that send on a stream and at most three that close it, in any
-- order of their accesses to the word: once a `closeSendStatus` has returned, no packet is handed to
-- the socket any more. And in every state that is reached, when no thread is in `send`, a closing
-- thread that waits finds the word at one of the values that end its wait.
pub closed_for_good :
    {n k : ℕ} {s : System}
    → n + 1 < 2 ^ 29
    → k ≤ 3
    → Steps n k start_system s
    → (s.mem.closed ≡ true → (t : System) → Steps n k s t → t.mem.sent ≡ s.mem.sent)
      × ((i : ℕ)
          → i < k
          → s.closers i ≡ waiting
          → ((j : ℕ) → s.senders j ≡ outside)
          → (s.mem.status ≡ send_status_closing)
            ⊎ ((s.mem.status ≡ 2 * send_status_closing) ⊎ (s.mem.status ≡ 3 * send_status_closing)))
unfolding IsSound
closed_for_good {n} {k} {s} many few r =
    let sound = Steps-IsSound many few (start-IsSound n k) r in
    (
      λ c t later_steps. (Steps-quiet many few sound c later_steps).0,
      λ i lt at_wait out. ground (
        arith,
        sound.status,
        sound.few,
        sound.flagged,
        total-others waits k i s.closers lt,
        ap waits at_wait,
        total-zero counted n s.senders (λ j. ap counted (out j)),
      ),
    )
