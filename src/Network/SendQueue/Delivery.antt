-- ===== src/Network/SendQueue/Delivery.antt =====
-- Every packet given to `rawSend` is sent exactly once, and none waits without an actor for it.
use sirikata.Base.{
  ℕ, zero, suc, ◌+◌, ◌^◌, ◌<◌, ◌≡◌, ◌≢◌, refl, ap, ◌∙◌, inl, inr, [], ◌∷◌, ◌==◌, length,
  length-zero, count, count-append, arith, Bool-cases,
}
use sirikata.Network.SendQueue.{
  Shared, Pc, idle, chosen, pushing, swapped, sending, Move, push, enter_first, enter_later,
  complete, System, pick, Reach, start, later,
}
use sirikata.Base.Family.{total, total-others, total-update, total-zero, others-has}
use sirikata.Network.SendQueue.Counts.{
  leads, counted, holds_send, holds_check, sees_to_queue, Reach-IsSound,
}

-- The copies of a packet that an actor has in hand.
abbrev pub carried : ℕ → Pc → ℕ
carried x (chosen y) = count x (y ∷ [])
carried x (pushing y) = count x (y ∷ [])
carried x (swapped ys) = count x ys
carried x (sending ys) = count x ys
carried x _ = 0

Move-kept :
    {m m' : Shared} {p p' : Pc} (x : ℕ)
    → Move m p m' p'
    → count x m'.sent + count x m'.queue + carried x p' + count x m.given
      ≡ count x m.sent + count x m.queue + carried x p + count x m'.given
Move-kept {m} x (enter_first y e) = omega (arith, count-append x m.given (y ∷ []))
Move-kept {m} x (enter_later y e) = omega (arith, count-append x m.given (y ∷ []))
Move-kept {m} x (push {x = y}) = omega (arith, count-append x m.queue (y ∷ []))
Move-kept {m} x (complete {xs = ys}) = omega (arith, count-append x m.sent ys)
Move-kept x mv = omega arith

abbrev pub IsKept : ℕ → ℕ → System → Type 0
IsKept n x s =
    count x s.mem.sent + count x s.mem.queue + total (carried x) n s.pc ≡ count x s.mem.given

Reach-IsKept : {n : ℕ} {s : System} → Reach n s → (x : ℕ) → IsKept n x s
Reach-IsKept {n} start x = omega (arith, total-zero (carried x) n (λ i. idle) (λ i. refl))
Reach-IsKept {n} (later {s} r (pick i {m} {p} lt mv)) x = omega (
  arith,
  Reach-IsKept r x,
  Move-kept x mv,
  total-others (carried x) n i s.pc lt,
  total-update (carried x) n i s.pc p lt,
)

-- Of fewer than 2 ^ 29 - 1 actors, in any state that is reached and in which no call is under way
-- any more, nothing is left in the queue, the status is 0, and each packet has been sent as often
-- as it was given.
pub all_sent :
    {n : ℕ} {s : System}
    → n + 1 < 2 ^ 29
    → Reach n s
    → ((i : ℕ) → s.pc i ≡ idle)
    → (s.mem.queue ≡ []) × (s.mem.status ≡ 0) × ((x : ℕ) → count x s.mem.sent ≡ count x s.mem.given)
all_sent {n} {s} few r quiet =
    let sound = Reach-IsSound few r in
    let nothing : (w : Pc → ℕ) → w idle ≡ 0 → total w n s.pc ≡ 0 =
      λ w e. total-zero w n s.pc (λ i. ap w (quiet i) ∙ e) in
    let empty : s.mem.queue ≡ [] = ground (arith, sound.seen, nothing sees_to_queue refl) in
    (
      empty,
      omega (
        arith,
        sound.status,
        nothing counted refl,
        nothing holds_send refl,
        nothing holds_check refl,
      ),
      λ x. omega (arith, Reach-IsKept r x, nothing (carried x) refl, ap (count x) empty),
    )

-- An actor whose weight is not 0.
some_actor :
    (w : Pc → ℕ) (n : ℕ) (pc : ℕ → Pc) → 0 < total w n pc → (i : ℕ) × (i < n) × (0 < w (pc i))
some_actor w zero pc h = absurd (omega arith)
some_actor w (suc n) pc h = elim (Bool-cases (w (pc n) == 0)) [
  | inl not_last ↦ let (i, lt, found) = some_actor w n pc (ground arith) in (i, omega arith, found)
  | inr last ↦ (n, omega arith, ground arith)
]

-- Of fewer than 2 ^ 29 - 1 actors, in every state that is reached, at most one leads; and while the
-- queue is not empty there is an actor that sees to it: it will retry, or it sends and looks at the
-- queue then.
pub one_leader :
    {n : ℕ} {s : System}
    → n + 1 < 2 ^ 29
    → Reach n s
    → ((i j : ℕ) → i < n → j < n → leads (s.pc i) ≡ 1 → leads (s.pc j) ≡ 1 → i ≡ j)
      × (s.mem.queue ≢ [] → (i : ℕ) × (i < n) × (0 < sees_to_queue (s.pc i)))
one_leader {n} {s} few r =
    let sound = Reach-IsSound few r in
    (
      λ i j li lj hi hj. elim (Bool-cases (j == i)) [
        | inl same ↦ ground arith
        | inr other ↦ absurd (
            omega (
              arith,
              sound.one,
              total-others leads n i s.pc li,
              others-has leads n i j s.pc lj other,
            ))
      ],
      λ waiting. some_actor sees_to_queue n s.pc (
          sound.seen (elim (Bool-cases (length s.mem.queue == 0)) [
            | inl none_left ↦ absurd (waiting (length-zero s.mem.queue (ground arith)))
            | inr some_left ↦ ground arith
          ])),
    )
