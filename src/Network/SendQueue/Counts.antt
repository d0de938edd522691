-- ===== src/Network/SendQueue/Counts.antt =====
-- What the status word says: the low bits count the actors between an increment and its decrement,
-- and the flags are set by the one actor that leads. A packet in the queue has an actor that sees
-- to it.
use sirikata.Base.{
  ℕ, suc, ◌+◌, ◌*◌, ◌^◌, ◌≤◌, ◌<◌, ◌≡◌, refl, sym, [], ◌&&◌, ◌==◌, if◌then◌else◌, length, arith,
}
use sirikata.Network.SendQueue.{
  Shared, add, sending_packet, queue_check, Pc, idle, chosen, pushing, leaving, retry, volunteer,
  undo, checking, swapped, sending, finishing, Move, enter_first, leave, done, try_first, System,
  update, Step, pick, Reach, start, later,
}
use sirikata.Base.Family.{
  total, others, total-others, total-update, others-le, others_mono, others-bound, total-zero,
}

abbrev pub counted : Pc → ℕ
counted (chosen x) = 1
counted (pushing x) = 1
counted leaving = 1
counted volunteer = 1
counted undo = 1
counted _ = 0

abbrev pub holds_send : Pc → ℕ
holds_send checking = 1
holds_send (swapped xs) = 1
holds_send (sending xs) = 1
holds_send finishing = 1
holds_send _ = 0

abbrev pub holds_check : Pc → ℕ
holds_check checking = 1
holds_check (swapped xs) = 1
holds_check _ = 0

-- The actor that is to send, or does.
abbrev pub leads : Pc → ℕ
leads (chosen x) = 1
leads volunteer = 1
leads checking = 1
leads (swapped xs) = 1
leads (sending xs) = 1
leads finishing = 1
leads _ = 0

-- The actor still looks at the queue, or at the status and then at the queue.
abbrev pub sees_to_queue : Pc → ℕ
sees_to_queue idle = 0
sees_to_queue (pushing x) = 0
sees_to_queue (swapped []) = 0
sees_to_queue (retry status) =
    if sending_packet status == 1 && queue_check status == 0 then 0 else 1
sees_to_queue _ = 1

-- The sums of the weights: `c`, `a`, `q`, `l` and `r` in this order.
pub record Sums (m : Shared) (c a q l r : ℕ) : Type 0 where
  pub status : m.status ≡ c + 2 ^ 29 * a + 2 ^ 30 * q
  pub one : l ≤ 1
  pub checks : q ≤ a
  pub sends : a ≤ l
  pub lead : l ≤ c + a
  pub seen : 0 < length m.queue → 0 < r
  pub looks : a ≤ r + q
  pub small : c < 2 ^ 29

-- What is asked of an actor, and of the sums over the others.
pub record Rest (c a q l r : ℕ) : Type 0 where
  pub checks : q ≤ a
  pub sends : a ≤ l
  pub lead : l ≤ c + a
  pub looks : a ≤ r + q
  pub small : suc c < 2 ^ 29

-- The premise of a move.
abbrev Guard : {m m' : Shared} {p p' : Pc} → Move m p m' p' → Type 0
Guard {m} (enter_first x _) = (add 1 m).status ≡ 1
Guard {m} (try_first {status} _ _) = (sending_packet status ≡ 0) × ((add 1 m).status ≡ 1)
Guard (done {status} _ _) = (sending_packet status ≡ 1) × (queue_check status ≡ 0)
Guard _ = Unit

guard : {m m' : Shared} {p p' : Pc} (mv : Move m p m' p') → Guard mv
guard (enter_first x e) = e
guard (try_first e h) = (e, h)
guard (done e h) = (e, h)
guard _ = tt

Move-Sums :
    {m m' : Shared} {p p' : Pc} (c a q l r : ℕ)
    → Move m p m' p'
    → Rest c a q l r
    → Sums m
        (c + counted p)
        (a + holds_send p)
        (q + holds_check p)
        (l + leads p)
        (r + sees_to_queue p)
    → Sums m'
        (c + counted p')
        (a + holds_send p')
        (q + holds_check p')
        (l + leads p')
        (r + sees_to_queue p')
Move-Sums c a q l r (leave) f s = record {
  status = ground (arith);
  one = ground (arith);
  checks = ground arith;
  sends = ground arith;
  lead = ground arith;
  seen = ground (arith);
  looks = ground arith;
  small = ground arith;
}
Move-Sums c a q l r mv f s = record {
  status = ground (arith, guard mv);
  one = ground (arith, guard mv);
  checks = ground arith;
  sends = ground arith;
  lead = ground arith;
  seen = ground (arith, guard mv);
  looks = ground arith;
  small = ground arith;
}

-- The sums over all actors.
abbrev pub IsSound : ℕ → System → Type 0
IsSound n s =
    Sums s.mem (total counted n s.pc) (total holds_send n s.pc) (total holds_check n s.pc)
      (total leads n s.pc) (total sees_to_queue n s.pc)

rest :
    (n i : ℕ) (pc : ℕ → Pc)
    → n + 1 < 2 ^ 29
    → Rest
        (others counted n i pc)
        (others holds_send n i pc)
        (others holds_check n i pc)
        (others leads n i pc)
        (others sees_to_queue n i pc)
rest n i pc few = record {
  checks = others_mono holds_check holds_send n i pc (λ p. ground arith);
  sends = others_mono holds_send leads n i pc (λ p. ground arith);
  lead = omega (arith, others-le leads counted holds_send n i pc (λ p. ground arith));
  looks = omega (arith, others-le holds_send sees_to_queue holds_check n i pc (λ p. ground arith));
  small = omega (arith, others-bound counted n i pc (λ p. ground arith), few);
}

Sums-eq :
    {m : Shared} {c a q l r c' a' q' l' r' : ℕ}
    → c ≡ c'
    → a ≡ a'
    → q ≡ q'
    → l ≡ l'
    → r ≡ r'
    → Sums m c a q l r
    → Sums m c' a' q' l' r'
Sums-eq e f g h k s = record {
  status = omega (arith, s.status);
  one = omega (arith, s.one);
  checks = omega (arith, s.checks);
  sends = omega (arith, s.sends);
  lead = omega (arith, s.lead);
  seen = λ x. omega (arith, s.seen x);
  looks = omega (arith, s.looks);
  small = omega (arith, s.small);
}

Step-IsSound : {n : ℕ} {s t : System} → n + 1 < 2 ^ 29 → Step n s t → IsSound n s → IsSound n t
Step-IsSound {n} {s} few (pick i {m} {p} lt mv) sound =
    let before : (w : Pc → ℕ) → total w n s.pc ≡ others w n i s.pc + w (s.pc i) =
      λ w. total-others w n i s.pc lt in
    let after : (w : Pc → ℕ) → others w n i s.pc + w p ≡ total w n (update s.pc i p) =
      λ w. sym (total-update w n i s.pc p lt) in
    Sums-eq (after counted) (after holds_send) (after holds_check) (after leads)
      (after sees_to_queue)
      (Move-Sums _ _ _ _ _ mv (rest n i s.pc few) (
        Sums-eq (before counted) (before holds_send) (before holds_check) (before leads)
          (before sees_to_queue) sound))

pub Reach-IsSound : {n : ℕ} {s : System} → n + 1 < 2 ^ 29 → Reach n s → IsSound n s
Reach-IsSound {n} few start =
    let zeros : (w : Pc → ℕ) → w idle ≡ 0 → total w n (λ i. idle) ≡ 0 =
      λ w e. total-zero w n _ (λ i. e) in
    Sums-eq (sym (zeros counted refl)) (sym (zeros holds_send refl)) (sym (zeros holds_check refl))
      (sym (zeros leads refl)) (sym (zeros sees_to_queue refl))
      (record {
        status = omega arith;
        one = omega arith;
        checks = omega arith;
        sends = omega arith;
        lead = omega arith;
        seen = λ x. absurd (omega arith);
        looks = omega arith;
        small = omega arith;
      })
Reach-IsSound few (later r st) = Step-IsSound few st (Reach-IsSound few r)
