-- ===== src/Network/SendQueue/Tests.antt =====
-- Two calls of `rawSend` at the same time (libcore/src/network/ASIOSocketWrapper.cpp).
use sirikata.Base.{ℕ, ◌+◌, ◌^◌, ◌<◌, ◌≡◌, ◌≢◌, refl, List, [], ◌∷◌, count, arith}
use sirikata.Network.SendQueue.{
  Shared, Pc, idle, chosen, pushing, leaving, retry, checking, swapped, sending, finishing,
  enter_first, enter_later, claim, push, leave, done, complete, finish_async_send, swap, send,
  release, System, update, pick, start_state, Reach, start, later,
}
use sirikata.Network.SendQueue.Counts.{leads, sees_to_queue}
use sirikata.Network.SendQueue.Delivery.{all_sent, one_leader}

abbrev shared : ℕ → List ℕ → List ℕ → List ℕ → Shared
shared status queue given sent = record {
  status = status;
  queue = queue;
  given = given;
  sent = sent;
}

abbrev after : System → ℕ → Shared → Pc → System
after s i m p = record { mem = m; pc = update s.pc i p }

abbrev s1 : System
s1 = after start_state 0 (shared 1 [] (5 ∷ []) []) (chosen 5)

r1 : Reach 2 s1
r1 = later start (pick 0 (omega arith) (enter_first 5 refl))

abbrev s2 : System
s2 = after s1 1 (shared 2 [] (5 ∷ 7 ∷ []) []) (pushing 7)

r2 : Reach 2 s2
r2 = later r1 (pick 1 (omega arith) (enter_later 7 (omega arith)))

abbrev s3 : System
s3 = after s2 0 (shared (2 ^ 29 + 1) [] (5 ∷ 7 ∷ []) []) (sending (5 ∷ []))

r3 : Reach 2 s3
r3 = later r2 (pick 0 (omega arith) claim)

abbrev s4 : System
s4 = after s3 1 (shared (2 ^ 29 + 1) (7 ∷ []) (5 ∷ 7 ∷ []) []) leaving

r4 : Reach 2 s4
r4 = later r3 (pick 1 (omega arith) push)

abbrev s5 : System
s5 = after s4 1 (shared (2 ^ 29) (7 ∷ []) (5 ∷ 7 ∷ []) []) (retry (2 ^ 29))

r5 : Reach 2 s5
r5 = later r4 (pick 1 (omega arith) leave)

abbrev s6 : System
s6 = after s5 1 (shared (2 ^ 29) (7 ∷ []) (5 ∷ 7 ∷ []) []) idle

r6 : Reach 2 s6
r6 = later r5 (pick 1 (omega arith) (done refl refl))

abbrev s7 : System
s7 = after s6 0 (shared (2 ^ 29) (7 ∷ []) (5 ∷ 7 ∷ []) (5 ∷ [])) finishing

r7 : Reach 2 s7
r7 = later r6 (pick 0 (omega arith) complete)

abbrev s8 : System
s8 = after s7 0 (shared (2 ^ 29 + 2 ^ 30) (7 ∷ []) (5 ∷ 7 ∷ []) (5 ∷ [])) checking

r8 : Reach 2 s8
r8 = later r7 (pick 0 (omega arith) finish_async_send)

abbrev s9 : System
s9 = after s8 0 (shared (2 ^ 29 + 2 ^ 30) [] (5 ∷ 7 ∷ []) (5 ∷ [])) (swapped (7 ∷ []))

r9 : Reach 2 s9
r9 = later r8 (pick 0 (omega arith) swap)

abbrev s10 : System
s10 = after s9 0 (shared (2 ^ 29) [] (5 ∷ 7 ∷ []) (5 ∷ [])) (sending (7 ∷ []))

r10 : Reach 2 s10
r10 = later r9 (pick 0 (omega arith) send)

abbrev s11 : System
s11 = after s10 0 (shared (2 ^ 29) [] (5 ∷ 7 ∷ []) (5 ∷ 7 ∷ [])) finishing

r11 : Reach 2 s11
r11 = later r10 (pick 0 (omega arith) complete)

abbrev s12 : System
s12 = after s11 0 (shared (2 ^ 29 + 2 ^ 30) [] (5 ∷ 7 ∷ []) (5 ∷ 7 ∷ [])) checking

r12 : Reach 2 s12
r12 = later r11 (pick 0 (omega arith) finish_async_send)

abbrev s13 : System
s13 = after s12 0 (shared (2 ^ 29 + 2 ^ 30) [] (5 ∷ 7 ∷ []) (5 ∷ 7 ∷ [])) (swapped [])

r13 : Reach 2 s13
r13 = later r12 (pick 0 (omega arith) swap)

abbrev s14 : System
s14 = after s13 0 (shared 0 [] (5 ∷ 7 ∷ []) (5 ∷ 7 ∷ [])) idle

r14 : Reach 2 s14
r14 = later r13 (pick 0 (omega arith) release)

all_idle : (i : ℕ) → s14.pc i ≡ idle
all_idle i = ground arith

all_sent_example :
    (s14.mem.queue ≡ [])
    × (s14.mem.status ≡ 0)
    × ((x : ℕ) → count x s14.mem.sent ≡ count x s14.mem.given)
all_sent_example = all_sent {n = 2} {s = s14} (omega arith) r14 all_idle

one_leader_example :
    ((i j : ℕ) → i < 2 → j < 2 → leads (s5.pc i) ≡ 1 → leads (s5.pc j) ≡ 1 → i ≡ j)
    × (s5.mem.queue ≢ [] → (i : ℕ) × (i < 2) × (0 < sees_to_queue (s5.pc i)))
one_leader_example = one_leader {n = 2} {s = s5} (omega arith) r5
