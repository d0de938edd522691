-- ===== src/Network/SendQueue.antt =====
-- The send queue of `ASIOSocketWrapper` (libcore/src/network/ASIOSocketWrapper.cpp): any number of
-- threads call `rawSend` on one connection, and agree by the word `mSendingStatus` which of them
-- sends. An actor is one call of `rawSend`, with the asynchronous sends that it starts and their
-- completions; each step is one access to the word or to the queue. A packet is its number.
use sirikata.Base.{
  ℕ, zero, suc, ◌+◌, ◌-◌, ◌*◌, ◌/◌, ◌%◌, ◌^◌, ◌<◌, ◌≡◌, ◌≢◌, List, [], ◌∷◌, ◌++◌, ◌==◌,
  if◌then◌else◌,
}
pub use sirikata.Base.Family.{update}
pub mod Counts
pub mod Delivery
mod Tests

abbrev pub asynchronous_send_flag : ℕ
asynchronous_send_flag = 2 ^ 29

abbrev pub queue_check_flag : ℕ
queue_check_flag = 2 ^ 30

-- The tests `current_status&FLAG`, as 0 or 1.
abbrev pub sending_packet : ℕ → ℕ
sending_packet status = status / 2 ^ 29 % 2

abbrev pub queue_check : ℕ → ℕ
queue_check status = status / 2 ^ 30 % 2

-- What the actors share. `given` and `sent` are logs: the packets of the calls of `rawSend`, and
-- those whose send has completed.
pub record Shared : Type 0 where
  pub status : ℕ
  pub queue : List ℕ
  pub given : List ℕ
  pub sent : List ℕ

abbrev pub add : ℕ → Shared → Shared
add k m = record m { status = (m.status + k) % 2 ^ 32 }

abbrev pub subtract : ℕ → Shared → Shared
subtract k m = record m { status = (m.status + (2 ^ 32 - k)) % 2 ^ 32 }

-- Where an actor stands, with the local variables that are live there.
pub data Pc : Type 0 where
  idle : Pc  -- before a call, or after it
  chosen : ℕ → Pc  -- the first into the system, before its flag is set
  pushing : ℕ → Pc  -- before `mSendQueue.push`
  leaving : Pc  -- before `--mSendingStatus` of `rawSend`
  retry : ℕ → Pc  -- head of the loop of `retryQueuedSend`, with `current_status`
  volunteer : Pc  -- the first again, before its flags are set
  undo : Pc  -- not the first, before `--mSendingStatus` of the loop
  reading : Pc  -- before the read of the status
  checking : Pc  -- both flags set, before the queue is swapped
  swapped : List ℕ → Pc  -- with what was in the queue
  sending : List ℕ → Pc  -- an asynchronous send is out
  finishing : Pc  -- start of `finishAsyncSend`

pub data Move (m : Shared) : Pc → Shared → Pc → Type 0 where
  enter_first :
      (x : ℕ)
      → (add 1 m).status ≡ 1
      → Move m idle (record (add 1 m) { given = m.given ++ x ∷ [] }) (chosen x)
  enter_later :
      (x : ℕ)
      → (add 1 m).status ≢ 1
      → Move m idle (record (add 1 m) { given = m.given ++ x ∷ [] }) (pushing x)
  claim : {x : ℕ} → Move m (chosen x) (add (asynchronous_send_flag - 1) m) (sending (x ∷ []))
  push : {x : ℕ} → Move m (pushing x) (record m { queue = m.queue ++ x ∷ [] }) leaving
  leave : Move m leaving (subtract 1 m) (retry (subtract 1 m).status)
  done :
      {status : ℕ}
      → sending_packet status ≡ 1
      → queue_check status ≡ 0
      → Move m (retry status) m idle
  wait :
      {status : ℕ}
      → sending_packet status ≡ 1
      → queue_check status ≡ 1
      → Move m (retry status) m reading
  try_first :
      {status : ℕ}
      → sending_packet status ≡ 0
      → (add 1 m).status ≡ 1
      → Move m (retry status) (add 1 m) volunteer
  try_later :
      {status : ℕ}
      → sending_packet status ≡ 0
      → (add 1 m).status ≢ 1
      → Move m (retry status) (add 1 m) undo
  take_back : Move m undo (subtract 1 m) reading
  read : Move m reading m (retry m.status)
  check : Move m volunteer (add (queue_check_flag + asynchronous_send_flag - 1) m) checking
  swap : Move m checking (record m { queue = [] }) (swapped m.queue)
  release : Move m (swapped []) (subtract (asynchronous_send_flag + queue_check_flag) m) idle
  send :
      {x : ℕ} {xs : List ℕ}
      → Move m (swapped (x ∷ xs)) (subtract queue_check_flag m) (sending (x ∷ xs))
  complete : {xs : List ℕ} → Move m (sending xs) (record m { sent = m.sent ++ xs }) finishing
  finish_async_send : Move m finishing (add queue_check_flag m) checking

-- `n` actors, interleaved in any order.
pub record System : Type 0 where
  pub mem : Shared
  pub pc : ℕ → Pc

pub data Step (n : ℕ) (s : System) : System → Type 0 where
  pick :
      (i : ℕ) {m : Shared} {p : Pc}
      → i < n
      → Move s.mem (s.pc i) m p
      → Step n s (record { mem = m; pc = update s.pc i p })

abbrev pub start_state : System
start_state = record {
  mem = record { status = 0; queue = []; given = []; sent = [] };
  pc = λ i. idle;
}

pub data Reach (n : ℕ) : System → Type 0 where
  start : Reach n start_state
  later : {s t : System} → Reach n s → Step n s t → Reach n t
