-- ===== src/Network/StreamStatus.antt =====
-- The word `mSendStatus` of a `TCPStream` (libcore/src/network/TCPStream.cpp): threads that send on
-- the stream count themselves in it, and a thread that closes the stream sets a flag and waits for
-- them. Each step is one access to the word, or the call of `MultiplexedSocket::sendBytes`. A packet
-- is its number.
use sirikata.Base.{
  ℕ, suc, ◌+◌, ◌-◌, ◌*◌, ◌/◌, ◌%◌, ◌^◌, ◌<◌, ◌≡◌, ◌≢◌, Bool, true, false, ◌⊎◌, List, [], ◌∷◌, ◌++◌,
}
pub use sirikata.Base.Family.{update}
pub mod Closed
mod Tests

abbrev pub send_status_closing : ℕ
send_status_closing = 2 ^ 29

-- The test `sendStatus&(3*SendStatusClosing)`, as a number from 0 to 3.
abbrev pub closing : ℕ → ℕ
closing status = status / send_status_closing % 4

-- The word, the packets that were handed to the socket, and whether some `closeSendStatus` has
-- returned. `added` counts the additions of the flag.
pub record Shared : Type 0 where
  pub status : ℕ
  pub added : ℕ
  pub sent : List ℕ
  pub closed : Bool

abbrev pub add : ℕ → Shared → Shared
add k m = record m { status = (m.status + k) % 2 ^ 32 }

abbrev pub subtract : ℕ → Shared → Shared
subtract k m = record m { status = (m.status + (2 ^ 32 - k)) % 2 ^ 32 }

-- Where a thread stands in `send`: it has counted itself and may send, or has sent, or may not.
pub data SendPc : Type 0 where
  outside : SendPc
  allowed : ℕ → SendPc
  handed : SendPc
  refused : SendPc

-- Where a thread stands in `closeSendStatus`.
pub data ClosePc : Type 0 where
  idle adding waiting : ClosePc

pub data SendMove (m : Shared) : SendPc → Shared → SendPc → Type 0 where
  enter_open : (x : ℕ) → closing (add 1 m).status ≡ 0 → SendMove m outside (add 1 m) (allowed x)
  enter_closing : closing (add 1 m).status ≢ 0 → SendMove m outside (add 1 m) refused
  send_bytes : {x : ℕ} → SendMove m (allowed x) (record m { sent = m.sent ++ x ∷ [] }) handed
  leave_handed : SendMove m handed (subtract 1 m) outside
  leave_refused : SendMove m refused (subtract 1 m) outside

-- The wait ends when the word is the flag, twice or three times.
pub data CloseMove (m : Shared) : ClosePc → Shared → ClosePc → Type 0 where
  find_open : closing m.status ≡ 0 → CloseMove m idle m adding
  find_closing : closing m.status ≢ 0 → CloseMove m idle m waiting
  add_flag : CloseMove m adding (record (add send_status_closing m) { added = suc m.added }) waiting
  wait_on :
      m.status ≢ send_status_closing
      → m.status ≢ 2 * send_status_closing
      → m.status ≢ 3 * send_status_closing
      → CloseMove m waiting m waiting
  return :
      (m.status ≡ send_status_closing)
        ⊎ ((m.status ≡ 2 * send_status_closing) ⊎ (m.status ≡ 3 * send_status_closing))
      → CloseMove m waiting (record m { closed = true }) idle

-- `n` threads that send and `k` that close, in any order.
pub record System : Type 0 where
  pub mem : Shared
  pub senders : ℕ → SendPc
  pub closers : ℕ → ClosePc

pub data Step (n k : ℕ) (s : System) : System → Type 0 where
  sender :
      (i : ℕ) {m : Shared} {p : SendPc}
      → i < n
      → SendMove s.mem (s.senders i) m p
      → Step n k s (record s { mem = m; senders = update s.senders i p })
  closer :
      (i : ℕ) {m : Shared} {p : ClosePc}
      → i < k
      → CloseMove s.mem (s.closers i) m p
      → Step n k s (record s { mem = m; closers = update s.closers i p })

abbrev pub start_system : System
start_system = record {
  mem = record { status = 0; added = 0; sent = []; closed = false };
  senders = λ i. outside;
  closers = λ i. idle;
}

-- What is reached from a state.
pub data Steps (n k : ℕ) (s : System) : System → Type 0 where
  none_yet : Steps n k s s
  later : {t u : System} → Steps n k s t → Step n k t u → Steps n k s u
