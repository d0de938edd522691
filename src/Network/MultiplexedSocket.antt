-- ===== src/Network/MultiplexedSocket.antt =====
-- `MultiplexedSocket` (libcore/src/network/MultiplexedSocket.cpp, .hpp): many streams over a few
-- connections. A callback is known by its number. `sent` is the log of the calls of `rawSend`, with
-- the socket of each, and `called` that of the callbacks called. Each operation runs alone, as under
-- `sConnectingMutex` and in the one reactor thread. `rand()` and the hash of a stream id are
-- parameters; `draws` counts the calls of `rand()`. `kept` is the comparison with `dropChance`.
use sirikata.Base.{
  ℕ, zero, suc, ◌+◌, ◌-◌, ◌%◌, ◌^◌, Bool, true, false, not, ◌||◌, Option, none, some, List, [], ◌∷◌,
  ◌++◌, ◌==◌, if◌then◌else◌,
}
use sirikata.Base.Assoc.{remove, has}
use sirikata.Network.Frame.{ControlCode, construct_control_packet}
mod Tests
pub mod Close
pub mod Sending
pub mod Ids
pub mod Closing
pub mod Callbacks

pub data Phase : Type 0 where
  preconnection waitconnecting connected disconnected : Phase

abbrev pub phase_eq : Phase → Phase → Bool
phase_eq preconnection preconnection = true
phase_eq waitconnecting waitconnecting = true
phase_eq connected connected = true
phase_eq disconnected disconnected = true
phase_eq _ _ = false

-- `RawRequest`.
pub record Request : Type 0 where
  pub origin : ℕ
  pub unordered : Bool
  pub unreliable : Bool
  pub bytes : List ℕ

-- The `send_closed` entry is the call of `closeSendStatus` for the stream of a callback.
pub data Call : Type 0 where
  send_closed told_connected told_disconnected : ℕ → Call
  received : ℕ → List ℕ → Call
  new_substream : ℕ → Call

pub record Socket : Type 0 where
  pub sockets : ℕ
  pub phase : Phase
  pub new_requests : List Request
  pub registrations : List (ℕ × Option ℕ)
  pub callbacks : List (ℕ × ℕ)
  pub acked : List (ℕ × ℕ)
  pub one_sided : List ℕ
  pub highest : ℕ
  pub free_ids : List ℕ
  pub draws : ℕ
  pub sent : List (ℕ × List ℕ)
  pub called : List Call

-- The sockets from `i` on.
unfoldable pub raw_send_each : ℕ → ℕ → List ℕ → List (ℕ × List ℕ)
raw_send_each i zero bytes = []
raw_send_each i (suc n) bytes = (i, bytes) ∷ raw_send_each (suc i) n bytes

unfoldable pub raw_send_all : ℕ → List ℕ → List (ℕ × List ℕ)
raw_send_all n bytes = raw_send_each 1 (n - 1) bytes ++ (0, bytes) ∷ []

-- `addCallbacks`.
unfoldable pub add_callbacks : ℕ → Option ℕ → Socket → Socket × Phase
add_callbacks sid cb m = (record m { registrations = m.registrations ++ (sid, cb) ∷ [] }, m.phase)

-- `getNewID`. The new number is that of a `uint32`.
unfoldable pub get_new_id : Socket → ℕ × Socket
get_new_id m = elim m.free_ids [
  | [] ↦ ((m.highest + 2) % 2 ^ 32, record m { highest = (m.highest + 2) % 2 ^ 32 })
  | id ∷ rest ↦ (id, record m { free_ids = rest })
]

-- A set of ids.
unfoldable pub member : ℕ → List ℕ → Bool
member id [] = false
member id (k ∷ ks) = k == id || member id ks

unfoldable pub erase_id : ℕ → List ℕ → List ℕ
erase_id id [] = []
erase_id id (k ∷ ks) = if k == id then ks else k ∷ erase_id id ks

-- `ioReactorThreadCommitCallback`.
unfoldable pub commit_callback : ℕ × Option ℕ → Socket → Socket
commit_callback (id, none) m = record m {
  one_sided = if member id m.one_sided then m.one_sided else id ∷ m.one_sided;
  callbacks = remove id m.callbacks;
}
commit_callback (id, some cb) m = record m {
  callbacks = if has id m.callbacks then m.callbacks else (id, cb) ∷ m.callbacks;
}

unfoldable pub commit_each : List (ℕ × Option ℕ) → Socket → Socket
commit_each [] m = m
commit_each (r ∷ rs) m = commit_each rs (commit_callback r m)

abbrev is_nil {ℓ} : {A : Type ℓ} → List A → Bool
is_nil [] = true
is_nil (x ∷ xs) = false

module _ (hash rand : ℕ → ℕ) (kept : ℕ → Bool) where
  -- `sendBytesNow`, on the calls of `rand()` and the log so far.
  unfoldable pub emit : ℕ → Request → ℕ × List (ℕ × List ℕ) → ℕ × List (ℕ × List ℕ)
  emit n r (draws, log) =
      if r.origin == 0
      then (draws, log ++ raw_send_all n r.bytes)
      else (let which = if r.unordered then rand draws % n else hash r.origin % n in
          let draws' = if r.unordered then suc draws else draws in
          if not r.unreliable
          then (draws', log ++ (which, r.bytes) ∷ [])
          else (suc draws', if kept (rand draws') then log ++ (which, r.bytes) ∷ [] else log))

  unfoldable pub emit_all : ℕ → List Request → ℕ × List (ℕ × List ℕ) → ℕ × List (ℕ × List ℕ)
  emit_all n [] out = out
  emit_all n (r ∷ rs) out = emit_all n rs (emit n r out)

  unfoldable pub send_bytes_now : Request → Socket → Socket
  send_bytes_now r m =
      let (draws, sent) = emit m.sockets r (m.draws, m.sent) in
      record m { draws = draws; sent = sent }

  -- The loops of `CommitCallbacks` over the early requests.
  unfoldable pub flush : List Request → Socket → Socket
  flush [] m = m
  flush (r ∷ rs) m = flush rs (send_bytes_now r m)

  -- `sendBytes`. In phase WAITCONNECTING the code asserts; that phase is never seen from outside.
  unfoldable pub send_bytes : Request → Socket → Socket
  send_bytes r m = elim m.phase [
    | connected ↦ send_bytes_now r m
    | disconnected ↦ record m { new_requests = m.new_requests ++ r ∷ [] }
    | preconnection ↦ record m { new_requests = m.new_requests ++ r ∷ [] }
    | waitconnecting ↦ record m { new_requests = m.new_requests ++ r ∷ [] }
  ]

  -- `closeStream`.
  unfoldable pub send_close : ControlCode → ℕ → Socket → Socket
  send_close code sid = send_bytes (record {
    origin = 0;
    unordered = false;
    unreliable = false;
    bytes = construct_control_packet code sid;
  })

  -- The phase change of `CommitCallbacks`.
  unfoldable pub set_phase : Phase → Socket → Socket
  set_phase status m =
      if phase_eq status connected
      then record (flush m.new_requests m) { new_requests = []; phase = connected }
      else record m { phase = status }

  -- `CommitCallbacks`, with the answer whether the phase is another one.
  unfoldable pub commit_callbacks : Phase → Bool → Socket → Socket × Bool
  commit_callbacks status set m =
      if set || not (is_nil m.registrations)
      then (let m1 =
            if phase_eq status connected
            then flush m.new_requests (record m { new_requests = [] })
            else m in
          let m2 = if set then set_phase status m1 else m1 in
          (
            commit_each m2.registrations (record m2 { registrations = [] }),
            not (phase_eq status m1.phase),
          ))
      else (m, false)
