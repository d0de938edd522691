-- ===== src/Network/MultiplexedSocket/Close.antt =====
-- What a `MultiplexedSocket` does with a received chunk: the close handshake of streams and the
-- dispatch of data. `none` is a fault: an iterator at the end of a map is dereferenced.
use sirikata.Base.{
  ℕ, suc, ◌%◌, Bool, true, false, Option, none, some, List, [], ◌∷◌, ◌++◌, map, ◌==◌, if◌then◌else◌,
}
use sirikata.Base.Assoc.{lookup, remove, modify}
use sirikata.Network.Uint30.{unserialize}
use sirikata.Network.Frame.{ControlCode, close_stream, ack_close_stream}
use sirikata.Network.MultiplexedSocket.{
  Socket, Phase, connected, Call, send_closed, told_disconnected, received, new_substream, erase_id,
  member, commit_callbacks, send_close,
}

abbrev control_code : ℕ → Option ControlCode
control_code c =
    if c == 1 then some close_stream else if c == 2 then some ack_close_stream else none

abbrev is_close : ControlCode → Bool
is_close close_stream = true
is_close ack_close_stream = false

-- The id in a control packet; the default id if there is none.
abbrev control_id : Option (ℕ × ℕ) → ℕ
control_id none = 0
control_id (some (id, used)) = id

-- The end of `shutDownClosedStream`: an id of this side can be given out again.
unfoldable pub free_id : ℕ → Socket → Socket
free_id id m = record m {
  one_sided = erase_id id m.one_sided;
  free_ids = if id % 2 == m.highest % 2 then m.free_ids ++ id ∷ [] else m.free_ids;
}

-- `react` has the registrations that a callback makes while it is told of the disconnection, and
-- `accept` the callback that is set for a new substream, if one is. The callback for received bytes
-- is noted in `called`: what it sends, registers or closes meanwhile is not modelled.
module _ (hash rand : ℕ → ℕ) (kept : ℕ → Bool) (react : ℕ → List (ℕ × Option ℕ))
    (accept : ℕ → Option ℕ) where
  abbrev pub commit : Socket → Socket
  commit m = (commit_callbacks hash rand kept connected false m).0

  -- The branch for a callback that is there.
  unfoldable pub tell_closed : ℕ → ℕ → Socket → Option Socket
  tell_closed cb id m =
      let told = record m {
        called = m.called ++ send_closed cb ∷ told_disconnected cb ∷ [];
        registrations = m.registrations ++ react cb;
      } in
      elim (lookup id (commit told).callbacks) [
        | none ↦ none
        | some cb' ↦ some (record (commit told) { callbacks = remove id (commit told).callbacks })
      ]

  -- `shutDownClosedStream`.
  unfoldable pub shut_down_closed_stream : ControlCode → ℕ → Socket → Option Socket
  shut_down_closed_stream ack_close_stream id m = some (free_id id m)
  shut_down_closed_stream close_stream id m = elim (lookup id (commit m).callbacks) [
    | none ↦ some (free_id id (commit m))
    | some cb ↦ elim (tell_closed cb id (commit m)) [ none ↦ none | some m' ↦ some (free_id id m') ]
  ]

  unfoldable pub finish_close : ControlCode → ℕ → Socket → Option Socket
  finish_close code id m = elim (shut_down_closed_stream code id m) [
    | none ↦ none
    | some m' ↦
        some (if is_close code then send_close hash rand kept ack_close_stream id m' else m')
  ]

  unfoldable pub count_close : ControlCode → ℕ → Socket → Option Socket
  count_close code id m = elim (lookup id m.acked) [
    | some n ↦
        if suc n == m.sockets
        then finish_close code id (record m { acked = remove id m.acked })
        else some (record m { acked = modify id (suc n) m.acked })
    | none ↦
        if m.sockets == 1
        then finish_close code id m
        else some (record m { acked = (id, 1) ∷ m.acked })
  ]

  unfoldable pub receive_control : List ℕ → Socket → Option Socket
  receive_control [] m = some m
  receive_control (c ∷ rest) m = elim (control_code c) [
    | none ↦ some m
    | some code ↦
        let id = control_id (unserialize rest) in if id == 0 then some m else count_close code id m
  ]

  unfoldable pub receive_data : ℕ → List ℕ → Socket → Socket
  receive_data id chunk m =
      let m1 = commit m in
      elim (lookup id m1.callbacks) [
        | some cb ↦ record m1 { called = m1.called ++ received cb chunk ∷ [] }
        | none ↦
            if member id m1.one_sided
            then m1
            else (let m2 = record m1 { called = m1.called ++ new_substream id ∷ [] } in
                elim (accept id) [
                  | none ↦ send_close hash rand kept close_stream id m2
                  | some cb ↦
                      let m3 =
                        commit
                          (record m2 { registrations = m2.registrations ++ (id, some cb) ∷ [] }) in
                      record m3 { called = m3.called ++ received cb chunk ∷ [] }
                ])
      ]

  unfoldable pub receive_full_chunk : ℕ → List ℕ → Socket → Option Socket
  receive_full_chunk id chunk m =
      if id == 0 then receive_control chunk m else some (receive_data id chunk m)

  -- `connectionFailureOrSuccessCallback`, with the call that it makes of each callback.
  unfoldable pub connection_changed : Phase → (ℕ → Call) → Socket → Socket
  connection_changed status tell m =
      let (m1, changed) = commit_callbacks hash rand kept status true m in
      if changed then record m1 { called = m1.called ++ map (λ c. tell c.1) m1.callbacks } else m1
