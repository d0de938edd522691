-- ===== src/Network/MultiplexedSocket/Closing.antt =====
-- The close handshake: control packets are counted until each connection has brought one.
use sirikata.Base.{
  ℕ, zero, suc, ◌+◌, ◌%◌, ◌^◌, ◌<◌, ◌≡◌, ◌≢◌, refl, ap, ◌∙◌, Bool, Option, none, some, List, [],
  ◌∷◌, ◌++◌, arith, append-nil,
}
use sirikata.Base.Assoc.{lookup, remove, modify}
use sirikata.Network.Uint30.{serialize, unserialize-serialize}
use sirikata.Network.Frame.{ControlCode, close_stream, ack_close_stream, control}
use sirikata.Network.MultiplexedSocket.{
  Socket, connected, get_new_id, commit_callbacks, send_close, send_bytes, send_bytes_now,
}
use sirikata.Network.MultiplexedSocket.Close.{
  free_id, commit, shut_down_closed_stream, finish_close, count_close, receive_control,
  receive_full_chunk,
}

module _ (hash rand : ℕ → ℕ) (kept : ℕ → Bool) (react : ℕ → List (ℕ × Option ℕ))
    (accept : ℕ → Option ℕ) where
  abbrev count : ControlCode → ℕ → Socket → Option Socket
  count = count_close hash rand kept react accept

  abbrev finish : ControlCode → ℕ → Socket → Option Socket
  finish = finish_close hash rand kept react accept

  -- The same chunk received a number of times.
  abbrev pub receive_times : ℕ → ℕ → List ℕ → Socket → Option Socket
  receive_times zero id chunk m = some m
  receive_times (suc k) id chunk m =
      elim (receive_full_chunk hash rand kept react accept id chunk m) [
        | none ↦ none
        | some m' ↦ receive_times k id chunk m'
      ]

  -- A control packet as it is built is read as its code and its id.
  receive-control :
      (code : ControlCode) (id : ℕ) (m : Socket)
      → id ≢ 0
      → id < 2 ^ 30
      → receive_full_chunk hash rand kept react accept 0 (control code id).payload m
        ≡ count code id m
  unfolding receive_full_chunk receive_control
  receive-control close_stream id m h fits =
      ground (arith, unserialize-serialize id [] fits, append-nil (serialize id))
  receive-control ack_close_stream id m h fits =
      ground (arith, unserialize-serialize id [] fits, append-nil (serialize id))

  count-next :
      (code : ControlCode) (id j : ℕ) (rest : List (ℕ × ℕ)) (m : Socket)
      → suc j < m.sockets
      → count code id (record m { acked = (id, j) ∷ rest })
        ≡ some (record m { acked = (id, suc j) ∷ rest })
  unfolding count_close lookup modify
  count-next code id j rest m h = ground arith

  count-last :
      (code : ControlCode) (id j : ℕ) (rest : List (ℕ × ℕ)) (m : Socket)
      → suc j ≡ m.sockets
      → count code id (record m { acked = (id, j) ∷ rest })
        ≡ finish code id (record m { acked = rest })
  unfolding count_close lookup remove
  count-last code id j rest m h = ground arith

  count-first :
      (code : ControlCode) (id : ℕ) (m : Socket)
      → lookup id m.acked ≡ none
      → 1 < m.sockets
      → count code id m ≡ some (record m { acked = (id, 1) ∷ m.acked })
  unfolding count_close
  count-first code id m new h = ground arith

  count-only :
      (code : ControlCode) (id : ℕ) (m : Socket)
      → lookup id m.acked ≡ none
      → m.sockets ≡ 1
      → count code id m ≡ finish code id m
  unfolding count_close
  count-only code id m new h = ground arith

  module _ (code : ControlCode) (id : ℕ) (h : id ≢ 0) (fits : id < 2 ^ 30) where
    abbrev chunk : List ℕ
    chunk = (control code id).payload

    abbrev then_times : ℕ → Option Socket → Option Socket
    then_times k none = none
    then_times k (some m) = receive_times k 0 chunk m

    receive_times-suc :
        (k : ℕ) (m : Socket) (o : Option Socket)
        → count code id m ≡ o
        → receive_times (suc k) 0 chunk m ≡ then_times k o
    receive_times-suc k m none e = rw (receive-control code id m h fits ∙ e, receive_times) refl
    receive_times-suc k m (some m') e =
        rw (receive-control code id m h fits ∙ e, receive_times) refl

    then_times-zero : (o : Option Socket) → then_times 0 o ≡ o
    then_times-zero none = refl
    then_times-zero (some m) = refl

    receive_times-open :
        (k j : ℕ) (rest : List (ℕ × ℕ)) (m : Socket)
        → j + k < m.sockets
        → receive_times k 0 chunk (record m { acked = (id, j) ∷ rest })
          ≡ some (record m { acked = (id, j + k) ∷ rest })
    receive_times-open zero j rest m lt =
        ap (λ i. some (record m { acked = (id, i) ∷ rest })) (omega arith)
    receive_times-open (suc k) j rest m lt =
        receive_times-suc k (record m { acked = (id, j) ∷ rest }) _
          (count-next code id j rest m (omega arith))
        ∙ receive_times-open k (suc j) rest m (omega arith)
        ∙ ap (λ i. some (record m { acked = (id, i) ∷ rest })) (omega arith)

    receive_times-last :
        (k j : ℕ) (rest : List (ℕ × ℕ)) (m : Socket)
        → j + suc k ≡ m.sockets
        → receive_times (suc k) 0 chunk (record m { acked = (id, j) ∷ rest })
          ≡ finish code id (record m { acked = rest })
    receive_times-last zero j rest m e =
        receive_times-suc 0 (record m { acked = (id, j) ∷ rest }) _
          (count-last code id j rest m (omega arith))
        ∙ then_times-zero (finish code id (record m { acked = rest }))
    receive_times-last (suc k) j rest m e =
        receive_times-suc (suc k) (record m { acked = (id, j) ∷ rest }) _
          (count-next code id j rest m (omega arith))
        ∙ receive_times-last k (suc j) rest m (omega arith)

    receive_times-all :
        (n : ℕ) (m : Socket)
        → m.sockets ≡ suc n
        → lookup id m.acked ≡ none
        → receive_times (suc n) 0 chunk m ≡ finish code id m
    receive_times-all zero m e new =
        receive_times-suc 0 m _ (count-only code id m new e) ∙ then_times-zero (finish code id m)
    receive_times-all (suc n) m e new =
        receive_times-suc (suc n) m _ (count-first code id m new (omega arith))
        ∙ receive_times-last n 1 m.acked m (omega arith)

  -- A control packet for a stream, whose id is not 0 and fits 30 bits, and of which none has come
  -- yet: each one before that of the last
  -- connection is only counted, and with that of the last one the stream is shut down, once, and
  -- answered if the other side closed it. The count is then gone.
  pub receive_times-finish :
      (code : ControlCode) (id n : ℕ) (m : Socket)
      → id ≢ 0
      → id < 2 ^ 30
      → m.sockets ≡ suc n
      → lookup id m.acked ≡ none
      → ((k : ℕ)
          → k < n
          → receive_times (suc k) 0 (control code id).payload m
            ≡ some (record m { acked = (id, suc k) ∷ m.acked }))
        × (receive_times (suc n) 0 (control code id).payload m ≡ finish code id m)
  receive_times-finish code id n m h fits e new = (
    λ k lt.
        receive_times-suc code id h fits k m _ (count-first code id m new (omega arith))
        ∙ receive_times-open code id h fits k 1 m.acked m (omega arith)
        ∙ ap (λ i. some (record m { acked = (id, i) ∷ m.acked })) (omega arith),
    receive_times-all code id h fits n m e new,
  )

  pub commit-nil : (m : Socket) → m.registrations ≡ [] → commit hash rand kept react accept m ≡ m
  unfolding commit_callbacks
  commit-nil m e = ground arith

  after_close : ℕ → Socket → Socket
  after_close id m = send_close hash rand kept ack_close_stream id (free_id id m)

  after_close-free_ids :
      (id : ℕ) (m : Socket)
      → m.phase ≡ connected
      → id % 2 ≡ m.highest % 2
      → ((after_close id m).free_ids ≡ m.free_ids ++ id ∷ [])
        × ((after_close id m).highest ≡ m.highest)
        × ((after_close id m).sockets ≡ m.sockets)
        × ((after_close id m).acked ≡ m.acked)
  unfolding after_close send_close send_bytes send_bytes_now free_id
  after_close-free_ids id m c own = ground arith

  shut_down-closed :
      (id : ℕ) (m : Socket)
      → lookup id (commit hash rand kept react accept m).callbacks ≡ none
      → shut_down_closed_stream hash rand kept react accept close_stream id m
        ≡ some (free_id id (commit hash rand kept react accept m))
  unfolding shut_down_closed_stream
  shut_down-closed id m gone = rw (gone, shut_down_closed_stream) refl

  finish-closed :
      (id : ℕ) (m : Socket)
      → m.registrations ≡ []
      → lookup id m.callbacks ≡ none
      → finish close_stream id m ≡ some (after_close id m)
  unfolding finish_close after_close
  finish-closed id m settled gone =
      let same = commit-nil m settled in
      rw
        (
          shut_down-closed id m (ap (λ s. lookup id s.callbacks) same ∙ gone)
              ∙ ap (λ s. some (free_id id s)) same,
          finish_close,
        )
        refl

  finish-acked : (id : ℕ) (m : Socket) → finish ack_close_stream id m ≡ some (free_id id m)
  unfolding finish_close shut_down_closed_stream
  finish-acked id m = refl

  -- Both sides close a stream at the same time, over one connection: this side, which gave out the
  -- id, has no callback for it any more, gets the close of the other side and then the answer to
  -- its own. The id is then free twice, so the next two new streams get the same id.
  pub get_new_id-both_closed :
      (id : ℕ) (m : Socket)
      → id ≢ 0
      → id < 2 ^ 30
      → id % 2 ≡ m.highest % 2
      → m.sockets ≡ 1
      → m.phase ≡ connected
      → m.registrations ≡ []
      → m.free_ids ≡ []
      → lookup id m.acked ≡ none
      → lookup id m.callbacks ≡ none
      → (m1 m2 : Socket) × (receive_full_chunk hash rand kept react accept 0
            (control close_stream id).payload
            m
          ≡ some m1)
        × (receive_full_chunk hash rand kept react accept 0 (control ack_close_stream id).payload m1
            ≡ some m2)
        × ((get_new_id m2).0 ≡ id)
        × ((get_new_id (get_new_id m2).1).0 ≡ id)
  unfolding free_id get_new_id
  get_new_id-both_closed id m h fits own one c settled free new gone =
      let m1 = after_close id m in
      let (freed, highest, sockets, acked) = after_close-free_ids id m c own in
      let twice : (free_id id m1).free_ids ≡ id ∷ id ∷ [] =
        ground (arith, own, freed, highest, free) in
      (
        m1,
        free_id id m1,
        receive-control close_stream id m h fits
            ∙ count-only close_stream id m new one
            ∙ finish-closed id m settled gone,
        receive-control ack_close_stream id m1 h fits
            ∙ count-only ack_close_stream id m1 (ap (lookup id) acked ∙ new) (sockets ∙ one)
            ∙ finish-acked id m1,
        ground (arith, twice),
        ground (arith, twice),
      )
