-- ===== src/Transfer/NetworkCache/Once.antt =====
-- Every request of a `NetworkCacheLayer` is ended exactly once.
use sirikata.Base.{
  ℕ, suc, ◌+◌, ◌≡◌, Bool, true, false, Option, none, some, List, [], ◌∷◌, ltb, ◌==◌, if◌then◌else◌,
  arith, inl, inr, Option-cases,
}
use sirikata.Base.Assoc.{
  lookup, has, Distinct, has-lookup, has-remove, remove-Distinct, has-modify, modify-Distinct,
}
use sirikata.Transfer.Sparse.{DenseData}
use sirikata.Transfer.Uri.{Uri}
use sirikata.Transfer.Services.{Registry}
use sirikata.Transfer.NetworkCache.{
  RequestInfo, Act, populated, called_back, passed_on, downloads, Layer, give_up, start_download,
  for_download, fetchable, do_fetch, got_services, http_callback, get_data, Step, request, services,
  downloaded, close, Reach, start, later,
}

-- How often a request was ended: by its callback, or by the next layer, which has the callback then.
abbrev pub ends : ℕ → List Act → ℕ
ends id [] = 0
ends id (populated fp d ∷ log) = ends id log
ends id (called_back i d ∷ log) = if i == id then suc (ends id log) else ends id log
ends id (passed_on i ∷ log) = if i == id then suc (ends id log) else ends id log
ends id (downloads i k uri ∷ log) = ends id log

record IsOnce (m : Layer) : Type 0 where
  distinct : Distinct m.active
  once :
      (id : ℕ)
      → ends id m.log + (if has id m.active then 1 else 0)
        ≡ (if ltb id m.next_request then 1 else 0)

give_up-IsOnce : (id : ℕ) (m : Layer) → has id m.active ≡ true → IsOnce m → IsOnce (give_up id m)
unfolding give_up
give_up-IsOnce id m there k = record {
  distinct = remove-Distinct id m.active k.distinct;
  once = λ i. ground (arith, k.once i, has-remove id i m.active k.distinct, there);
}

start_download-IsOnce :
    (id : ℕ) (info : RequestInfo) (which : ℕ) (uri : Uri) (m : Layer)
    → IsOnce m
    → IsOnce (start_download id info which uri m)
unfolding start_download
start_download-IsOnce id info which uri m k = record {
  distinct = modify-Distinct id _ m.active k.distinct;
  once = λ i.
      let w : RequestInfo = record info { waiting = for_download which } in
      ground (arith, k.once i, has-modify id i w m.active);
}

has_of_lookup :
    (id : ℕ) (info : RequestInfo) (m : Layer)
    → lookup id m.active ≡ some info
    → has id m.active ≡ true
has_of_lookup id info m e = ground (arith, has-lookup id m.active, e)

module _ {H : Type 0} (tolower : ℕ → ℕ) (isspace : ℕ → Bool) (registry : Registry H) where
  do_fetch-IsOnce :
      (id : ℕ) (info : RequestInfo) (which : ℕ) (m : Layer)
      → has id m.active ≡ true
      → IsOnce m
      → IsOnce (do_fetch tolower isspace registry id info which m)
  unfolding do_fetch
  do_fetch-IsOnce id info which m there k =
      elim (Option-cases
        (fetchable tolower isspace registry m.cleanup info.file info.services which)) [
          | inl nothing ↦ rw (do_fetch, nothing) (give_up-IsOnce id m there k)
          | inr ((n, uri), next) ↦ rw (do_fetch, next) (start_download-IsOnce id info n uri m k)
        ]

  http_callback-IsOnce :
      (id : ℕ) (info : RequestInfo) (which : ℕ) (d : Option DenseData) (ok : Bool) (m : Layer)
      → has id m.active ≡ true
      → IsOnce m
      → IsOnce (http_callback tolower isspace registry id info which d ok m)
  unfolding http_callback
  http_callback-IsOnce id info which none ok m there k =
      do_fetch-IsOnce id info (which + 1) m there k
  http_callback-IsOnce id info which (some d) false m there k =
      do_fetch-IsOnce id info (which + 1) m there k
  http_callback-IsOnce id info which (some d) true m there k = record {
    distinct = remove-Distinct id m.active k.distinct;
    once = λ i. ground (arith, k.once i, has-remove id i m.active k.distinct, there);
  }

  Step-IsOnce : {m n : Layer} → Step tolower isspace registry m n → IsOnce m → IsOnce n
  unfolding get_data got_services has
  Step-IsOnce {m} (request file range) k = record {
    distinct = (ground (arith, k.once m.next_request), k.distinct);
    once = λ i. ground (arith, k.once i);
  }
  Step-IsOnce {m} (services id info found e w) k =
      do_fetch-IsOnce id (record info { services = found }) 0 m (has_of_lookup id info m e) k
  Step-IsOnce {m} (downloaded id which info received success e w) k =
      http_callback-IsOnce id info which received success m (has_of_lookup id info m e) k
  Step-IsOnce close k = record { distinct = k.distinct; once = k.once }

  Reach-IsOnce : {m : Layer} → Reach tolower isspace registry m → IsOnce m
  unfolding has
  Reach-IsOnce start = record { distinct = tt; once = λ id. ground arith }
  Reach-IsOnce (later r st) = Step-IsOnce st (Reach-IsOnce r)

  -- In every state that is reached, with answers in any order, a request that was made is in the
  -- list of active transfers and has not been ended, or it is not and was ended exactly once, by
  -- its callback or by the next layer. A number that no request has yet was never ended.
  pub ends_once :
      {m : Layer} (id : ℕ)
      → Reach tolower isspace registry m
      → ends id m.log + (if has id m.active then 1 else 0)
        ≡ (if ltb id m.next_request then 1 else 0)
  ends_once id r = (Reach-IsOnce r).once id
