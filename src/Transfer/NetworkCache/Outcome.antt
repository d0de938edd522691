-- ===== src/Transfer/NetworkCache/Outcome.antt =====
-- What a request to a `NetworkCacheLayer` comes to: the data of the first service that can be had,
-- or the next layer.
use sirikata.Base.{
  ℕ, zero, suc, ◌≤◌, ◌≡◌, refl, sym, ap, ◌∙◌, Bool, true, false, some, [], ◌∷◌, drop, length, arith,
  inl, inr, Option-cases,
}
use sirikata.Base.Assoc.{
  lookup, has, Distinct, has-lookup, lookup-remove, modify-Distinct, has-modify,
}
use sirikata.Transfer.Services.{ListOfServices, Registry, lookup_uri}
use sirikata.Transfer.NetworkCache.{
  for_download, RequestInfo, Layer, proceed, give_up, start_download, do_fetch, got_services,
}
use sirikata.Transfer.NetworkCache.Rounds.{
  Answers, usable, serve, outcome, ended, serve_done, serve_waits, fetchable_end, fetchable_skip,
  fetchable_start, do_fetch-proceed, http_callback-usable, http_callback-unusable, ended-start,
  start_download-waits, drop-suc, outcome_skip, outcome_failed, outcome_taken,
}

module _ {H : Type 0} (tolower : ℕ → ℕ) (isspace : ℕ → Bool) (registry : Registry H) where
  module _ (answers : Answers) (id : ℕ) where
    serve-give_up :
        (fuel : ℕ) (m : Layer)
        → Distinct m.active
        → serve tolower isspace registry fuel answers id (give_up id m) ≡ give_up id m
    unfolding give_up
    serve-give_up fuel m u =
        serve_done tolower isspace registry fuel answers id _
          (ground (arith, lookup-remove id id m.active u))

    serve-do_fetch :
        (fuel : ℕ) (info : RequestInfo) (all rest : ListOfServices) (which : ℕ) (m : Layer)
        → length rest ≤ fuel
        → info.services ≡ some all
        → drop which all ≡ rest
        → m.cleanup ≡ false
        → has id m.active ≡ true
        → Distinct m.active
        → serve tolower isspace registry fuel answers id
            (do_fetch tolower isspace registry id info which m)
          ≡ ended id (outcome tolower isspace registry answers id info.file rest which m.log) m
    unfolding outcome give_up start_download
    serve-do_fetch fuel info all [] which m enough s d open_ there u =
        ap (serve tolower isspace registry fuel answers id) (
          do_fetch-proceed tolower isspace registry id info all which m s open_
          ∙ ap (λ o. proceed id info o m)
              (fetchable_end tolower isspace registry info.file all which d))
        ∙ serve-give_up fuel m u
    serve-do_fetch zero info all ((service, params) ∷ rest) which m enough s d open_ there u =
        absurd (omega arith)
    serve-do_fetch (suc fuel) info all ((service, params) ∷ rest) which m enough s d open_ there u =
        let uri = (lookup_uri tolower isspace registry service info.file.uri).0 in
        let go_on = do_fetch-proceed tolower isspace registry id info all which m s open_ in
        elim (Option-cases (lookup_uri tolower isspace registry service info.file.uri).1) [
          | inl nothing ↦
              ap (serve tolower isspace registry (suc fuel) answers id) (
                go_on
                ∙ ap (λ o. proceed id info o m)
                    (fetchable_skip tolower isspace registry info.file all which service params rest
                      d nothing)
                ∙ sym (do_fetch-proceed tolower isspace registry id info all (suc which) m s open_))
              ∙ serve-do_fetch (suc fuel) info all rest (suc which) m (omega arith) s
                  (drop-suc which all d) open_ there u
              ∙ ap (λ l. ended id l m)
                  (sym (
                    outcome_skip tolower isspace registry answers id info.file service params rest
                      which m.log nothing))
          | inr (h, known) ↦
              let w : RequestInfo = record info { waiting = for_download which } in
              let m1 = start_download id info which uri m in
              let started =
                go_on
                ∙ ap (λ o. proceed id info o m)
                    (fetchable_start tolower isspace registry info.file all which service params
                      rest h d known) in
              let step =
                ap (serve tolower isspace registry (suc fuel) answers id) started
                ∙ serve_waits tolower isspace registry fuel answers id m1 info which
                    (start_download-waits id info which uri m there) in
              elim (Option-cases (usable (answers which))) [
                | inl unusable ↦
                    step
                    ∙ ap (serve tolower isspace registry fuel answers id) (
                        http_callback-unusable tolower isspace registry id w which (answers which)
                          m1 unusable
                        ∙ ap (λ k. do_fetch tolower isspace registry id w k m1) (omega arith))
                    ∙ serve-do_fetch fuel w all rest (suc which) m1 (omega arith) s
                        (drop-suc which all d) open_ (has-modify id id w m.active ∙ there)
                        (modify-Distinct id w m.active u)
                    ∙ ended-start id info which uri m _
                    ∙ ap (λ l. ended id l m)
                        (sym (
                          outcome_failed tolower isspace registry answers id info.file service
                            params rest which m.log h known unusable))
                | inr (x, taken) ↦
                    step
                    ∙ ap (serve tolower isspace registry fuel answers id) (
                        http_callback-usable tolower isspace registry id w which (answers which) x
                          m1 taken)
                    ∙ serve_done tolower isspace registry fuel answers id _ (
                        ground
                          (arith, lookup-remove id id m1.active (modify-Distinct id w m.active u)))
                    ∙ ended-start id info which uri m _
                    ∙ ap (λ l. ended id l m)
                        (sym (
                          outcome_taken tolower isspace registry answers id info.file service params
                            rest which m.log h x known taken))
              ]
        ]

  -- When the services of a request come, the layer is not closed, and each handler that is asked
  -- answers: with at least as many rounds as services the request ends. The services were asked in
  -- order up to the first that succeeded, whose data went to the caches above and then to the
  -- callback; if none did, the request was handed to the next layer. The other requests are as they
  -- were.
  pub serve-got_services :
      (answers : Answers) (id fuel : ℕ) (info : RequestInfo) (found : ListOfServices) (m : Layer)
      → length found ≤ fuel
      → lookup id m.active ≡ some info
      → m.cleanup ≡ false
      → Distinct m.active
      → serve tolower isspace registry fuel answers id
          (got_services tolower isspace registry id info (some found) m)
        ≡ ended id (outcome tolower isspace registry answers id info.file found 0 m.log) m
  unfolding got_services
  serve-got_services answers id fuel info found m enough there open_ u =
      serve-do_fetch answers id fuel (record info { services = some found }) found found 0 m enough
        refl refl open_ (ground (arith, has-lookup id m.active, there)) u
