-- ===== src/Task/Tests.antt =====
-- Two tasks that wait for one.
use sirikata.Base.{
  count, ℕ, ◌+◌, ◌≡◌, refl, Bool, bool_eq, true, false, ◌&&◌, ◌||◌, Option, none, some, List, [],
  ◌∷◌, ◌==◌, ltb, if◌then◌else◌,
}
use sirikata.Task.Dependency.{
  Fired, call_task, Store, new_task, go, add_depender, release, release_each, finish,
}
use sirikata.Task.Dependency.Release.{fired_for}
use sirikata.Task.Dependency.Counts.{IsCounted, add_depender-IsCounted, finish-IsCounted}

empty_store : Store
empty_store = record { tasks = λ k. new_task; fired = [] }

empty_store-IsCounted : IsCounted (1 ∷ 2 ∷ 3 ∷ []) empty_store
unfolding new_task empty_store
empty_store-IsCounted = λ d. refl

waiting_store : Store
waiting_store = add_depender 1 3 (add_depender 1 2 empty_store)

waiting_store-IsCounted : IsCounted (1 ∷ 2 ∷ 3 ∷ []) waiting_store
unfolding waiting_store
waiting_store-IsCounted =
    add_depender-IsCounted (1 ∷ 2 ∷ 3 ∷ []) 1 3 (add_depender 1 2 empty_store)
      (add_depender-IsCounted (1 ∷ 2 ∷ 3 ∷ []) 1 2 empty_store empty_store-IsCounted refl) refl

fired_in : Option Store → List Fired
fired_in none = []
fired_in (some s) = s.fired

finish_calls : fired_in (finish 1 true waiting_store) ≡ call_task 2 ∷ call_task 3 ∷ []
unfolding fired_in finish release_each release go waiting_store add_depender empty_store new_task
finish_calls = refl

finish-IsCounted_example :
    (s' : Store) × (finish 1 true waiting_store ≡ some s')
    × IsCounted (1 ∷ 2 ∷ 3 ∷ []) s'
    × ((s'.tasks 1).dependents ≡ [])
    × ((d : ℕ)
        → ((s'.tasks d).waiting_on + count d (waiting_store.tasks 1).dependents
            ≡ (waiting_store.tasks d).waiting_on)
          × ((s'.tasks d).failure ≡ (
              (waiting_store.tasks d).failure
              || (false && ltb 0 (count d (waiting_store.tasks 1).dependents))))
          × ((failed : Bool)
              → fired_for failed d s'.fired
                ≡ fired_for failed d waiting_store.fired
                  + (if ltb 0 (count d (waiting_store.tasks 1).dependents)
                        && ((s'.tasks d).waiting_on == 0 && bool_eq (s'.tasks d).failure failed)
                      then 1
                      else 0)))
finish-IsCounted_example =
    finish-IsCounted (1 ∷ 2 ∷ 3 ∷ []) 1 true waiting_store waiting_store-IsCounted refl
