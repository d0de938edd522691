-- ===== src/Task/Dependency.antt =====
-- `DependentTask` (libcore/src/task/DependencyTask.cpp, .hpp): tasks that wait for others. A task is
-- a number, the store a function of it; `fired` is the log of the events given to the event manager.
-- `none` is a fault: the count of a task that waits for nothing is lowered.
use sirikata.Base.{
  ℕ, zero, suc, Bool, true, false, ◌||◌, not, Option, none, some, List, [], ◌∷◌, ◌++◌, ◌==◌,
  if◌then◌else◌,
}
pub mod Release
pub mod Counts

pub record Task : Type 0 where
  pub dependents : List ℕ
  pub waiting_on : ℕ
  pub failure : Bool

-- The events of `go`, both fired under the primary id "": one runs the task, the other calls its
-- `finish(false)`. What the event manager does with them is in Task/Events.
pub data Fired : Type 0 where
  call_task call_failed : ℕ → Fired

pub record Store : Type 0 where
  pub tasks : ℕ → Task
  pub fired : List Fired

unfoldable pub new_task : Task
new_task = record { dependents = []; waiting_on = 0; failure = false }

abbrev pub set_task : ℕ → Task → Store → Store
set_task t task s = record s { tasks = λ k. if k == t then task else s.tasks k }

unfoldable pub go : ℕ → Store → Store
go t s =
    if (s.tasks t).waiting_on == 0
    then record s {
      fired = s.fired ++ (if (s.tasks t).failure then call_failed t else call_task t) ∷ [];
    }
    else s

-- `t.addDepender(depender)`.
unfoldable pub add_depender : ℕ → ℕ → Store → Store
add_depender t depender s =
    let s1 =
      set_task depender
        (record (s.tasks depender) { waiting_on = suc (s.tasks depender).waiting_on }) s in
    set_task t (record (s1.tasks t) { dependents = (s1.tasks t).dependents ++ depender ∷ [] }) s1

abbrev pub pred : ℕ → ℕ
pred zero = 0
pred (suc n) = n

-- One round of the loop of `finish`.
unfoldable pub release : Bool → ℕ → Store → Option Store
release success d s =
    if (s.tasks d).waiting_on == 0
    then none
    else some (
        go d (
          set_task d
            (record (s.tasks d) {
              waiting_on = pred (s.tasks d).waiting_on;
              failure = (s.tasks d).failure || not success;
            })
            s))

unfoldable pub release_each : Bool → List ℕ → Store → Option Store
release_each success [] s = some s
release_each success (d ∷ ds) s = elim (release success d s) [
  | none ↦ none
  | some s' ↦ release_each success ds s'
]

unfoldable pub finish : ℕ → Bool → Store → Option Store
finish t success s = elim (release_each success (s.tasks t).dependents s) [
  | none ↦ none
  | some s' ↦ some (set_task t (record (s'.tasks t) { dependents = [] }) s')
]
