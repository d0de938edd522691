-- ===== src/Task/Dependency/Release.antt =====
-- What the loop of `finish` does to each task: its count, its failure and its calls.
use sirikata.Base.{
  count, ℕ, zero, suc, ◌+◌, ◌≤◌, ◌<◌, ◌≡◌, refl, sym, ap, ◌∙◌, inl, inr, Bool, false, not, ◌&&◌,
  ◌||◌, some, List, [], ◌∷◌, ◌++◌, ◌==◌, ltb, if◌then◌else◌, arith, Bool-cases, bool_eq, true,
}
use sirikata.Task.Dependency.{
  Task, Fired, call_task, call_failed, Store, set_task, go, pred, release, release_each,
}

-- How often the event that runs a task was fired, or, for `true`, the one that reports its failure.
abbrev pub fired_for : Bool → ℕ → List Fired → ℕ
fired_for failed d [] = 0
fired_for failed d (call_task t ∷ log) =
    if t == d && not failed then suc (fired_for failed d log) else fired_for failed d log
fired_for failed d (call_failed t ∷ log) =
    if t == d && failed then suc (fired_for failed d log) else fired_for failed d log

fired_for-append :
    (failed : Bool) (d : ℕ) (log more : List Fired)
    → fired_for failed d (log ++ more) ≡ fired_for failed d log + fired_for failed d more
fired_for-append failed d [] more = omega arith
fired_for-append failed d (call_task t ∷ log) more =
    ground (arith, fired_for-append failed d log more)
fired_for-append failed d (call_failed t ∷ log) more =
    ground (arith, fired_for-append failed d log more)

-- What the release of some tasks, in a list, does to one.
pub record Released (success : Bool) (ds : List ℕ) (s s' : Store) (d : ℕ) : Type 0 where
  pub waiting : (s'.tasks d).waiting_on + count d ds ≡ (s.tasks d).waiting_on
  pub dependents : (s'.tasks d).dependents ≡ (s.tasks d).dependents
  pub failure : (s'.tasks d).failure ≡ ((s.tasks d).failure || (not success && ltb 0 (count d ds)))
  pub called :
      (failed : Bool)
      → fired_for failed d s'.fired
        ≡ fired_for failed d s.fired
          + (if ltb 0 (count d ds)
                && ((s'.tasks d).waiting_on == 0 && bool_eq (s'.tasks d).failure failed)
              then 1
              else 0)

go-tasks : (x k : ℕ) (s : Store) → (go x s).tasks k ≡ s.tasks k
unfolding go
go-tasks x k s = ground arith

pos_pred : (n : ℕ) → 0 < n → suc (pred n) ≡ n
pos_pred zero h = absurd (omega arith)
pos_pred (suc n) h = refl

fired_for-go :
    (failed : Bool) (d x : ℕ) (s : Store)
    → fired_for failed d (go x s).fired
      ≡ fired_for failed d s.fired
        + (if x == d && ((s.tasks x).waiting_on == 0 && bool_eq (s.tasks x).failure failed)
            then 1
            else 0)
unfolding go
fired_for-go true d x s = ground (
  arith,
  fired_for-append true d s.fired (call_failed x ∷ []),
  fired_for-append true d s.fired (call_task x ∷ []),
)
fired_for-go false d x s = ground (
  arith,
  fired_for-append false d s.fired (call_failed x ∷ []),
  fired_for-append false d s.fired (call_task x ∷ []),
)

lowered : Bool → Task → Task
lowered success t = record t { waiting_on = pred t.waiting_on; failure = t.failure || not success }

set_task-tasks :
    (x k : ℕ) (t : Task) (s : Store) → (set_task x t s).tasks k ≡ (if k == x then t else s.tasks k)
set_task-tasks x k t s = refl

release-Released :
    (success : Bool) (x : ℕ) (s : Store)
    → 0 < (s.tasks x).waiting_on
    → (s' : Store) × (release success x s ≡ some s') × ((d : ℕ) → Released success (x ∷ []) s s' d)
unfolding release lowered
release-Released success x s h =
    let s1 = set_task x (lowered success (s.tasks x)) s in
    let waits : ((s.tasks x).waiting_on == 0) ≡ false = ground arith in
    let less : suc (pred (s.tasks x).waiting_on) ≡ (s.tasks x).waiting_on =
      pos_pred (s.tasks x).waiting_on h in
    (
      go x s1,
      rw (waits, release) refl,
      λ d.
          let same = go-tasks x d s1 in
          elim (Bool-cases (d == x)) [
            | inl here ↦
                let eq : d ≡ x = ground arith in
                let now : (go x s1).tasks d ≡ lowered success (s.tasks d) =
                  same ∙ rw here (ap (λ k. lowered success (s.tasks k)) (sym eq)) in
                let at : s1.tasks x ≡ lowered success (s.tasks d) =
                  ap s1.tasks (sym eq) ∙ rw here (ap (λ k. lowered success (s.tasks k)) (sym eq)) in
                let one : count d (x ∷ []) ≡ 1 = ground (arith, eq) in
                let was : suc (pred (s.tasks d).waiting_on) ≡ (s.tasks d).waiting_on =
                  ap (λ k. suc (pred (s.tasks k).waiting_on)) eq
                  ∙ less
                  ∙ ap (λ k. (s.tasks k).waiting_on) (sym eq) in
                record {
                  waiting = omega (arith, ap (λ t. t.waiting_on) now, one, was);
                  dependents = ap (λ t. t.dependents) now;
                  failure = ground (arith, ap (λ t. t.failure) now, one);
                  called = λ failed. ground (
                    arith,
                    fired_for-go failed d x s1,
                    eq,
                    one,
                    ap (λ t. t.waiting_on) now,
                    ap (λ t. t.waiting_on) at,
                    ap (λ t. t.failure) now,
                    ap (λ t. t.failure) at,
                  );
                }
            | inr other ↦
                let now : (go x s1).tasks d ≡ s.tasks d = same ∙ rw other refl in
                let zero_times : count d (x ∷ []) ≡ 0 = ground arith in
                let not_it : (x == d) ≡ false = ground arith in
                record {
                  waiting = omega (arith, ap (λ t. t.waiting_on) now, zero_times);
                  dependents = ap (λ t. t.dependents) now;
                  failure = ground (arith, ap (λ t. t.failure) now, zero_times);
                  called = λ failed. ground (arith, fired_for-go failed d x s1, zero_times, not_it);
                }
          ],
    )

pub release_each-Released :
    (success : Bool) (ds : List ℕ) (s : Store)
    → ((d : ℕ) → count d ds ≤ (s.tasks d).waiting_on)
    → (s' : Store) × (release_each success ds s ≡ some s') × ((d : ℕ) → Released success ds s s' d)
unfolding release_each
release_each-Released success [] s h = (
  s,
  refl,
  λ d. record {
    waiting = omega arith;
    dependents = refl;
    failure = ground arith;
    called = λ failed. ground arith;
  },
)
release_each-Released success (x ∷ ds) s h =
    let (s1, done, r) = release-Released success x s (ground (arith, h x)) in
    let (s', rest, q) =
      release_each-Released success ds s1 (λ d. ground (arith, h d, (r d).waiting)) in
    (
      s',
      rw (done, release_each) rest,
      λ d. record {
        waiting = ground (arith, (r d).waiting, (q d).waiting);
        dependents = (q d).dependents ∙ (r d).dependents;
        failure = ground (arith, (r d).failure, (q d).failure);
        called = λ failed. ground (
          arith,
          (r d).called failed,
          (q d).called failed,
          (r d).waiting,
          (q d).waiting,
          (r d).failure,
          (q d).failure,
        );
      },
    )
