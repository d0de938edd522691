-- ===== src/Task/Dependency/Counts.antt =====
-- The count of each task is that of the times that it stands in the lists of the others, so no
-- count is ever lowered below zero, and the event of a task is fired when the last one that it
-- waits for has finished.
use sirikata.Base.{
  count, count-append, ℕ, suc, ◌+◌, ◌≤◌, ◌≡◌, refl, sym, ap, ◌∙◌, inl, inr, Bool, false, not, ◌&&◌,
  ◌||◌, some, List, [], ◌∷◌, ◌++◌, ◌==◌, ltb, if◌then◌else◌, arith, Bool-cases, bool_eq,
}
use sirikata.Task.Dependency.{Task, Store, set_task, add_depender, finish}
use sirikata.Task.Dependency.Release.{fired_for, release_each-Released}

-- How often a task stands in the lists of some tasks.
abbrev pub total : ℕ → List ℕ → Store → ℕ
total d [] s = 0
total d (t ∷ ts) s = count d (s.tasks t).dependents + total d ts s

-- Each task waits for as many as have it in their lists; `ts` are all tasks.
abbrev pub IsCounted : List ℕ → Store → Type 0
IsCounted ts s = (d : ℕ) → (s.tasks d).waiting_on ≡ total d ts s

total-same :
    (d : ℕ) (ts : List ℕ) (s s' : Store)
    → ((k : ℕ) → (s'.tasks k).dependents ≡ (s.tasks k).dependents)
    → total d ts s' ≡ total d ts s
total-same d [] s s' h = refl
total-same d (t ∷ ts) s s' h = omega (arith, ap (count d) (h t), total-same d ts s s' h)

total-other :
    (d t : ℕ) (ts : List ℕ) (x : Task) (s : Store)
    → count t ts ≡ 0
    → total d ts (set_task t x s) ≡ total d ts s
total-other d t [] x s h = refl
total-other d t (k ∷ ts) x s h =
    let other : (k == t) ≡ false = ground arith in
    rw other (ap (λ n. count d (s.tasks k).dependents + n) (total-other d t ts x s (ground arith)))

total-set_task :
    (d t : ℕ) (ts : List ℕ) (x : Task) (s : Store)
    → count t ts ≡ 1
    → total d ts (set_task t x s) + count d (s.tasks t).dependents
      ≡ total d ts s + count d x.dependents
total-set_task d t [] x s h = absurd (omega arith)
total-set_task d t (k ∷ ts) x s h = elim (Bool-cases (k == t)) [
  | inl here ↦
      let eq : k ≡ t = ground arith in
      let rest = total-other d t ts x s (ground arith) in
      let same : count d (s.tasks k).dependents ≡ count d (s.tasks t).dependents =
        ap (λ i. count d (s.tasks i).dependents) eq in
      rw here (omega (arith, rest, same))
  | inr other ↦ rw other (omega (arith, total-set_task d t ts x s (ground arith)))
]

count-total :
    (d t : ℕ) (ts : List ℕ) (s : Store)
    → count t ts ≡ 1
    → count d (s.tasks t).dependents ≤ total d ts s
count-total d t ts s once =
    omega (arith, total-set_task d t ts (record (s.tasks t) { dependents = [] }) s once)

set_task_self : (t : ℕ) (x : Task) (s : Store) → (set_task t x s).tasks t ≡ x
set_task_self t x s = ground arith

-- The list of one task is replaced.
relist : ℕ → List ℕ → Store → Store
relist t ds s = set_task t (record (s.tasks t) { dependents = ds }) s

relist-tasks :
    (t d : ℕ) (ds : List ℕ) (s : Store)
    → (((relist t ds s).tasks d).waiting_on ≡ (s.tasks d).waiting_on)
      × (((relist t ds s).tasks d).failure ≡ (s.tasks d).failure)
unfolding relist
relist-tasks t d ds s = elim (Bool-cases (d == t)) [
  | inl here ↦
      let eq : t ≡ d = ground arith in
      rw here (ap (λ k. (s.tasks k).waiting_on) eq, ap (λ k. (s.tasks k).failure) eq)
  | inr other ↦ rw other (refl, refl)
]

-- One task waits for one more.
waits : ℕ → Store → Store
waits x s = set_task x (record (s.tasks x) { waiting_on = suc (s.tasks x).waiting_on }) s

waits-tasks :
    (x d : ℕ) (s : Store)
    → (((waits x s).tasks d).waiting_on ≡ (s.tasks d).waiting_on + count d (x ∷ []))
      × (((waits x s).tasks d).dependents ≡ (s.tasks d).dependents)
unfolding waits
waits-tasks x d s = elim (Bool-cases (d == x)) [
  | inl here ↦
      let eq : x ≡ d = ground arith in
      let one : count d (x ∷ []) ≡ 1 = ground arith in
      rw here (
        omega (arith, ap (λ k. (s.tasks k).waiting_on) eq, one),
        ap (λ k. (s.tasks k).dependents) eq,
      )
  | inr other ↦
      let nothing : count d (x ∷ []) ≡ 0 = ground arith in rw other (omega (arith, nothing), refl)
]

-- Making a task wait for another one keeps the counts right.
pub add_depender-IsCounted :
    (ts : List ℕ) (t depender : ℕ) (s : Store)
    → IsCounted ts s
    → count t ts ≡ 1
    → IsCounted ts (add_depender t depender s)
unfolding add_depender relist waits
add_depender-IsCounted ts t depender s c once = λ d.
    let s1 = waits depender s in
    let ds = (s1.tasks t).dependents ++ depender ∷ [] in
    let more = waits-tasks depender d s in
    let kept = relist-tasks t d ds s1 in
    let same = total-same d ts s s1 (λ k. (waits-tasks depender k s).1) in
    let grown = total-set_task d t ts (record (s1.tasks t) { dependents = ds }) s1 once in
    omega (
      arith,
      c d,
      more.0,
      kept.0,
      same,
      grown,
      count-append d (s1.tasks t).dependents (depender ∷ []),
    )

-- Where the counts are right, a task that finishes returns without a fault and leaves the counts
-- right. Each other task waits for it no more, and fails if it failed. For a task that was waiting
-- for it and now waits for nothing else one event is fired: that which runs the task if it has not
-- failed, and that which reports its failure if it has. For any other task no event is fired.
pub finish-IsCounted :
    (ts : List ℕ) (t : ℕ) (success : Bool) (s : Store)
    → IsCounted ts s
    → count t ts ≡ 1
    → (s' : Store) × (finish t success s ≡ some s')
      × IsCounted ts s'
      × ((s'.tasks t).dependents ≡ [])
      × ((d : ℕ)
          → ((s'.tasks d).waiting_on + count d (s.tasks t).dependents ≡ (s.tasks d).waiting_on)
            × ((s'.tasks d).failure
                ≡ ((s.tasks d).failure || (not success && ltb 0 (count d (s.tasks t).dependents))))
            × ((failed : Bool)
                → fired_for failed d s'.fired
                  ≡ fired_for failed d s.fired
                    + (if ltb 0 (count d (s.tasks t).dependents)
                          && ((s'.tasks d).waiting_on == 0 && bool_eq (s'.tasks d).failure failed)
                        then 1
                        else 0)))
unfolding finish relist
finish-IsCounted ts t success s c once =
    let ds = (s.tasks t).dependents in
    let (s1, done, r) =
      release_each-Released success ds s (λ d. omega (arith, c d, count-total d t ts s once)) in
    (
      relist t [] s1,
      rw (done, finish) refl,
      λ d. omega (
        arith,
        c d,
        (relist-tasks t d [] s1).0,
        (r d).waiting,
        ap (count d) (r t).dependents,
        total-same d ts s s1 (λ k. (r k).dependents),
        total-set_task d t ts (record (s1.tasks t) { dependents = [] }) s1 once,
      ),
      ap (λ x. x.dependents) (set_task_self t (record (s1.tasks t) { dependents = [] }) s1),
      λ d. (
        ap (λ n. n + count d ds) (relist-tasks t d [] s1).0 ∙ (r d).waiting,
        (relist-tasks t d [] s1).1 ∙ (r d).failure,
        λ failed.
            (r d).called failed
            ∙ ap
                (λ n.
                  fired_for failed d s.fired
                  + (if ltb 0 (count d ds) && (n == 0 && bool_eq (s1.tasks d).failure failed)
                      then 1
                      else 0))
                (sym (relist-tasks t d [] s1).0)
            ∙ ap
                (λ f.
                  fired_for failed d s.fired
                  + (if ltb 0 (count d ds)
                        && (((relist t [] s1).tasks d).waiting_on == 0 && bool_eq f failed)
                      then 1
                      else 0))
                (sym (relist-tasks t d [] s1).1),
      ),
    )
