-- ===== src/Scheduler/Contention.antt =====
-- When an attempt of `moveTaskTowardStop` of internal/workflow/scheduler.go meets a conflict.
use semantic_framework.Prelude.{
  ℕ, zero, suc, String, ◌≡◌, refl, ◌∙◌, Bool, true, false, ◌||◌, Option, none, some, List, [], ◌∷◌,
  ok, err, Error, invalid_state, revision_conflict, not_found, eqb, arith,
}
use semantic_framework.Prelude.Table.{affected, find-affected}
use semantic_framework.Store.Status.{Status, allowed_task_transitions}
use semantic_framework.Store.Rows.{Task, Db}
use semantic_framework.Store.Tx.{◌>>=◌, ◌>>◌, expect, require, modify}
use semantic_framework.Store.Tables.{task_key, find_task, update_task}
use semantic_framework.Store.Task.{check_task_transition}
use semantic_framework.Store.TaskSteps.{Checked}
use semantic_framework.Store.History.{Call, run, with_update}
use semantic_framework.Scheduler.Stop.{Others}

abbrev pub has_calls : List Call → Bool
has_calls [] = false
has_calls (c ∷ cs) = true

-- Another writer acts before the check of the attempt or between its check and its UPDATE.
abbrev pub interferes : Others → ℕ → Bool
interferes o n = has_calls (o.before n) || has_calls (o.between n)

-- Another writer interferes with each of the attempts.
abbrev pub IsDisturbed : Others → ℕ → Type 0
IsDisturbed o zero = Unit
IsDisturbed o (suc n) = (interferes o n ≡ true) × IsDisturbed o n

-- A check on the row as it stands passes.
check_now :
    (db : Db) (task : Task) (to : Status)
    → find_task task.id db ≡ some task
    → allowed_task_transitions task.status to ≡ true
    → check_task_transition task.id task.revision to db ≡ ok (tt, db)
unfolding check_task_transition
check_now db task to found legal = go (find_task task.id db) found
  where
    same : eqb task.revision task.revision ≡ true
    same = ground arith

    go :
        (o : Option Task)
        → o ≡ some task
        → (expect o not_found >>= λ current.
              require (eqb current.revision task.revision) revision_conflict
              >> require (allowed_task_transitions current.status to) invalid_state)
            db
          ≡ ok (tt, db)
    go none e = cc
    go (some u) e = let is_task : u ≡ task = cc in rw (is_task, same, legal) refl

pub check-interferes :
    (o : Others) (n : ℕ) (db : Db) (task : Task) (to : Status)
    → find_task task.id db ≡ some task
    → allowed_task_transitions task.status to ≡ true
    → check_task_transition task.id task.revision to (run (o.before n) db) ≡ err revision_conflict
    → interferes o n ≡ true
unfolding run
check-interferes o n db task to found legal h = go (o.before n) (o.between n) h
  where
    go :
        (bs cs : List Call)
        → check_task_transition task.id task.revision to (run bs db) ≡ err revision_conflict
        → (has_calls bs || has_calls cs) ≡ true
    go (b ∷ bs) cs e = refl
    go [] cs e =
        let passes : check_task_transition task.id task.revision to db ≡ ok (tt, db) =
          check_now db task to found legal in
        cc

-- An UPDATE right after its check succeeds.
update-Checked :
    (seen : Db) (id : String) (expected : ℕ) (to : Status) (change : Task → Task) (e : Error)
    → Checked id expected to seen
    → update_task id (λ t. eqb t.revision expected) change seen ≡ err e
    → ⊥
update-Checked seen id expected to change e c h =
    go (affected task_key id (λ t. eqb t.revision expected) seen.tasks) hit h
  where
    same : eqb c.row.revision expected ≡ true
    same = ground (arith, c.same)

    hit : affected task_key id (λ t. eqb t.revision expected) seen.tasks ≡ true
    hit = find-affected task_key id (λ t. eqb t.revision expected) seen.tasks c.row c.found ∙ same

    go :
        (b : Bool)
        → b ≡ true
        → (require b revision_conflict
              >> modify (with_update id (λ t. eqb t.revision expected) change))
            seen
          ≡ err e
        → ⊥
    go true y k = cc
    go false y k = cc

pub update-interferes :
    (o : Others) (n : ℕ) (seen : Db) (id : String) (expected : ℕ) (to : Status)
    (change : Task → Task) (e : Error)
    → Checked id expected to seen
    → update_task id (λ t. eqb t.revision expected) change (run (o.between n) seen) ≡ err e
    → interferes o n ≡ true
unfolding run
update-interferes o n seen id expected to change e c h = go (o.before n) (o.between n) h
  where
    go :
        (bs cs : List Call)
        → update_task id (λ t. eqb t.revision expected) change (run cs seen) ≡ err e
        → (has_calls bs || has_calls cs) ≡ true
    go (b ∷ bs) cs k = refl
    go [] (x ∷ cs) k = refl
    go [] [] k = absurd (update-Checked seen id expected to change e c k)
