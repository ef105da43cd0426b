-- ===== src/Scheduler/StopSteps.antt =====
-- How `moveTaskTowardStop` of internal/workflow/scheduler.go ends.
use mathlib.Core.Path.{subst}
use semantic_framework.Prelude.{
  ℕ, zero, suc, String, ◌≡◌, refl, sym, ◌⊎◌, inl, inr, true, Option, none, some, [], Result, ok,
  err, invalid_state, revision_conflict, not_found, robot_reserved, no_rows, constraint, event_gap,
  not_pending, project_inactive, stale_map_generation, workflow_exists, project_archived, malformed,
  project_has_active_work, default_project_error, invalid_argument,
}
use semantic_framework.Prelude.Table.{find-key}
use semantic_framework.Store.Status.{Status}
use semantic_framework.Store.Rows.{Task, Db}
use semantic_framework.Store.Tx.{expect}
use semantic_framework.Store.Tables.{task_key, find_task, get_task}
use semantic_framework.Store.Moves.{stay}
use semantic_framework.Store.History.{run}
use semantic_framework.Scheduler.Contention.{interferes, IsDisturbed}
use semantic_framework.Scheduler.Stop.{
  stop_target, Others, reread, retry, attempt_task, move_task_toward_stop,
}
use semantic_framework.Scheduler.Attempt.{
  IsSettled, StopOutcome, stop_target-IsStopping, attempt_task-StopOutcome,
}

move-StopOutcome :
    (o : Others) (n : ℕ) (task : Task) (now : ℕ) (db : Db)
    → find_task task.id db ≡ some task
    → StopOutcome o (IsDisturbed o n) task.id (move_task_toward_stop o n task now db)
unfolding move_task_toward_stop run
move-StopOutcome o zero task now db found = (refl, tt, (task, found))
move-StopOutcome o (suc n) task now db found =
    go (λ t db' there. move-StopOutcome o n t now db' there) (stop_target task.status) refl
  where
    again : Task → Db → Result Task × Db
    again current db' = move_task_toward_stop o n current now db'

    Again : Type 0
    Again =
        (t : Task) (db' : Db)
        → find_task t.id db' ≡ some t
        → StopOutcome o (IsDisturbed o n) t.id (move_task_toward_stop o n t now db')

    both :
        (id : String) (r : Result Task × Db)
        → interferes o n ≡ true
        → StopOutcome o (IsDisturbed o n) id r
        → StopOutcome o (IsDisturbed o (suc n)) id r
    both id (ok t, db') here i = i
    both id (err e, db') here (same, rest, there) = (same, (here, rest), there)

    goes_on :
        Again
        → (r : Result Task × Db) → StopOutcome o (interferes o n ≡ true) task.id r
        → StopOutcome o (IsDisturbed o (suc n)) task.id (retry r (get_task task.id) again)
    goes_on ih (ok t, db') i = i
    goes_on ih (err invalid_state, db') (same, here, there) = cc
    goes_on ih (err not_found, db') (same, here, there) = cc
    goes_on ih (err robot_reserved, db') (same, here, there) = cc
    goes_on ih (err no_rows, db') (same, here, there) = cc
    goes_on ih (err constraint, db') (same, here, there) = cc
    goes_on ih (err event_gap, db') (same, here, there) = cc
    goes_on ih (err not_pending, db') (same, here, there) = cc
    goes_on ih (err project_inactive, db') (same, here, there) = cc
    goes_on ih (err stale_map_generation, db') (same, here, there) = cc
    goes_on ih (err workflow_exists, db') (same, here, there) = cc
    goes_on ih (err project_archived, db') (same, here, there) = cc
    goes_on ih (err malformed, db') (same, here, there) = cc
    goes_on ih (err project_has_active_work, db') (same, here, there) = cc
    goes_on ih (err default_project_error, db') (same, here, there) = cc
    goes_on ih (err invalid_argument, db') (same, here, there) = cc
    goes_on ih (err revision_conflict, db') (same, here, (t, there)) =
        let own : t.id ≡ task.id = find-key task_key task.id db'.tasks t there in
        subst
          (λ p.
            StopOutcome o (IsDisturbed o (suc n)) task.id
              (reread (expect p not_found db') again db'))
          (sym there)
          (subst (λ id. StopOutcome o (IsDisturbed o (suc n)) id (again t db')) own
            (both t.id (again t db') here
              (ih t db' (subst (λ id. find_task id db' ≡ some t) (sym own) there))))

    go :
        Again
        → (target : Option Status) → stop_target task.status ≡ target
        → StopOutcome o (IsDisturbed o (suc n)) task.id (elim target [
          | none ↦ (ok task, db)
          | some to ↦ retry (attempt_task o n task to now db) (get_task task.id) again
        ])
    go ih none e = record {
      moment = db;
      row = task;
      found = found;
      settled = stop_target-IsStopping task.status e;
      others = [];
      theirs = inl refl;
      after = refl;
      stored = found;
      path = stay;
      later = inl refl;
    }
    go ih (some to) e =
        goes_on ih (attempt_task o n task to now db)
          (attempt_task-StopOutcome o n task to now db found e)

-- A conflict, with the task still in the store, after another writer interfered with each attempt.
abbrev pub IsContended : Others → String → Result Task × Db → Type 0
IsContended o id r =
    (t : Task) × ((db : Db) × (r ≡ (err revision_conflict, db))
      × IsDisturbed o 3
      × (find_task id db ≡ some t))

-- `moveTaskTowardStop` makes three attempts on a task that is in the store, while other writers may
-- call whatever they like around each statement of each attempt. Either the store passes through a
-- moment at which the task is stopping, completed, failed or stopped, and what is returned is the row
-- as it then stands in the store: the row of that moment, or a later revision of it that the calls of
-- other writers between the UPDATE and the read-back have made. Or the error is
-- `ErrRevisionConflict`, in each of the three attempts another writer has called something before
-- the UPDATE, and the task is still there. The error is never that a transition is not allowed.
pub move_task_toward_stop-outcome :
    (o : Others) (task : Task) (now : ℕ) (db : Db)
    → find_task task.id db ≡ some task
    → ((t : Task) × ((db' : Db) × (move_task_toward_stop o 3 task now db ≡ (ok t, db'))
          × IsSettled o task.id t db'))
      ⊎ IsContended o task.id (move_task_toward_stop o 3 task now db)
move_task_toward_stop-outcome o task now db found =
    go (move_task_toward_stop o 3 task now db) (move-StopOutcome o 3 task now db found)
  where
    go :
        (r : Result Task × Db)
        → StopOutcome o (IsDisturbed o 3) task.id r
        → ((t : Task) × ((db' : Db) × (r ≡ (ok t, db')) × IsSettled o task.id t db'))
          ⊎ IsContended o task.id r
    go (ok t, db') settled = inl (t, (db', refl, settled))
    go (err x, db') (same, busy, (t, there)) = inr (t, (db', rw same refl, busy, there))
