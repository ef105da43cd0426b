-- ===== src/Scheduler/Stop.antt =====
-- `moveTaskTowardStop` and `moveSubTaskTowardStop` of internal/workflow/scheduler.go: three attempts to
-- move a row on, each of which another writer may spoil.
use semantic_framework.Prelude.{
  ℕ, zero, suc, Option, none, some, List, Result, ok, err, revision_conflict,
}
use semantic_framework.Store.Status.{Status, pending, running, paused, stopping, stopped}
use semantic_framework.Store.Rows.{Task, SubTask, Db}
use semantic_framework.Store.Tx.{Tx}
use semantic_framework.Store.Tables.{get_task, get_sub_task}
use semantic_framework.Store.Task.{check_task_transition, write_task_status}
use semantic_framework.Store.SubTask.{check_sub_task_transition, write_sub_task_status}
use semantic_framework.Store.History.{Call, run}

-- Where a stop sends a row of this status; there is nothing to do for the others.
abbrev pub stop_target : Status → Option Status
stop_target pending = some stopped
stop_target running = some stopping
stop_target paused = some stopping
stop_target _ = none

-- The other writers' calls, by the number of attempts that are left: those before the check of an
-- attempt, those between its check and its UPDATE, and those between the UPDATE and the read-back.
pub record Others : Type 0 where
  pub before : ℕ → List Call
  pub between : ℕ → List Call
  pub reading : ℕ → List Call

module _ {A : Type 0} where
  abbrev pub settle : Result (A × Db) → Db → Result A × Db
  settle (ok (a, db')) db = (ok a, db')
  settle (err e) db = (err e, db)

  -- An UPDATE that fails leaves the database it found; after one that succeeds others may write, and
  -- then the row is read.
  abbrev pub read_back : Result (Unit {0} × Db) → List Call → Tx A → Db → Result A × Db
  read_back (ok (u, db')) others read live = let seen = run others db' in settle (read seen) seen
  read_back (err e) others read live = (err e, live)

  abbrev pub when_checked : Result (Unit {0} × Db) → Result A × Db → Db → Result A × Db
  when_checked (ok u) written seen = written
  when_checked (err e) written seen = (err e, seen)

  abbrev pub reread : Result (A × Db) → (A → Db → Result A × Db) → Db → Result A × Db
  reread (ok (a, db')) again db = again a db'
  reread (err e) again db = (err e, db)

  -- `if !errors.Is(err, ErrRevisionConflict) { return err }`, and the row is read again.
  abbrev pub retry : Result A × Db → Tx A → (A → Db → Result A × Db) → Result A × Db
  retry (ok a, db) read again = (ok a, db)
  retry (err revision_conflict, db) read again = reread (read db) again db
  retry (err e, db) read again = (err e, db)

-- One `TransitionTask`, with the other writers around each of its statements.
unfoldable pub attempt_task : Others → ℕ → Task → Status → ℕ → Db → Result Task × Db
attempt_task o n task to now db =
    let seen = run (o.before n) db in
    let live = run (o.between n) seen in
    when_checked (check_task_transition task.id task.revision to seen)
      (read_back (write_task_status task.id task.revision to "user_stopped" "" "" now live)
        (o.reading n) (get_task task.id) live)
      seen

unfoldable pub move_task_toward_stop : Others → ℕ → Task → ℕ → Db → Result Task × Db
unfolding attempt_task
move_task_toward_stop o zero task now db = (err revision_conflict, db)
move_task_toward_stop o (suc n) task now db = elim (stop_target task.status) [
  | none ↦ (ok task, db)
  | some to ↦
      retry (attempt_task o n task to now db) (get_task task.id)
        (λ current db'. move_task_toward_stop o n current now db')
]

unfoldable pub attempt_sub_task : Others → ℕ → SubTask → Status → ℕ → Db → Result SubTask × Db
attempt_sub_task o n sub_task to now db =
    let seen = run (o.before n) db in
    let live = run (o.between n) seen in
    when_checked (check_sub_task_transition sub_task.id sub_task.revision to seen)
      (read_back (write_sub_task_status sub_task.id sub_task.revision to "task_stopped" "" now live)
        (o.reading n) (get_sub_task sub_task.id) live)
      seen

unfoldable pub move_sub_task_toward_stop : Others → ℕ → SubTask → ℕ → Db → Result SubTask × Db
unfolding attempt_sub_task
move_sub_task_toward_stop o zero sub_task now db = (err revision_conflict, db)
move_sub_task_toward_stop o (suc n) sub_task now db = elim (stop_target sub_task.status) [
  | none ↦ (ok sub_task, db)
  | some to ↦
      retry (attempt_sub_task o n sub_task to now db) (get_sub_task sub_task.id)
        (λ current db'. move_sub_task_toward_stop o n current now db')
]
