-- ===== src/Store/WaitSteps.antt =====
-- `UpdatePausedRobotWaitReason` of internal/store/workflow.go and the development of rows.

use semantic_framework.Prelude.{
  ℕ, ◌+◌, String, ◌≡◌, refl, Bool, true, ◌&&◌, ◌==◌, eqb, trim_space, invalid_state,
  revision_conflict, not_found,
}
use semantic_framework.Store.Status.{paused, eq_status}
use semantic_framework.Store.Rows.{Task, SubTask, Db}
use semantic_framework.Store.Tx.{Tx, ◌>>=◌, ◌>>◌, return, require, Returns-expect, Returns-require}
use semantic_framework.Store.Moves.{stay}
use semantic_framework.Store.Tables.{
  find_task, find_sub_task, get_task, get_sub_task, update_task, update_sub_task,
}
use semantic_framework.Store.Task.{
  task_at_revision, sub_task_at_revision, wait_task, wait_sub_task, both_wait, write_wait_reasons,
  names_given, update_paused_robot_wait_reason,
}
use semantic_framework.Store.Evolution.{
  TaskLater, SubTaskLater, Keeps, task_step, sub_task_step, Keeps-return, Keeps-bind,
  Keeps-update_task, Keeps-update_sub_task,
}
use semantic_framework.Store.TaskSteps.{open_when, paused_of}

paused_task_step :
    (a c : Bool) (t u : Task)
    → (a && eq_status t.status paused && c) ≡ true
    → u.id ≡ t.id
    → u.revision ≡ t.revision + 1
    → u.status ≡ t.status
    → TaskLater t u
paused_task_step a c t u h key next same =
    task_step t u key next (rw same stay)
      (open_when t.status paused (paused_of a c t.status h) refl)

paused_sub_task_step :
    (a c : Bool) (t u : SubTask)
    → (a && eq_status t.status paused && c) ≡ true
    → u.id ≡ t.id
    → u.revision ≡ t.revision + 1
    → u.status ≡ t.status
    → SubTaskLater t u
paused_sub_task_step a c t u h key next same =
    sub_task_step t u key next (rw same stay)
      (open_when t.status paused (paused_of a c t.status h) refl)

task_at_revision-Keeps :
    (db : Db) (id : String) (expected : ℕ) → Keeps (task_at_revision id expected) db
task_at_revision-Keeps db id expected =
    Returns-expect db _ (find_task id db) revision_conflict _ λ t found.
      Returns-require db _ (eqb t.revision expected) revision_conflict (return t)
        λ _. Keeps-return db t

sub_task_at_revision-Keeps :
    (db : Db) (task_id id : String) (expected : ℕ)
    → Keeps (sub_task_at_revision task_id id expected) db
sub_task_at_revision-Keeps db task_id id expected =
    Returns-expect db _ (find_sub_task id db) revision_conflict _ λ s found.
      Returns-require db _ (s.task_id == task_id && eqb s.revision expected) revision_conflict
        (return s) λ _. Keeps-return db s

read_both : String → String → Tx (Task × SubTask)
read_both task_id sub_id = do task ← get_task task_id; sub ← get_sub_task sub_id; return (task, sub)

read_both-Keeps : (db : Db) (task_id sub_id : String) → Keeps (read_both task_id sub_id) db
unfolding read_both
read_both-Keeps db task_id sub_id =
    Returns-expect db _ (find_task task_id db) not_found _
      λ t _. Returns-expect db _ (find_sub_task sub_id db) not_found _ λ s _. Keeps-return db (t, s)

write_wait_reasons-Keeps :
    (db : Db) (task_id : String) (rev : ℕ) (sub_id : String) (sub_rev : ℕ) (from to : String)
    (now : ℕ)
    → Keeps (write_wait_reasons task_id rev sub_id sub_rev from to now) db
unfolding write_wait_reasons read_both
write_wait_reasons-Keeps db task_id rev sub_id sub_rev from to now =
    Keeps-bind db (update_task task_id test (wait_task to now))
      (λ _. step >> read_both task_id sub_id)
      (Keeps-update_task db task_id test (wait_task to now) λ t found h.
        paused_task_step (eqb t.revision rev) (t.waiting_reason == from) t (wait_task to now t) h
          refl refl refl)
      λ _ db'.
        Keeps-bind db' step (λ _. read_both task_id sub_id)
          (Keeps-update_sub_task db' revision_conflict sub_id sub_test (wait_sub_task to now)
            λ s found h.
              paused_sub_task_step (eqb s.revision sub_rev) (s.waiting_reason == from) s
                (wait_sub_task to now s) h refl refl refl)
          λ _ db''. read_both-Keeps db'' task_id sub_id
  where
    test : Task → Bool
    test t = eqb t.revision rev && eq_status t.status paused && t.waiting_reason == from

    sub_test : SubTask → Bool
    sub_test s = eqb s.revision sub_rev && eq_status s.status paused && s.waiting_reason == from

    step : Tx (Unit {0})
    step = update_sub_task revision_conflict sub_id sub_test (wait_sub_task to now)

pub update_paused_robot_wait_reason-Keeps :
    (db : Db) (task_id : String) (rev : ℕ) (sub_id : String) (sub_rev : ℕ) (from to : String)
    (now : ℕ)
    → Keeps (update_paused_robot_wait_reason task_id rev sub_id sub_rev from to now) db
unfolding update_paused_robot_wait_reason
update_paused_robot_wait_reason-Keeps db task_id rev sub_id sub_rev from to now =
    Returns-require db _ (names_given task_id sub_id from' to') invalid_state
      (task_at_revision task_id rev >>= with_task)
      λ _.
        Keeps-bind db (task_at_revision task_id rev) with_task
          (task_at_revision-Keeps db task_id rev)
          λ task db'.
            Keeps-bind db' (sub_task_at_revision task_id sub_id sub_rev) (with_both task)
              (sub_task_at_revision-Keeps db' task_id sub_id sub_rev)
              λ sub db''.
                Returns-require db'' _ (both_wait task sub from') invalid_state write
                  λ _. write_wait_reasons-Keeps db'' task_id rev sub_id sub_rev from' to' now
  where
    from' : String
    from' = trim_space from

    to' : String
    to' = trim_space to

    write : Tx (Task × SubTask)
    write = write_wait_reasons task_id rev sub_id sub_rev from' to' now

    with_both : Task → SubTask → Tx (Task × SubTask)
    with_both task sub = require (both_wait task sub from') invalid_state >> write

    with_task : Task → Tx (Task × SubTask)
    with_task task = sub_task_at_revision task_id sub_id sub_rev >>= with_both task
