-- ===== src/Store/Recovery.antt =====
-- `ApplyFailedRobotRecovery` of internal/store/workflow.go.
use semantic_framework.Prelude.{
  ℕ, ◌+◌, String, Bool, not, ◌&&◌, Option, some, List, [], ◌∷◌, ◌==◌, eqb, leb, select,
  invalid_state, revision_conflict, no_rows, if◌then◌else◌,
}
use semantic_framework.Prelude.Table.{find, update, update_all}
use semantic_framework.Store.Status.{pending, running, paused, failed, stopped, eq_status}
use semantic_framework.Store.Rows.{Task, SubTask, SubTaskDraft, RobotExecution, Db}
use semantic_framework.Store.Tx.{Tx, ◌>>=◌, ◌>>◌, gets, expect, require, modify, lift}
use semantic_framework.Store.Tables.{
  find_task, find_sub_task, sub_task_key, update_task, list_sub_tasks,
}
use semantic_framework.Store.Draft.{validate_sub_task_drafts}
use semantic_framework.Store.SubTask.{allocate_sub_task_ids, insert_plan, task_and_sub_tasks}

-- `SELECT COALESCE(MAX(position),-1)+1 FROM subtasks WHERE task_id=?`
unfoldable pub next_position : String → List SubTask → ℕ
next_position task_id [] = 0
next_position task_id (s ∷ ss) =
    let rest = next_position task_id ss in
    if s.task_id == task_id then (if leb rest s.position then s.position + 1 else rest) else rest

abbrev pub execution_key : RobotExecution → String
execution_key e = e.id

-- The failed step of the plan; the number of affected rows is not looked at.
abbrev pub replaced : ℕ → SubTask → SubTask
replaced now s = record s {
  status = failed;
  waiting_reason = "replaced_after_failure";
  revision = s.revision + 1;
  updated_at = now;
  ended_at = some now;
}

abbrev pub with_failed : SubTask → ℕ → Db → Db
with_failed step now db = record db {
  sub_tasks =
      update sub_task_key step.id (λ s. eqb s.revision step.revision && eq_status s.status paused)
        (replaced now) db.sub_tasks;
}

unfoldable pub replace_failed : SubTask → ℕ → Tx (Unit {0})
replace_failed step now = modify (with_failed step now)

abbrev pub revised : ℕ → SubTask → SubTask
revised now s = record s {
  status = stopped;
  waiting_reason = "revised_after_failure";
  revision = s.revision + 1;
  updated_at = now;
  ended_at = some now;
}

abbrev pub with_stopped : String → ℕ → Db → Db
with_stopped task_id now db = record db {
  sub_tasks =
      update_all (λ s. s.task_id == task_id && eq_status s.status pending) (revised now)
        db.sub_tasks;
}

unfoldable pub stop_pending : String → ℕ → Tx (Unit {0})
stop_pending task_id now = modify (with_stopped task_id now)

abbrev pub resumed : ℕ → Task → Task
resumed now t = record t {
  status = running;
  waiting_reason = "";
  revision = t.revision + 1;
  updated_at = now;
}

module _ (fresh : ℕ → String) where
  -- The writes of `ApplyFailedRobotRecovery` and the reads after the commit.
  unfoldable pub write_recovery :
      String → ℕ → SubTask → List SubTaskDraft → ℕ → Tx (Task × List SubTask)
  unfolding allocate_sub_task_ids insert_plan list_sub_tasks next_position replace_failed
      stop_pending
  write_recovery task_id expected step plan now = do
    replace_failed step now
    stop_pending task_id now
    position ← gets (λ db. next_position task_id db.sub_tasks)
    ids ← gets (λ db. allocate_sub_task_ids fresh 0 plan db.sub_tasks)
    insert_plan task_id position ids plan now
    update_task task_id (λ t. eqb t.revision expected && eq_status t.status paused) (resumed now)
    task_and_sub_tasks task_id

-- A paused step of the task that was sent to a robot.
abbrev pub failed_robot_step : String → SubTask → Bool
failed_robot_step task_id s =
    s.task_id == task_id
    && eq_status s.status paused
    && s.kind == "robot_skill"
    && not (s.execution_ref == "")

-- `SELECT status FROM robot_executions WHERE id=? AND subtask_id=?`
abbrev pub execution_of : SubTask → Db → Option RobotExecution
execution_of s db =
    find execution_key s.execution_ref (select (λ e. e.sub_task_id == s.id) db.robot_executions)

module _ (new_sub_task_id fresh : ℕ → String) where
  unfoldable pub apply_failed_robot_recovery :
      String → ℕ → String → List SubTaskDraft → ℕ → Tx (Task × List SubTask)
  unfolding validate_sub_task_drafts write_recovery
  apply_failed_robot_recovery task_id expected failed_id replacements now = do
    plan ← lift (validate_sub_task_drafts new_sub_task_id replacements)
    found ← gets (find_task task_id)
    task ← expect found no_rows
    require (eqb task.revision expected && eq_status task.status paused) revision_conflict
    found_step ← gets (find_sub_task failed_id)
    step ← expect found_step no_rows
    require (failed_robot_step task_id step) invalid_state
    found_execution ← gets (execution_of step)
    execution ← expect found_execution no_rows
    require (execution.status == "failed") invalid_state
    write_recovery fresh task_id expected step plan now
