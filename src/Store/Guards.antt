-- ===== src/Store/Guards.antt =====
-- What has to hold before a plan of subtasks is written (`SetTaskSubTasks`) or replaced after a failed
-- robot step (`ApplyFailedRobotRecovery`).
use semantic_framework.Prelude.{
  ℕ, String, ◌≡◌, false, not, ◌&&◌, some, select, eq_iff, List, ◌==◌, eqb, arith, ok, invalid_state,
  no_rows, revision_conflict, and-eq-true, and_four-eq-true, not-eq-true,
}
use semantic_framework.Prelude.Table.{find}
use semantic_framework.Store.Status.{pending, paused, eq_status, eq_status→≡}
use semantic_framework.Store.Rows.{Task, SubTask, SubTaskDraft, RobotExecution, Db}
use semantic_framework.Store.Tx.{Returns, Returns-lift, Returns-expect, Returns-require}
use semantic_framework.Store.Tables.{find_task, find_sub_task}
use semantic_framework.Store.Task.{has_sub_tasks}
use semantic_framework.Store.Draft.{validate_sub_task_drafts}
use semantic_framework.Store.SubTask.{set_task_sub_tasks}
use semantic_framework.Store.Recovery.{failed_robot_step, execution_of, apply_failed_robot_recovery}

module _ (new_sub_task_id fresh : ℕ → String) where
  -- A valid plan, and a pending task at the expected revision that has no subtasks.
  pub record Plannable (id : String) (expected : ℕ) (items : List SubTaskDraft) (db : Db)
      : Type 0 where
    pub plan : List SubTaskDraft
    pub valid : validate_sub_task_drafts new_sub_task_id items ≡ ok plan
    pub task : Task
    pub found : find_task id db ≡ some task
    pub same : task.revision ≡ expected
    pub is_pending : task.status ≡ pending
    pub unplanned : has_sub_tasks id db ≡ false

  set_task_sub_tasks-returns :
      (id : String) (expected : ℕ) (items : List SubTaskDraft) (now : ℕ) (db : Db)
      → Returns
          (set_task_sub_tasks new_sub_task_id fresh id expected items now)
          db
          (λ _ _. Plannable id expected items db)
  unfolding set_task_sub_tasks
  set_task_sub_tasks-returns id expected items now db =
      Returns-lift db _ (validate_sub_task_drafts new_sub_task_id items) _ λ plan valid.
        Returns-expect db _ (find_task id db) no_rows _ λ task found.
          Returns-require db _ (eqb task.revision expected && eq_status task.status pending)
            revision_conflict _
            λ fits.
              Returns-require db _ (not (has_sub_tasks id db)) invalid_state _ λ unplanned r db' h.
                let (same, waits) =
                  and-eq-true (eqb task.revision expected) (eq_status task.status pending) fits in
                record {
                  plan = plan;
                  valid = valid;
                  task = task;
                  found = found;
                  same = ground arith;
                  is_pending = eq_status→≡ task.status pending waits;
                  unplanned = not-eq-true (has_sub_tasks id db) unplanned;
                }

  -- A paused task at the expected revision with a paused robot step of its own, whose execution is
  -- known to have failed.
  pub record Recoverable (id : String) (expected : ℕ) (step_id : String) (db : Db) : Type 0 where
    pub task : Task
    pub found : find_task id db ≡ some task
    pub same : task.revision ≡ expected
    pub is_paused : task.status ≡ paused
    pub step : SubTask
    pub has_step : find_sub_task step_id db ≡ some step
    pub of_task : step.task_id ≡ id
    pub step_paused : step.status ≡ paused
    pub robot_step : step.kind ≡ "robot_skill"
    pub is_named : (step.execution_ref == "") ≡ false
    pub execution : RobotExecution
    pub has_execution :
        find
          (λ e. e.id)
          step.execution_ref
          (select (λ e. e.sub_task_id == step.id) db.robot_executions)
        ≡ some execution
    pub has_failed : execution.status ≡ "failed"

  recovery-returns :
      (id : String) (expected : ℕ) (step_id : String) (items : List SubTaskDraft) (now : ℕ)
      (db : Db)
      → Returns
          (apply_failed_robot_recovery new_sub_task_id fresh id expected step_id items now)
          db
          (λ _ _. Recoverable id expected step_id db)
  unfolding apply_failed_robot_recovery
  recovery-returns id expected step_id items now db =
      Returns-lift db _ (validate_sub_task_drafts new_sub_task_id items) _ λ plan valid.
        Returns-expect db _ (find_task id db) no_rows _ λ task found.
          Returns-require db _ (eqb task.revision expected && eq_status task.status paused)
            revision_conflict _
            λ fits. Returns-expect db _ (find_sub_task step_id db) no_rows _ λ step has_step.
              Returns-require db _ (failed_robot_step id step) invalid_state _ λ robot_step.
                Returns-expect db _ (execution_of step db) no_rows _ λ execution has_execution.
                  Returns-require db _ (execution.status == "failed") invalid_state _
                    λ has_failed r db' h.
                      let (same, waits) =
                        and-eq-true (eqb task.revision expected) (eq_status task.status paused)
                          fits in
                      let own =
                        and_four-eq-true (step.task_id == id) (eq_status step.status paused)
                          (step.kind == "robot_skill") (not (step.execution_ref == ""))
                          robot_step in
                      record {
                        task = task;
                        found = found;
                        same = ground arith;
                        is_paused = eq_status→≡ task.status paused waits;
                        step = step;
                        has_step = has_step;
                        of_task = (eq_iff step.task_id id).0 own.0;
                        step_paused = eq_status→≡ step.status paused own.1;
                        robot_step = (eq_iff step.kind "robot_skill").0 own.2;
                        is_named = not-eq-true (step.execution_ref == "") own.3;
                        execution = execution;
                        has_execution = has_execution;
                        has_failed = (eq_iff execution.status "failed").0 has_failed;
                      }

  -- A plan of subtasks is written only once and only for a pending task: when `SetTaskSubTasks`
  -- returns, then the plan was valid and the task was pending at the expected revision and had no
  -- subtask.
  pub set_task_sub_tasks-Plannable :
      (id : String) (expected : ℕ) (items : List SubTaskDraft) (now : ℕ) (db : Db)
      (r : Task × List SubTask) (db' : Db)
      → set_task_sub_tasks new_sub_task_id fresh id expected items now db ≡ ok (r, db')
      → Plannable id expected items db
  set_task_sub_tasks-Plannable id expected items now db r db' h =
      set_task_sub_tasks-returns id expected items now db r db' h

  -- No step is replaced while the robot may still be acting on it: when `ApplyFailedRobotRecovery`
  -- returns, then the task was paused at the expected revision, the step was a paused robot skill of
  -- this task with an execution, and that execution had failed.
  pub apply_failed_robot_recovery-Recoverable :
      (id : String) (expected : ℕ) (step_id : String) (items : List SubTaskDraft) (now : ℕ)
      (db : Db) (r : Task × List SubTask) (db' : Db)
      → apply_failed_robot_recovery new_sub_task_id fresh id expected step_id items now db
        ≡ ok (r, db')
      → Recoverable id expected step_id db
  apply_failed_robot_recovery-Recoverable id expected step_id items now db r db' h =
      recovery-returns id expected step_id items now db r db' h
