-- ===== src/Store/PlanSteps.antt =====
-- `SetTaskSubTasks` and `ApplyFailedRobotRecovery` of internal/store/workflow.go and the development
-- of rows.
use semantic_framework.Prelude.{
  ℕ, ◌+◌, String, ◌≡◌, refl, Bool, true, not, ◌&&◌, List, [], ◌∷◌, ◌==◌, arith, eqb, invalid_state,
  revision_conflict, not_found, no_rows, ok,
}
use semantic_framework.Store.Status.{Status, pending, running, paused, failed, stopped, eq_status}
use semantic_framework.Store.Rows.{Task, SubTask, SubTaskDraft, Db}
use semantic_framework.Store.Tx.{Tx, ◌>>◌, expect, Returns-expect, Returns-require, Returns-lift}
use semantic_framework.Store.Moves.{stay, Moves-one, allowed, update-Evolves, update_all-Evolves}
use semantic_framework.Store.Tables.{
  sub_task_key, find_task, find_sub_task, update_task, insert_sub_task, insert_sub_task_dependency,
  list_sub_tasks,
}
use semantic_framework.Store.Draft.{validate_sub_task_drafts}
use semantic_framework.Store.Task.{has_sub_tasks}
use semantic_framework.Store.SubTask.{
  id_of, allocate_sub_task_ids, insert_dependencies, insert_plan, task_and_sub_tasks, planned,
  write_first_plan, set_task_sub_tasks,
}
use semantic_framework.Store.Recovery.{
  next_position, replaced, replace_failed, revised, stop_pending, with_failed, with_stopped,
  resumed, write_recovery, failed_robot_step, execution_of, apply_failed_robot_recovery,
}
use semantic_framework.Store.Evolution.{
  sub_task_revision, sub_task_status, TaskLater, DbEvolves-refl, Keeps, task_step, sub_task_step,
  Keeps-return, Keeps-bind, Keeps-modify, Keeps-update_task, Keeps-insert_sub_task,
  Keeps-insert_sub_task_dependency,
}
use semantic_framework.Store.TaskSteps.{Keeps-get_task}

insert_dependencies-Keeps :
    (deps : List String) (task_id id : String) (ids : List (String × String)) (db : Db)
    → Keeps (insert_dependencies task_id id ids deps) db
unfolding insert_dependencies
insert_dependencies-Keeps [] task_id id ids db = Keeps-return db tt
insert_dependencies-Keeps (dep ∷ deps) task_id id ids db =
    Keeps-bind db (insert_sub_task_dependency _) (λ _. insert_dependencies task_id id ids deps)
      (Keeps-insert_sub_task_dependency db _)
      (λ _ db'. insert_dependencies-Keeps deps task_id id ids db')

insert_plan-Keeps :
    (plan : List SubTaskDraft) (task_id : String) (position : ℕ) (ids : List (String × String))
    (now : ℕ) (db : Db)
    → Keeps (insert_plan task_id position ids plan now) db
unfolding insert_plan
insert_plan-Keeps [] task_id position ids now db = Keeps-return db tt
insert_plan-Keeps (item ∷ plan) task_id position ids now db =
    Keeps-bind db (insert_sub_task _)
      (λ _.
        insert_dependencies task_id (id_of item.id ids) ids item.depends_on
        >> insert_plan task_id (position + 1) ids plan now)
      (Keeps-insert_sub_task db _)
      λ _ db'.
        Keeps-bind db' (insert_dependencies task_id (id_of item.id ids) ids item.depends_on)
          (λ _. insert_plan task_id (position + 1) ids plan now)
          (insert_dependencies-Keeps item.depends_on task_id (id_of item.id ids) ids db')
          (λ _ db''. insert_plan-Keeps plan task_id (position + 1) ids now db'')

task_and_sub_tasks-Keeps : (task_id : String) (db : Db) → Keeps (task_and_sub_tasks task_id) db
task_and_sub_tasks-Keeps task_id db =
    Keeps-bind db (λ db. expect (find_task task_id db) not_found db)
      (λ t db. ok ((t, list_sub_tasks task_id db), db)) (Keeps-get_task task_id db)
      (λ t db'. Keeps-return db' (t, list_sub_tasks task_id db'))

-- The insert of a plan, an update of the task, and the reads after them.
plan_and_update-Keeps :
    (plan : List SubTaskDraft) (task_id : String) (position : ℕ) (ids : List (String × String))
    (now : ℕ) (test : Task → Bool) (change : Task → Task) (db : Db)
    → ((t : Task) → test t ≡ true → TaskLater t (change t))
    → Keeps
        (insert_plan task_id position ids plan now
          >> (update_task task_id test change >> task_and_sub_tasks task_id))
        db
plan_and_update-Keeps plan task_id position ids now test change db step =
    Keeps-bind db (insert_plan task_id position ids plan now)
      (λ _. update_task task_id test change >> task_and_sub_tasks task_id)
      (insert_plan-Keeps plan task_id position ids now db)
      λ _ db'.
        Keeps-bind db' (update_task task_id test change) (λ _. task_and_sub_tasks task_id)
          (Keeps-update_task db' task_id test change (λ t _ h. step t h))
          (λ _ db''. task_and_sub_tasks-Keeps task_id db'')

status_of_test : (a : Bool) (s t : Status) → (a && eq_status s t) ≡ true → s ≡ t
status_of_test a s t h = ground arith

planned_step :
    (expected now : ℕ) (t : Task)
    → (eqb t.revision expected && eq_status t.status pending) ≡ true
    → TaskLater t (planned now t)
planned_step expected now t h =
    task_step t (planned now t) refl refl stay
      (rw (status_of_test (eqb t.revision expected) t.status pending h))

resumed_step :
    (expected now : ℕ) (t : Task)
    → (eqb t.revision expected && eq_status t.status paused) ≡ true
    → TaskLater t (resumed now t)
resumed_step expected now t h =
    let e : t.status ≡ paused = status_of_test (eqb t.revision expected) t.status paused h in
    task_step t (resumed now t) refl refl (Moves-one (allowed t.status running (rw e))) (rw e)

write_first_plan-Keeps :
    (fresh : ℕ → String) (task_id : String) (expected : ℕ) (plan : List SubTaskDraft) (now : ℕ)
    (db : Db)
    → Keeps (write_first_plan fresh task_id expected plan now) db
unfolding write_first_plan
write_first_plan-Keeps fresh task_id expected plan now db =
    plan_and_update-Keeps plan task_id 0 (allocate_sub_task_ids fresh 0 plan db.sub_tasks) now _
      (planned now) db (planned_step expected now)

pub set_task_sub_tasks-Keeps :
    (new_sub_task_id fresh : ℕ → String) (db : Db) (task_id : String) (expected : ℕ)
    (items : List SubTaskDraft) (now : ℕ)
    → Keeps (set_task_sub_tasks new_sub_task_id fresh task_id expected items now) db
unfolding set_task_sub_tasks
set_task_sub_tasks-Keeps new_sub_task_id fresh db task_id expected items now =
    Returns-lift db _ (validate_sub_task_drafts new_sub_task_id items) _ λ plan _.
      Returns-expect db _ (find_task task_id db) no_rows _ λ t found.
        Returns-require db _ (eqb t.revision expected && eq_status t.status pending)
          revision_conflict _
          λ _.
            Returns-require db _ (not (has_sub_tasks task_id db)) invalid_state _
              λ _. write_first_plan-Keeps fresh task_id expected plan now db

replace_failed-Keeps : (step : SubTask) (now : ℕ) (db : Db) → Keeps (replace_failed step now) db
unfolding replace_failed
replace_failed-Keeps step now db = Keeps-modify db (with_failed step now) (record {
  tasks = (DbEvolves-refl db).tasks;
  sub_tasks =
      update-Evolves sub_task_key sub_task_revision sub_task_status step.id _ (replaced now)
        db.sub_tasks
        λ s found h.
          let e : s.status ≡ paused =
            status_of_test (eqb s.revision step.revision) s.status paused h in
          sub_task_step s (replaced now s) refl refl (Moves-one (allowed s.status failed (rw e)))
            (rw e);
})

stop_pending-Keeps : (task_id : String) (now : ℕ) (db : Db) → Keeps (stop_pending task_id now) db
unfolding stop_pending
stop_pending-Keeps task_id now db = Keeps-modify db (with_stopped task_id now) (record {
  tasks = (DbEvolves-refl db).tasks;
  sub_tasks =
      update_all-Evolves sub_task_key sub_task_revision sub_task_status _ (revised now) db.sub_tasks
        λ s h.
          let e : s.status ≡ pending = status_of_test (s.task_id == task_id) s.status pending h in
          sub_task_step s (revised now s) refl refl (Moves-one (allowed s.status stopped (rw e)))
            (rw e);
})

write_recovery-Keeps :
    (fresh : ℕ → String) (task_id : String) (expected : ℕ) (step : SubTask)
    (plan : List SubTaskDraft) (now : ℕ) (db : Db)
    → Keeps (write_recovery fresh task_id expected step plan now) db
unfolding write_recovery
write_recovery-Keeps fresh task_id expected step plan now db =
    Keeps-bind db (replace_failed step now) (λ _. stop_pending task_id now >> rest)
      (replace_failed-Keeps step now db)
      λ _ db'.
        Keeps-bind db' (stop_pending task_id now) (λ _. rest) (stop_pending-Keeps task_id now db')
          λ _ db''.
            plan_and_update-Keeps plan task_id (next_position task_id db''.sub_tasks)
              (allocate_sub_task_ids fresh 0 plan db''.sub_tasks) now _ (resumed now) db''
              (resumed_step expected now)
  where
    rest : Tx (Task × List SubTask)
    rest db =
        (insert_plan task_id (next_position task_id db.sub_tasks)
              (allocate_sub_task_ids fresh 0 plan db.sub_tasks) plan now
            >> (update_task task_id (λ t. eqb t.revision expected && eq_status t.status paused)
                  (resumed now)
                >> task_and_sub_tasks task_id))
          db

pub apply_failed_robot_recovery-Keeps :
    (new_sub_task_id fresh : ℕ → String) (db : Db) (task_id : String) (expected : ℕ)
    (failed_id : String) (items : List SubTaskDraft) (now : ℕ)
    → Keeps
        (apply_failed_robot_recovery new_sub_task_id fresh task_id expected failed_id items now)
        db
unfolding apply_failed_robot_recovery
apply_failed_robot_recovery-Keeps new_sub_task_id fresh db task_id expected failed_id items now =
    Returns-lift db _ (validate_sub_task_drafts new_sub_task_id items) _ λ plan _.
      Returns-expect db _ (find_task task_id db) no_rows _ λ t _.
        Returns-require db _ (eqb t.revision expected && eq_status t.status paused)
          revision_conflict _
          λ _. Returns-expect db _ (find_sub_task failed_id db) no_rows _ λ step _.
            Returns-require db _ (failed_robot_step task_id step) invalid_state _ λ _.
              Returns-expect db _ (execution_of step db) no_rows _ λ e _.
                Returns-require db _ (e.status == "failed") invalid_state _
                  λ _. write_recovery-Keeps fresh task_id expected step plan now db
