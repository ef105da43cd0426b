-- ===== src/Store/SubTask.antt =====
-- The methods of internal/store/workflow.go that write subtasks: transitions and the first plan of a
-- task, with the insert loop that a recovery uses as well. New ids are parameters, by the place in the plan
-- at which they are drawn.
use semantic_framework.Prelude.{
  ℕ, ◌+◌, String, not, ◌&&◌, ◌||◌, none, List, [], ◌∷◌, ◌==◌, eqb, any, trim_space, invalid_state,
  revision_conflict, no_rows, if◌then◌else◌,
}
use semantic_framework.Store.Status.{
  Status, pending, running, paused, eq_status, allowed_task_transitions,
}
use semantic_framework.Store.Rows.{Task, SubTask, SubTaskDraft}
use semantic_framework.Store.Tx.{Tx, ◌>>=◌, ◌>>◌, return, gets, expect, require, lift}
use semantic_framework.Store.Tables.{
  find_task, get_task, get_sub_task, update_task, update_sub_task, json_or, list_sub_tasks,
  insert_sub_task, insert_sub_task_dependency,
}
use semantic_framework.Store.Task.{ended_when, has_sub_tasks}
use semantic_framework.Store.Draft.{validate_sub_task_drafts}

-- The UPDATE of `TransitionSubTask`.
abbrev pub write_sub_task_status : String → ℕ → Status → String → String → ℕ → Tx (Unit {0})
write_sub_task_status id expected to reason result now =
    update_sub_task revision_conflict id (λ s. eqb s.revision expected)
      λ s. record s {
        status = to;
        waiting_reason = reason;
        result = json_or result "{}";
        revision = s.revision + 1;
        updated_at = now;
        ended_at = ended_when to now;
      }

-- The UPDATE and the GetSubTask after it, with no other writer between the two.
unfoldable pub write_sub_task_transition : String → ℕ → Status → String → String → ℕ → Tx SubTask
write_sub_task_transition id expected to reason result now = do
  write_sub_task_status id expected to reason result now
  get_sub_task id

unfoldable pub check_sub_task_transition : String → ℕ → Status → Tx (Unit {0})
check_sub_task_transition id expected to = do
  current ← get_sub_task id
  require (eqb current.revision expected) revision_conflict
  require (allowed_task_transitions current.status to) invalid_state

-- `TransitionSubTask` with no other writer between its statements.
unfoldable pub transition_sub_task : String → ℕ → Status → String → String → ℕ → Tx SubTask
transition_sub_task id expected to reason result now = do
  check_sub_task_transition id expected to
  write_sub_task_transition id expected to reason result now

unfoldable pub attach_sub_task_execution : String → ℕ → String → ℕ → Tx SubTask
attach_sub_task_execution id expected execution_id now =
    let execution = trim_space execution_id in
    do
      require (not (execution == "")) invalid_state
      update_sub_task revision_conflict id
          (λ s. eqb s.revision expected && eq_status s.status running && s.execution_ref == "")
          (λ s. record s { execution_ref = execution; revision = s.revision + 1; updated_at = now })
      get_sub_task id

unfoldable pub resume_paused_agent_step : String → ℕ → ℕ → Tx SubTask
resume_paused_agent_step id expected now = do
  update_sub_task invalid_state id
      (λ s.
        eqb s.revision expected
        && eq_status s.status paused
        && s.execution_ref == ""
        && (s.kind == "agent_step"
            || s.kind == "robot_skill" && s.waiting_reason == "server_restarted"))
      (λ s. record s {
        status = pending;
        waiting_reason = "";
        revision = s.revision + 1;
        updated_at = now;
      })
  get_sub_task id

-- A row as `INSERT INTO subtasks` makes it; the other columns have the defaults of the schema.
abbrev pub new_sub_task : String → String → ℕ → SubTaskDraft → ℕ → SubTask
new_sub_task id task_id position item now = record {
  id = id;
  task_id = task_id;
  position = position;
  kind = item.kind;
  goal = trim_space item.goal;
  spec = json_or item.spec "{}";
  completion_criteria = json_or item.completion_criteria "[]";
  evidence = "[]";
  execution_ref = "";
  status = pending;
  waiting_reason = "";
  result = "{}";
  revision = 1;
  created_at = now;
  updated_at = now;
  ended_at = none;
}

-- The map from the ids of the plan to the ids of the table; a missing key reads as "".
abbrev pub id_of : String → List (String × String) → String
id_of k [] = ""
id_of k ((j, v) ∷ m) = if j == k then v else id_of k m

module _ (fresh : ℕ → String) where
  -- `allocateSubTaskIDsTx`: an id that is taken is replaced by a new one.
  unfoldable pub allocate_sub_task_ids :
      ℕ → List SubTaskDraft → List SubTask → List (String × String)
  allocate_sub_task_ids i [] rows = []
  allocate_sub_task_ids i (item ∷ items) rows =
      let id = if any (λ s. s.id == item.id) rows then fresh i else item.id in
      (item.id, id) ∷ allocate_sub_task_ids (i + 1) items rows

unfoldable pub insert_dependencies :
    String → String → List (String × String) → List String → Tx (Unit {0})
unfolding insert_sub_task_dependency
insert_dependencies task_id id ids [] = return tt
insert_dependencies task_id id ids (dependency ∷ rest) = do
  insert_sub_task_dependency (record {
    task_id = task_id;
    sub_task_id = id;
    depends_on_sub_task_id = id_of dependency ids;
  })
  insert_dependencies task_id id ids rest

-- The insert loop of `SetTaskSubTasks` and of `ApplyFailedRobotRecovery`.
unfoldable pub insert_plan :
    String → ℕ → List (String × String) → List SubTaskDraft → ℕ → Tx (Unit {0})
unfolding insert_sub_task insert_dependencies
insert_plan task_id position ids [] now = return tt
insert_plan task_id position ids (item ∷ items) now = do
  insert_sub_task (new_sub_task (id_of item.id ids) task_id position item now)
  insert_dependencies task_id (id_of item.id ids) ids item.depends_on
  insert_plan task_id (position + 1) ids items now

abbrev pub task_and_sub_tasks : String → Tx (Task × List SubTask)
task_and_sub_tasks task_id = do
  updated ← get_task task_id
  subs ← gets (list_sub_tasks task_id)
  return (updated, subs)

abbrev pub planned : ℕ → Task → Task
planned now t = record t { revision = t.revision + 1; updated_at = now }

module _ (fresh : ℕ → String) where
  -- The writes of `SetTaskSubTasks` and the reads after the commit.
  unfoldable pub write_first_plan : String → ℕ → List SubTaskDraft → ℕ → Tx (Task × List SubTask)
  unfolding allocate_sub_task_ids insert_plan list_sub_tasks
  write_first_plan task_id expected plan now = do
    ids ← gets (λ db. allocate_sub_task_ids fresh 0 plan db.sub_tasks)
    insert_plan task_id 0 ids plan now
    update_task task_id (λ t. eqb t.revision expected && eq_status t.status pending) (planned now)
    task_and_sub_tasks task_id

module _ (new_sub_task_id fresh : ℕ → String) where
  unfoldable pub set_task_sub_tasks : String → ℕ → List SubTaskDraft → ℕ → Tx (Task × List SubTask)
  unfolding validate_sub_task_drafts write_first_plan
  set_task_sub_tasks task_id expected items now = do
    plan ← lift (validate_sub_task_drafts new_sub_task_id items)
    found ← gets (find_task task_id)
    task ← expect found no_rows
    require (eqb task.revision expected && eq_status task.status pending) revision_conflict
    started ← gets (has_sub_tasks task_id)
    require (not started) invalid_state
    write_first_plan fresh task_id expected plan now
