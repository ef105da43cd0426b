-- ===== src/Store/Task.antt =====
-- The methods of internal/store/workflow.go that write one task.
use semantic_framework.Prelude.{
  ℕ, ◌+◌, String, Bool, true, false, not, ◌&&◌, ◌||◌, Option, none, some, ◌==◌, eqb, any,
  trim_space, ok, err, invalid_state, revision_conflict, if◌then◌else◌,
}
use semantic_framework.Store.Status.{
  Status, pending, paused, eq_status, terminal_work_status, allowed_task_transitions,
}
use semantic_framework.Store.Rows.{Task, SubTask, Db}
use semantic_framework.Store.Tx.{Tx, ◌>>=◌, ◌>>◌, return, gets, expect, require, lift}
use semantic_framework.Store.Tables.{
  find_task, find_sub_task, get_task, get_sub_task, update_task, update_sub_task, json_or,
}
use semantic_framework.Store.Admission.{assignment_reservation, robot_reservation}

-- `var ended any; if terminalWorkStatus(to) { ended = now }`
abbrev pub ended_when : Status → ℕ → Option ℕ
ended_when to now = if terminal_work_status to then some now else none

-- The UPDATE of `TransitionTask`, which runs outside a transaction: other writers may come between
-- the checks on the row that was read and this.
abbrev pub write_task_status : String → ℕ → Status → String → String → String → ℕ → Tx (Unit {0})
write_task_status id expected to reason summary evidence now =
    update_task id (λ t. eqb t.revision expected)
      λ t. record t {
        status = to;
        waiting_reason = reason;
        result_summary = summary;
        evidence = json_or evidence "[]";
        revision = t.revision + 1;
        updated_at = now;
        ended_at = ended_when to now;
      }

-- The UPDATE and the GetTask after it, with no other writer between the two.
unfoldable pub write_task_transition : String → ℕ → Status → String → String → String → ℕ → Tx Task
write_task_transition id expected to reason summary evidence now = do
  write_task_status id expected to reason summary evidence now
  get_task id

unfoldable pub check_task_transition : String → ℕ → Status → Tx (Unit {0})
check_task_transition id expected to = do
  current ← get_task id
  require (eqb current.revision expected) revision_conflict
  require (allowed_task_transitions current.status to) invalid_state

-- `TransitionTask` with no other writer between its statements.
unfoldable pub transition_task : String → ℕ → Status → String → String → String → ℕ → Tx Task
transition_task id expected to reason summary evidence now = do
  check_task_transition id expected to
  write_task_transition id expected to reason summary evidence now

unfoldable pub set_pending_task_reason : String → ℕ → String → ℕ → Tx Task
set_pending_task_reason id expected reason now = do
  update_task id (λ t. eqb t.revision expected && eq_status t.status pending)
      (λ t. record t {
        waiting_reason = trim_space reason;
        revision = t.revision + 1;
        updated_at = now;
      })
  get_task id

-- `SELECT COUNT(*) FROM subtasks WHERE task_id=?` is not 0.
abbrev pub has_sub_tasks : String → Db → Bool
has_sub_tasks task_id db = any (λ s. s.task_id == task_id) db.sub_tasks

unfoldable pub resume_paused_task_planning : String → ℕ → ℕ → Tx Task
resume_paused_task_planning id expected now = do
  planned ← gets (has_sub_tasks id)
  require (not planned) invalid_state
  update_task id
      (λ t.
        eqb t.revision expected && eq_status t.status paused && t.waiting_reason == "waiting_input")
      (λ t. record t {
        status = pending;
        waiting_reason = "planning_subtasks";
        revision = t.revision + 1;
        updated_at = now;
      })
  get_task id

unfoldable pub is_robot_task_reserved : Db → String → String → Bool
unfolding robot_reservation
is_robot_task_reserved db robot_id exclude_task_id =
    let robot = trim_space robot_id in
    if robot == ""
    then false
    else elim (robot_reservation db robot (trim_space exclude_task_id) "") [
      | ok _ ↦ false
      | err _ ↦ true
    ]

abbrev pub assigned : String → String → ℕ → Task → Task
assigned agent robot now t = record t {
  assigned_agent_id = agent;
  assigned_robot_id = robot;
  assignment_revision = t.assignment_revision + 1;
  revision = t.revision + 1;
  waiting_reason = "";
  updated_at = now;
}

-- The transaction of `AssignTask`.
unfoldable pub assign_unassigned_task : String → ℕ → String → String → ℕ → Tx Task
unfolding assignment_reservation
assign_unassigned_task id expected agent robot now = do
  db ← gets (λ db. db)
  lift (assignment_reservation db robot id)
  update_task id
      (λ t. eqb t.revision expected && eq_status t.status pending && t.assigned_agent_id == "")
      (assigned agent robot now)
  get_task id

-- An assignment that is there already is repeated or refused.
abbrev pub keep_assignment : Task → String → String → Tx Task
keep_assignment current agent robot = do
  require (current.assigned_agent_id == agent && current.assigned_robot_id == robot) invalid_state
  return current

unfoldable pub assign_task : String → ℕ → String → String → ℕ → Tx Task
unfolding assign_unassigned_task
assign_task id expected agent_id robot_id now =
    let agent = trim_space agent_id in
    let robot = trim_space robot_id in
    do
      require (not (agent == "")) invalid_state
      current ← get_task id
      require (eqb current.revision expected && eq_status current.status pending) revision_conflict
      elim (current.assigned_agent_id == "") [
        | true ↦ assign_unassigned_task id expected agent robot now
        | false ↦ keep_assignment current agent robot
      ]

unfoldable pub reassign_pending_task : String → ℕ → String → String → ℕ → Tx Task
unfolding assignment_reservation
reassign_pending_task id expected agent_id robot_id now =
    let agent = trim_space agent_id in
    let robot = trim_space robot_id in
    do
      require (not (agent == "")) invalid_state
      current ← get_task id
      require (eq_status current.status pending && eqb current.revision expected) revision_conflict
      executed ← gets (λ db. any (λ e. e.task_id == id) db.robot_executions)
      require (not executed) invalid_state
      db ← gets (λ db. db)
      lift (assignment_reservation db robot id)
      update_task id (λ t. eqb t.revision expected && eq_status t.status pending)
          (assigned agent robot now)
      get_task id

-- `SELECT … WHERE id=? AND revision=?`, where a missing row is a conflict.
abbrev pub task_at_revision : String → ℕ → Tx Task
task_at_revision id expected = do
  found ← gets (find_task id)
  task ← expect found revision_conflict
  require (eqb task.revision expected) revision_conflict
  return task

abbrev pub sub_task_at_revision : String → String → ℕ → Tx SubTask
sub_task_at_revision task_id id expected = do
  found ← gets (find_sub_task id)
  sub_task ← expect found revision_conflict
  require (sub_task.task_id == task_id && eqb sub_task.revision expected) revision_conflict
  return sub_task

abbrev pub wait_task : String → ℕ → Task → Task
wait_task reason now t = record t {
  waiting_reason = reason;
  revision = t.revision + 1;
  updated_at = now;
}

abbrev pub wait_sub_task : String → ℕ → SubTask → SubTask
wait_sub_task reason now s = record s {
  waiting_reason = reason;
  revision = s.revision + 1;
  updated_at = now;
}

-- Both rows wait for the same reason and the step has an execution.
abbrev pub both_wait : Task → SubTask → String → Bool
both_wait t s reason =
    eq_status t.status paused
    && eq_status s.status paused
    && t.waiting_reason == reason
    && s.waiting_reason == reason
    && not (s.execution_ref == "")

-- The two statements of `UpdatePausedRobotWaitReason` and the reads after the commit.
unfoldable pub write_wait_reasons :
    String → ℕ → String → ℕ → String → String → ℕ → Tx (Task × SubTask)
write_wait_reasons task_id task_revision sub_task_id sub_task_revision from to now = do
  update_task task_id
      (λ t. eqb t.revision task_revision && eq_status t.status paused && t.waiting_reason == from)
      (wait_task to now)
  update_sub_task revision_conflict sub_task_id
      (λ s.
        eqb s.revision sub_task_revision && eq_status s.status paused && s.waiting_reason == from)
      (wait_sub_task to now)
  task ← get_task task_id
  sub_task ← get_sub_task sub_task_id
  return (task, sub_task)

abbrev pub names_given : String → String → String → String → Bool
names_given task_id sub_task_id from to =
    not (task_id == "" || sub_task_id == "" || from == "" || to == "")

unfoldable pub update_paused_robot_wait_reason :
    String → ℕ → String → ℕ → String → String → ℕ → Tx (Task × SubTask)
unfolding write_wait_reasons
update_paused_robot_wait_reason task_id task_revision sub_task_id sub_task_revision from to now =
    let from_reason = trim_space from in
    let to_reason = trim_space to in
    do
      require (names_given task_id sub_task_id from_reason to_reason) invalid_state
      task ← task_at_revision task_id task_revision
      sub_task ← sub_task_at_revision task_id sub_task_id sub_task_revision
      require (both_wait task sub_task from_reason) invalid_state
      write_wait_reasons task_id task_revision sub_task_id sub_task_revision from_reason to_reason
          now
