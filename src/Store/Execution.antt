-- ===== src/Store/Execution.antt =====
-- `AdmitRobotExecution` and `validateRobotTaskAdmission` of internal/store/robot_admission.go: the one
-- transaction that must succeed before a robot is told to move.
use Prim.Native.String as Text
use semantic_framework.Prelude.{
  ◌+◌, String, Bool, true, false, not, ◌&&◌, ◌||◌, Option, none, some, List, [], ◌∷◌, ◌++◌, ◌==◌,
  eqb, any, trim_space, invalid_state, not_found, robot_reserved, constraint, if◌then◌else◌,
}
use semantic_framework.Prelude.Table.{find, update}
use semantic_framework.Store.Status.{running, eq_status}
use semantic_framework.Store.Rows.{
  Workflow, Task, SubTask, RobotExecution, RunSession, RobotPilot, RobotRuntime, Db,
}
use semantic_framework.Store.Tx.{Tx, ◌>>=◌, ◌>>◌, return, gets, expect, require, modify, lift}
use semantic_framework.Store.Tables.{find_task, find_sub_task}
use semantic_framework.Store.Workflow.{find_workflow}
use semantic_framework.Store.Admission.{
  robot_reservation, robot_execution_reservation, pilot_is_free,
}

-- `skill_name` and `skill_version` of a subtask's specification.
pub record Skill : Type 0 where
  pub name : String
  pub version : String

-- `robot_ids` and `allowed_skills` of the approved scope; a list that is absent reads as empty.
pub record Scope : Type 0 where
  pub robot_ids : List String
  pub allowed_skills : List String

abbrev pub run_key : RunSession → String
run_key r = r.id

abbrev pub pilot_key : RobotPilot → String
pilot_key p = p.pilot_instance_id

unfoldable pub find_request : String → String → List RobotExecution → Option RobotExecution
find_request project_id request_key [] = none
find_request project_id request_key (e ∷ es) =
    if e.project_id == project_id && e.request_key == request_key
    then some e
    else find_request project_id request_key es

-- A list that names nothing allows everything.
abbrev pub is_allowed : List String → String → Bool
is_allowed [] value = true
is_allowed (v ∷ vs) value = any (λ w. trim_space w == trim_space value) (v ∷ vs)

-- The conditions on each row, as `validateRobotTaskAdmission` tests them.
abbrev pub workflow_admits : RobotExecution → Workflow → Bool
workflow_admits item w =
    w.project_id == item.project_id
    && eq_status w.status running
    && eqb w.confirmed_revision w.revision

abbrev pub task_admits : RobotExecution → Workflow → Task → Bool
task_admits item w t =
    t.workflow_id == w.id
    && t.assigned_robot_id == item.robot_id
    && t.required_role == "robot"
    && eq_status t.status running

abbrev pub sub_task_admits : Task → SubTask → Bool
sub_task_admits t s = s.task_id == t.id && eq_status s.status running && s.kind == "robot_skill"

abbrev pub skill_admits : RobotExecution → Skill → Bool
skill_admits item skill =
    trim_space skill.name == trim_space item.skill_name
    && (trim_space skill.version == "" || trim_space skill.version == trim_space item.skill_version)

abbrev pub scope_admits : RobotExecution → Scope → Bool
scope_admits item scope =
    is_allowed scope.robot_ids item.robot_id && is_allowed scope.allowed_skills item.skill_name

abbrev pub direct_run_admits : RobotExecution → String → RunSession → Bool
direct_run_admits item agent_id run =
    item.workflow_id == ""
    && item.sub_task_id == ""
    && run.project_id == item.project_id
    && run.kind == "conversation"
    && run.task_id == ""
    && run.workflow_id == ""
    && run.status == "running"
    && run.agent_id == agent_id
    && (run.robot_id == "" || run.robot_id == item.robot_id)

abbrev pub is_direct : RobotExecution → Bool
is_direct item = item.task_id == "" && not (item.run_id == "")

-- The project of the robot's newest runtime, empty if there is none.
unfoldable pub runtime_project : String → List RobotRuntime → String
runtime_project robot_id [] = ""
runtime_project robot_id (r ∷ rs) =
    if r.robot_id == robot_id then r.project_id else runtime_project robot_id rs

abbrev pub bind_run_robot : RobotExecution → List RunSession → List RunSession
bind_run_robot item runs =
    update run_key item.run_id (λ r. r.robot_id == "")
      (λ r. record r {
        robot_id = item.robot_id;
        revision = r.revision + 1;
        updated_at = item.created_at;
      })
      runs

-- The primary key and UNIQUE(project_id, request_key).
abbrev pub execution_clash : RobotExecution → List RobotExecution → Bool
execution_clash item rows =
    any
      (λ e. e.id == item.id || e.project_id == item.project_id && e.request_key == item.request_key)
      rows

-- `read_skill` and `read_scope` are what `encoding/json` reads from a specification and from a scope.
module _ (read_skill : String → Option Skill) (read_scope : String → Option Scope) where
  abbrev pub approved_scope_of : Workflow → Option Scope
  approved_scope_of w =
      if w.approved_scope == ""
      then some record { robot_ids = []; allowed_skills = [] }
      else read_scope w.approved_scope

  unfoldable pub validate_robot_task_admission : RobotExecution → Tx (Unit {0})
  validate_robot_task_admission item = do
    db ← gets (λ db. db)
    w ← expect (find_workflow item.workflow_id db) invalid_state
    require (workflow_admits item w) invalid_state
    task ← expect (find_task item.task_id db) invalid_state
    require (task_admits item w task) invalid_state
    sub_task ← expect (find_sub_task item.sub_task_id db) invalid_state
    require (sub_task_admits task sub_task) invalid_state
    skill ← expect (read_skill sub_task.spec) invalid_state
    require (skill_admits item skill) invalid_state
    scope ← expect (approved_scope_of w) invalid_state
    require (scope_admits item scope) invalid_state

  -- The run that asks for a direct action; its own reservation does not stand in its way.
  unfoldable pub check_direct_run : RobotExecution → String → Tx String
  check_direct_run item agent_id = do
    db ← gets (λ db. db)
    run ← expect (find run_key item.run_id db.run_sessions) invalid_state
    require (direct_run_admits item agent_id run && agent_id == Text.◌++◌ "robot:" item.robot_id)
        invalid_state
    return run.id

  abbrev pub excluded_run : Bool → RobotExecution → String → Tx String
  excluded_run true item agent_id = check_direct_run item agent_id
  excluded_run false item agent_id = return ""

  abbrev pub check_task : Bool → RobotExecution → Tx (Unit {0})
  check_task true item = return tt
  check_task false item = validate_robot_task_admission item

  abbrev pub project_fits : RobotExecution → Db → Bool
  project_fits item db =
      let project = runtime_project item.robot_id db.robot_runtimes in
      project == "" || project == item.project_id

  -- The robot, its pilot and its runtime.
  unfoldable pub check_robot : RobotExecution → String → Tx (Unit {0})
  check_robot item excluded = do
    db ← gets (λ db. db)
    lift (robot_reservation db item.robot_id item.task_id excluded)
    lift (robot_execution_reservation db item.robot_id "")
    pilot ← expect (find pilot_key item.pilot_instance_id db.robot_pilots) not_found
    require (pilot_is_free (some pilot)) robot_reserved
    require (project_fits item db) invalid_state

  -- The checks of the transaction that come before its writes.
  unfoldable pub check_admission : RobotExecution → String → Tx (Unit {0})
  unfolding check_robot
  check_admission item agent_id = do
    excluded ← excluded_run (is_direct item) item agent_id
    check_task (item.task_id == "") item
    check_robot item excluded

  unfoldable pub insert_execution : RobotExecution → Tx (Unit {0})
  insert_execution item = do
    modify (λ db.
        if is_direct item
        then record db { run_sessions = bind_run_robot item db.run_sessions }
        else db)
    clash ← gets (λ db. execution_clash item db.robot_executions)
    require (not clash) constraint
    modify (λ db. record db { robot_executions = db.robot_executions ++ item ∷ [] })

  abbrev pub admit_new :
      Option RobotExecution → RobotExecution → String → Tx (RobotExecution × Bool)
  admit_new (some existing) item agent_id = return (existing, false)
  admit_new none item agent_id = do
    check_admission item agent_id
    insert_execution item
    return (item, true)

  unfoldable pub admit_robot_execution : RobotExecution → String → Tx (RobotExecution × Bool)
  unfolding check_admission insert_execution
  admit_robot_execution item agent_id db =
      admit_new (find_request item.project_id item.request_key db.robot_executions) item agent_id db
