-- ===== src/Store/ExecutionSteps.antt =====
-- The checks of `AdmitRobotExecution` (internal/store/robot_admission.go) when they pass.
use Prim.Native.String as Text
use mathlib.Core.Path.{subst}
use semantic_framework.Prelude.{
  String, ◌≡◌, refl, sym, Bool, true, false, not, ◌&&◌, Option, some, ◌==◌, any, mem_text, ok,
  Error, invalid_state, not_found, robot_reserved, guard, or-eq-false, not-eq-true,
}
use semantic_framework.Prelude.Table.{find}
use semantic_framework.Store.Rows.{Workflow, Task, SubTask, RobotExecution, Db}
use semantic_framework.Store.Tx.{
  ◌>>◌, require, Returns, Returns-bind, Returns-expect, Returns-require, Returns-lift,
}
use semantic_framework.Store.Tables.{find_task, find_sub_task}
use semantic_framework.Store.Workflow.{find_workflow}
use semantic_framework.Store.Admission.{
  robot_reservation, robot_execution_reservation, pilot_is_free, holds_robot, active_run_statuses,
}
use semantic_framework.Store.Execution.{
  Skill, Scope, run_key, pilot_key, workflow_admits, task_admits, sub_task_admits, skill_admits,
  scope_admits, direct_run_admits, is_direct, approved_scope_of, validate_robot_task_admission,
  check_direct_run, excluded_run, check_task, project_fits, check_robot, check_admission,
}

module _ (read_skill : String → Option Skill) (read_scope : String → Option Scope) where
  -- The rows that approve the execution of a task's step.
  pub record Approved (item : RobotExecution) (db : Db) : Type 0 where
    pub workflow : Workflow
    pub task : Task
    pub sub_task : SubTask
    pub skill : Skill
    pub scope : Scope
    pub has_workflow : find_workflow item.workflow_id db ≡ some workflow
    pub workflow_runs : workflow_admits item workflow ≡ true
    pub has_task : find_task item.task_id db ≡ some task
    pub task_runs : task_admits item workflow task ≡ true
    pub has_sub_task : find_sub_task item.sub_task_id db ≡ some sub_task
    pub sub_task_runs : sub_task_admits task sub_task ≡ true
    pub reads_skill : read_skill sub_task.spec ≡ some skill
    pub skill_fits : skill_admits item skill ≡ true
    pub reads_scope : approved_scope_of read_skill read_scope workflow ≡ some scope
    pub scope_fits : scope_admits item scope ≡ true

  validate-Approved :
      (item : RobotExecution) (db : Db)
      → Returns
          (validate_robot_task_admission read_skill read_scope item)
          db
          (λ _ db'. (db' ≡ db) × Approved item db)
  unfolding validate_robot_task_admission
  validate-Approved item db =
      Returns-expect db _ (find_workflow item.workflow_id db) invalid_state _ λ w has_w.
        Returns-require db _ (workflow_admits item w) invalid_state _ λ w_ok.
          Returns-expect db _ (find_task item.task_id db) invalid_state _ λ t has_t.
            Returns-require db _ (task_admits item w t) invalid_state _ λ t_ok.
              Returns-expect db _ (find_sub_task item.sub_task_id db) invalid_state _ λ s has_s.
                Returns-require db _ (sub_task_admits t s) invalid_state _ λ s_ok.
                  Returns-expect db _ (read_skill s.spec) invalid_state _ λ k has_k.
                    Returns-require db _ (skill_admits item k) invalid_state _ λ k_ok.
                      Returns-expect db _ (approved_scope_of read_skill read_scope w) invalid_state
                        _
                        λ c has_c.
                          last w has_w w_ok t has_t t_ok s has_s s_ok k has_k k_ok c has_c
                            (scope_admits item c) refl
    where
      last :
          (w : Workflow)
          → find_workflow item.workflow_id db ≡ some w
          → workflow_admits item w ≡ true
          → (t : Task) → find_task item.task_id db ≡ some t
          → task_admits item w t ≡ true
          → (s : SubTask) → find_sub_task item.sub_task_id db ≡ some s
          → sub_task_admits t s ≡ true
          → (k : Skill) → read_skill s.spec ≡ some k
          → skill_admits item k ≡ true
          → (c : Scope) → approved_scope_of read_skill read_scope w ≡ some c
          → (b : Bool) → scope_admits item c ≡ b
          → Returns (require b invalid_state) db (λ _ db'. (db' ≡ db) × Approved item db)
      last w has_w w_ok t has_t t_ok s has_s s_ok k has_k k_ok c has_c true c_ok u db' h = (
        cc,
        record {
          workflow = w;
          task = t;
          sub_task = s;
          skill = k;
          scope = c;
          has_workflow = has_w;
          workflow_runs = w_ok;
          has_task = has_t;
          task_runs = t_ok;
          has_sub_task = has_s;
          sub_task_runs = s_ok;
          reads_skill = has_k;
          skill_fits = k_ok;
          reads_scope = has_c;
          scope_fits = c_ok;
        },
      )
      last w has_w w_ok t has_t t_ok s has_s s_ok k has_k k_ok c has_c false c_ok u db' h = cc

  abbrev pub IsApproved : RobotExecution → Db → Type 0
  IsApproved item db = (item.task_id == "") ≡ false → Approved item db

  check_direct_run-same :
      (item : RobotExecution) (agent_id : String) (db : Db)
      → Returns (check_direct_run read_skill read_scope item agent_id) db (λ _ db'. db' ≡ db)
  unfolding check_direct_run
  check_direct_run-same item agent_id db =
      Returns-expect db _ (find run_key item.run_id db.run_sessions) invalid_state _ λ run has.
        Returns-require db _
          (direct_run_admits item agent_id run && agent_id == Text.◌++◌ "robot:" item.robot_id)
          invalid_state _ λ fits id db' h. cc

  excluded_run-same :
      (b : Bool) (item : RobotExecution) (agent_id : String) (db : Db)
      → Returns (excluded_run read_skill read_scope b item agent_id) db (λ _ db'. db' ≡ db)
  excluded_run-same true item agent_id db = check_direct_run-same item agent_id db
  excluded_run-same false item agent_id db = λ id db' h. cc

  check_task-Approved :
      (b : Bool) (item : RobotExecution) (db : Db)
      → (item.task_id == "") ≡ b
      → Returns
          (check_task read_skill read_scope b item)
          db
          (λ _ db'. (db' ≡ db) × IsApproved item db)
  check_task-Approved true item db e = λ u db' h. (cc, λ named. cc)
  check_task-Approved false item db e =
      λ u db' h. let (same, rows) = validate-Approved item db u db' h in (same, λ named. rows)

  -- Nobody else holds the robot and nothing runs on it.
  abbrev pub IsFree : RobotExecution → Db → Type 0
  IsFree item db =
      (robot_execution_reservation db item.robot_id "" ≡ ok tt)
      × (any (holds_robot item.robot_id item.task_id) db.tasks ≡ false)

  pub guard-eq-ok : (b : Bool) (e : Error) (u : Unit {0}) → guard b e ≡ ok u → b ≡ true
  guard-eq-ok true e u h = refl
  guard-eq-ok false e u h = cc

  check_robot-IsFree :
      (item : RobotExecution) (excluded : String) (db : Db)
      → Returns
          (check_robot read_skill read_scope item excluded)
          db
          (λ _ db'. (db' ≡ db) × IsFree item db)
  unfolding check_robot robot_reservation
  check_robot-IsFree item excluded db =
      Returns-lift db _ (robot_reservation db item.robot_id item.task_id excluded) _ λ u held.
        Returns-lift db _ (robot_execution_reservation db item.robot_id "") _ λ v runs.
          Returns-expect db _ (find pilot_key item.pilot_instance_id db.robot_pilots) not_found _
            λ pilot has.
              Returns-require db _ (pilot_is_free (some pilot)) robot_reserved _
                λ idle. last u v held runs (project_fits read_skill read_scope item db)
    where
      last :
          (u v : Unit {0})
          → robot_reservation db item.robot_id item.task_id excluded ≡ ok u
          → robot_execution_reservation db item.robot_id "" ≡ ok v
          → (b : Bool) → Returns (require b invalid_state) db (λ _ db'. (db' ≡ db) × IsFree item db)
      last u v held runs false w db' h = cc
      last u v held runs true w db' h = (
        cc,
        (
          runs,
          (or-eq-false (any (holds_robot item.robot_id item.task_id) db.tasks)
              (any
                (λ r.
                  r.robot_id == item.robot_id
                  && not (r.id == excluded)
                  && mem_text r.status active_run_statuses)
                db.run_sessions)
              (not-eq-true _ (guard-eq-ok _ robot_reserved u held))).0,
        ),
      )

  pub check_admission-IsFree :
      (item : RobotExecution) (agent_id : String) (db : Db)
      → Returns
          (check_admission read_skill read_scope item agent_id)
          db
          (λ _ db'. (db' ≡ db) × (IsApproved item db × IsFree item db))
  unfolding check_admission
  check_admission-IsFree item agent_id db =
      Returns-bind db _ (excluded_run read_skill read_scope (is_direct item) item agent_id) _
        λ excluded d e.
          subst
            (λ d.
              Returns
                (check_task read_skill read_scope (item.task_id == "") item
                  >> check_robot read_skill read_scope item excluded)
                d (λ _ db'. (db' ≡ db) × (IsApproved item db × IsFree item db)))
            (sym (excluded_run-same (is_direct item) item agent_id db excluded d e))
            (Returns-bind db _ (check_task read_skill read_scope (item.task_id == "") item) _
              λ u d' e'.
                let (same, rows) = check_task-Approved (item.task_id == "") item db refl u d' e' in
                subst
                  (λ d.
                    Returns (check_robot read_skill read_scope item excluded) d
                      (λ _ db'. (db' ≡ db) × (IsApproved item db × IsFree item db)))
                  (sym same)
                  (λ w db' h.
                    let (same', free) = check_robot-IsFree item excluded db w db' h in
                    (same', (rows, free))))
