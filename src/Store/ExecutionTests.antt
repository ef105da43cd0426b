-- ===== src/Store/ExecutionTests.antt =====
-- An admission of internal/store/robot_admission.go for a running task's step.
use semantic_framework.Prelude.{
  ◌≤◌, String, ◌≡◌, refl, false, Option, some, List, [], ◌∷◌, ok, length, arith, trim_space,
}
use semantic_framework.Prelude.Table.{find}
use semantic_framework.Store.Status.{running}
use semantic_framework.Store.Rows.{RobotExecution, Db}
use semantic_framework.Store.Samples.{a_db, a_task, a_sub_task}
use semantic_framework.Store.Admission.{robot_reservation, robot_execution_reservation}
use semantic_framework.Store.Execution.{
  Skill, Scope, find_request, validate_robot_task_admission, check_robot, check_admission,
  insert_execution, admit_robot_execution, runtime_project,
}
use semantic_framework.Store.Admitted.{
  active_on, admit_all, admit_robot_execution-again, admit_robot_execution-one_active,
}
use semantic_framework.Store.Approval.{AdmissionFacts, admit_robot_execution-AdmissionFacts}

abbrev robot_db : Db
robot_db = record a_db {
  tasks = record (a_task "t1" 1 running) { required_role = "robot"; assigned_robot_id = "r1" } ∷ [];
  sub_tasks = record (a_sub_task "s1" "t1" 1 running) { kind = "robot_skill" } ∷ [];
  robot_pilots =
      record {
        pilot_instance_id = "pilot1";
        robot_id = "r1";
        robot_status = "idle";
        current_execution_id = "";
      }
      ∷ [];
}

abbrev a_request : RobotExecution
a_request = record {
  id = "e1";
  project_id = "p1";
  workflow_id = "w1";
  task_id = "t1";
  sub_task_id = "s1";
  run_id = "";
  robot_id = "r1";
  pilot_instance_id = "pilot1";
  skill_name = "pick";
  skill_version = "1";
  request_key = "k1";
  status = "queued";
  revision = 1;
  created_at = 5;
  updated_at = 5;
}

-- The decoders, at the specification "{}" of the sample.
abbrev a_skill : String → Option Skill
a_skill spec = some record { name = " pick"; version = "" }

abbrev a_scope : String → Option Scope
a_scope scope = some record { robot_ids = "r1" ∷ []; allowed_skills = [] }

abbrev admitted_db : Db
admitted_db = record robot_db { robot_executions = a_request ∷ [] }

admit_robot_execution-AdmissionFacts_example :
    (a_request ≡ a_request) × AdmissionFacts a_skill a_scope a_request robot_db admitted_db
unfolding find find_request validate_robot_task_admission check_robot check_admission
    insert_execution admit_robot_execution robot_reservation robot_execution_reservation
    runtime_project trim_space
admit_robot_execution-AdmissionFacts_example =
    admit_robot_execution-AdmissionFacts a_skill a_scope a_request a_request "" robot_db admitted_db
      refl

-- The same request key from another agent, for another robot and under another id, after a refused
-- call for the robot that is taken.
abbrev calls_between : List (RobotExecution × String)
calls_between = (record a_request { id = "e2"; request_key = "k2" }, "") ∷ []

abbrev asked_again : RobotExecution
asked_again = record a_request { id = "e3"; robot_id = "r2"; skill_name = "place" }

admit_robot_execution-again_example :
    admit_robot_execution a_skill a_scope asked_again "other"
      (admit_all a_skill a_scope calls_between admitted_db)
    ≡ ok ((a_request, false), admit_all a_skill a_scope calls_between admitted_db)
unfolding find find_request validate_robot_task_admission check_robot check_admission
    insert_execution admit_robot_execution robot_reservation robot_execution_reservation
    runtime_project trim_space
admit_robot_execution-again_example =
    admit_robot_execution-again a_skill a_scope a_request a_request "" robot_db admitted_db refl
      calls_between asked_again "other" refl refl

admit_robot_execution-one_active_example : length (active_on "r1" admitted_db) ≤ 1
unfolding find find_request validate_robot_task_admission check_robot check_admission
    insert_execution admit_robot_execution robot_reservation robot_execution_reservation
    runtime_project trim_space
admit_robot_execution-one_active_example =
    admit_robot_execution-one_active a_skill a_scope a_request a_request "" "r1" robot_db
      admitted_db (omega arith) refl
