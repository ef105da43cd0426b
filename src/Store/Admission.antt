-- ===== src/Store/Admission.antt =====
-- Who holds a robot: internal/store/robot_admission.go, and the partial unique index of
-- internal/store/migrate.go on the robots of unfinished tasks.
use semantic_framework.Prelude.{
  String, Bool, true, not, ◌&&◌, ◌||◌, List, [], ◌∷◌, ◌==◌, any, mem_text, Result, ok,
  robot_reserved, if◌then◌else◌, Option, none, some, ◌>>◌, guard,
}
use semantic_framework.Store.Status.{unfinished}
use semantic_framework.Store.Rows.{Task, RobotPilot, Db}

abbrev pub active_run_statuses : List String
active_run_statuses = "queued" ∷ "running" ∷ "waiting_input" ∷ "cancelling" ∷ []

abbrev pub active_execution_statuses : List String
active_execution_statuses = "queued" ∷ "starting" ∷ "running" ∷ "waiting_agent" ∷ "stopping" ∷ []

-- Task rows other than `task_id` that hold the robot.
abbrev pub holds_robot : String → String → Task → Bool
holds_robot robot_id task_id t =
    t.assigned_robot_id == robot_id && not (t.id == task_id) && unfinished t.status

unfoldable pub robot_reservation : Db → String → String → String → Result (Unit {0})
robot_reservation db robot_id task_id run_id =
    guard
      (not (
        any (holds_robot robot_id task_id) db.tasks
        || any
            (λ r.
              r.robot_id == robot_id
              && not (r.id == run_id)
              && mem_text r.status active_run_statuses)
            db.run_sessions))
      robot_reserved

unfoldable pub robot_execution_reservation : Db → String → String → Result (Unit {0})
robot_execution_reservation db robot_id task_id =
    guard
      (not (
        any
          (λ e.
            e.robot_id == robot_id
            && mem_text e.status active_execution_statuses
            && (task_id == "" || not (e.task_id == task_id)))
          db.robot_executions))
      robot_reserved

-- The newest report of the robot's pilots.
unfoldable pub latest_pilot : String → List RobotPilot → Option RobotPilot
latest_pilot robot_id [] = none
latest_pilot robot_id (p ∷ ps) = if p.robot_id == robot_id then some p else latest_pilot robot_id ps

abbrev pub pilot_is_free : Option RobotPilot → Bool
pilot_is_free none = true
pilot_is_free (some p) = not (
    not (p.current_execution_id == "")
    || p.robot_status == "busy"
    || p.robot_status == "stopping"
    || p.robot_status == "interrupted")

unfoldable pub robot_physical_reservation : Db → String → Result (Unit {0})
unfolding latest_pilot
robot_physical_reservation db robot_id =
    guard (pilot_is_free (latest_pilot robot_id db.robot_pilots)) robot_reserved

unfoldable pub check_robot_admission : Db → String → String → String → Result (Unit {0})
unfolding robot_reservation robot_execution_reservation
check_robot_admission db robot_id task_id run_id = do
  robot_reservation db robot_id task_id run_id
  robot_execution_reservation db robot_id ""

-- The checks that assigning a robot makes in its transaction; no robot asks for none of them.
unfoldable pub assignment_reservation : Db → String → String → Result (Unit {0})
unfolding robot_reservation robot_execution_reservation robot_physical_reservation
assignment_reservation db robot_id task_id = if robot_id == "" then ok tt else do
  robot_reservation db robot_id task_id ""
  robot_execution_reservation db robot_id task_id
  robot_physical_reservation db robot_id
