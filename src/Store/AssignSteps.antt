-- ===== src/Store/AssignSteps.antt =====
-- The assigning methods of internal/store/workflow.go and the development of rows.

use semantic_framework.Prelude.{
  ℕ, String, ◌≡◌, refl, Bool, true, not, ◌&&◌, ◌==◌, arith, eqb, any, trim_space, invalid_state,
  revision_conflict, not_found,
}
use semantic_framework.Store.Status.{Status, pending, eq_status}
use semantic_framework.Store.Rows.{Task, Db}
use semantic_framework.Store.Tx.{return, Returns-expect, Returns-require, Returns-if, Returns-lift}
use semantic_framework.Store.Moves.{stay}
use semantic_framework.Store.Tables.{find_task}
use semantic_framework.Store.Admission.{assignment_reservation}
use semantic_framework.Store.Task.{
  assigned, assign_unassigned_task, keep_assignment, assign_task, reassign_pending_task,
}
use semantic_framework.Store.Evolution.{Keeps, task_step, Keeps-return}
use semantic_framework.Store.TaskSteps.{Keeps-update_get, open_when, pending_step}

pending_of :
    (a c : Bool) (s : Status) → (a && eq_status s pending && c) ≡ true → eq_status s pending ≡ true
pending_of a c s h = ground arith

assign_unassigned_task-Keeps :
    (db : Db) (id : String) (expected : ℕ) (agent robot : String) (now : ℕ)
    → Keeps (assign_unassigned_task id expected agent robot now) db
unfolding assign_unassigned_task
assign_unassigned_task-Keeps db id expected agent robot now =
    Returns-lift db _ (assignment_reservation db robot id) _ λ _ _.
      Keeps-update_get db id _ _ λ t found h.
        task_step t (assigned agent robot now t) refl refl stay (
          open_when t.status pending
            (pending_of (eqb t.revision expected) (t.assigned_agent_id == "") t.status h) refl)

keep_assignment-Keeps :
    (db : Db) (current : Task) (agent robot : String)
    → Keeps (keep_assignment current agent robot) db
keep_assignment-Keeps db current agent robot =
    Returns-require db _ (current.assigned_agent_id == agent && current.assigned_robot_id == robot)
      invalid_state (return current) λ _. Keeps-return db current

pub assign_task-Keeps :
    (db : Db) (id : String) (expected : ℕ) (agent robot : String) (now : ℕ)
    → Keeps (assign_task id expected agent robot now) db
unfolding assign_task
assign_task-Keeps db id expected agent robot now =
    Returns-require db _ (not (trim_space agent == "")) invalid_state _ λ _.
      Returns-expect db _ (find_task id db) not_found _ λ t found.
        Returns-require db _ (eqb t.revision expected && eq_status t.status pending)
          revision_conflict _
          λ _.
            Returns-if db _ (t.assigned_agent_id == "") _ _
              (λ _. assign_unassigned_task-Keeps db id expected _ _ now)
              (λ _. keep_assignment-Keeps db t (trim_space agent) (trim_space robot))

pub reassign_pending_task-Keeps :
    (db : Db) (id : String) (expected : ℕ) (agent robot : String) (now : ℕ)
    → Keeps (reassign_pending_task id expected agent robot now) db
unfolding reassign_pending_task
reassign_pending_task-Keeps db id expected agent robot now =
    Returns-require db _ (not (trim_space agent == "")) invalid_state _ λ _.
      Returns-expect db _ (find_task id db) not_found _ λ t found.
        Returns-require db _ (eq_status t.status pending && eqb t.revision expected)
          revision_conflict _
          λ _.
            Returns-require db _ (not (any (λ e. e.task_id == id) db.robot_executions))
              invalid_state _
              λ _. Returns-lift db _ (assignment_reservation db (trim_space robot) id) _ λ _ _.
                Keeps-update_get db id _ _
                  λ t found h. pending_step (eqb t.revision expected) t _ h refl refl refl
