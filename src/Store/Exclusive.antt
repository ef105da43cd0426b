-- ===== src/Store/Exclusive.antt =====
-- `AssignTask` of internal/store/workflow.go with a robot.
use semantic_framework.Prelude.{
  ℕ, String, ◌≡◌, refl, ap, sym, ◌∙◌, ◌⊎◌, inl, inr, Bool, true, false, not, ◌&&◌, some, ◌==◌, eqb,
  ok, invalid_state, not_found, revision_conflict, trim_space, and-eq-true, eq_iff,
}
use semantic_framework.Prelude.Table.{affected, affected-find, find-update}
use semantic_framework.Store.Status.{pending, eq_status}
use semantic_framework.Store.Rows.{Task, Db}
use semantic_framework.Store.Tx.{
  ◌>>◌, return, expect, require, modify, Returns, Returns-require, Returns-expect, Returns-lift,
  Returns-if,
}
use semantic_framework.Store.Tables.{task_key, find_task, get_task, update_task}
use semantic_framework.Store.Admission.{assignment_reservation}
use semantic_framework.Store.Task.{assigned, assign_unassigned_task, keep_assignment, assign_task}
use semantic_framework.Store.History.{with_update}
use semantic_framework.Store.Branches.{assignment_reservation-free}
use semantic_framework.Store.Approval.{OthersEnded, holds_robot-Others}

-- The row that an update writes is the one that is read afterwards.
update_get-row :
    (id : String) (test : Task → Bool) (change : Task → Task) (db : Db)
    → ((t : Task) → (change t).id ≡ t.id)
    → Returns
        (update_task id test change >> get_task id)
        db
        (λ t db'. (u : Task) × ((t ≡ change u) × (find_task id db' ≡ some t)))
update_get-row id test change db same t db' h = go (affected task_key id test db.tasks) refl h
  where
    go :
        (b : Bool)
        → affected task_key id test db.tasks ≡ b
        → ((require b revision_conflict >> modify (with_update id test change)) >> get_task id) db
          ≡ ok (t, db')
        → (u : Task) × ((t ≡ change u) × (find_task id db' ≡ some t))
    go false miss k = cc
    go true hit k =
        let (u, there, passes) = affected-find task_key id test db.tasks hit in
        let kept : find_task id (with_update id test change db) ≡ some (change u) =
          find-update task_key id test change db.tasks u there passes (same u) in
        let made : expect (some (change u)) not_found (with_update id test change db)
            ≡ ok (t, db') =
          ap (λ o. expect o not_found (with_update id test change db)) (sym kept) ∙ k in
        let is : change u ≡ t = cc in
        let into : with_update id test change db ≡ db' = cc in
        (u, (sym is, ap (find_task id) (sym into) ∙ kept ∙ ap some is))

-- The task is stored with the agent and the robot, and either the call has changed nothing or no
-- other task had the robot.
pub record IsAssigned (agent robot id : String) (db : Db) (t : Task) (db' : Db) : Type 0 where
  pub stored : find_task id db' ≡ some t
  pub has_agent : t.assigned_agent_id ≡ agent
  pub has_robot : t.assigned_robot_id ≡ robot
  pub exclusive : (db' ≡ db) ⊎ OthersEnded robot id db.tasks

assign_task-IsAssigned :
    (id : String) (expected : ℕ) (agent robot : String) (now : ℕ) (db : Db)
    → (trim_space robot == "") ≡ false
    → Returns
        (assign_task id expected agent robot now)
        db
        (IsAssigned (trim_space agent) (trim_space robot) id db)
unfolding assign_task assign_unassigned_task
assign_task-IsAssigned id expected agent robot now db named =
    Returns-require db _ (not (trim_space agent == "")) invalid_state _ λ has_agent.
      Returns-expect db _ (find_task id db) not_found _ λ current found.
        Returns-require db _ (eqb current.revision expected && eq_status current.status pending)
          revision_conflict _
          λ fresh.
            Returns-if db _ (current.assigned_agent_id == "")
              (assign_unassigned_task id expected (trim_space agent) (trim_space robot) now)
              (keep_assignment current (trim_space agent) (trim_space robot))
              (λ unassigned.
                Returns-lift db _ (assignment_reservation db (trim_space robot) id) _
                  λ u free t db' h.
                    let (old, (is, stored)) =
                      update_get-row id _ (assigned (trim_space agent) (trim_space robot) now) db
                        (λ x. refl) t db' h in
                    record {
                      stored = stored;
                      has_agent = ap (λ x. x.assigned_agent_id) is;
                      has_robot = ap (λ x. x.assigned_robot_id) is;
                      exclusive = inr (
                          holds_robot-Others (trim_space robot) id db.tasks
                            (assignment_reservation-free (trim_space robot) id db u named free));
                    })
              (λ given.
                Returns-require db _
                  (current.assigned_agent_id == trim_space agent
                    && current.assigned_robot_id == trim_space robot)
                  invalid_state (return current)
                  λ same t db' h.
                    let (a, b) =
                      and-eq-true (current.assigned_agent_id == trim_space agent)
                        (current.assigned_robot_id == trim_space robot) same in
                    let is : current ≡ t = cc in
                    let into : db ≡ db' = cc in
                    record {
                      stored = ap (find_task id) (sym into) ∙ found ∙ ap some is;
                      has_agent =
                          ap (λ x. x.assigned_agent_id) (sym is)
                          ∙ (eq_iff current.assigned_agent_id (trim_space agent)).0 a;
                      has_robot =
                          ap (λ x. x.assigned_robot_id) (sym is)
                          ∙ (eq_iff current.assigned_robot_id (trim_space robot)).0 b;
                      exclusive = inl (sym into);
                    })

-- When `AssignTask` with a robot returns, then the task that it returns is stored and has the agent
-- and the robot that were asked for, without the blanks around them, and either the database is as
-- it was or every other task that has this robot has completed, failed or been stopped.
pub assign_task-exclusive :
    (id : String) (expected : ℕ) (agent robot : String) (now : ℕ) (db : Db) (t : Task) (db' : Db)
    → (trim_space robot == "") ≡ false
    → assign_task id expected agent robot now db ≡ ok (t, db')
    → IsAssigned (trim_space agent) (trim_space robot) id db t db'
assign_task-exclusive id expected agent robot now db t db' named h =
    assign_task-IsAssigned id expected agent robot now db named t db' h
