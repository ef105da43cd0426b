-- ===== src/Store/Branches.antt =====
-- The branches of `TransitionTask`, and `AssignTask` and `ReassignPendingTask` with a robot
-- (internal/store/workflow.go).

use semantic_framework.Prelude.{
  ℕ, String, ◌≡◌, refl, ap, ◌∙◌, Bool, true, false, not, ◌&&◌, Option, none, some, ◌==◌, eqb, any,
  Result, ok, err, Error, invalid_state, not_found, revision_conflict, robot_reserved,
  if◌then◌else◌, guard, first_returns, trim_space, or-eq-false, not-eq-true,
}
use semantic_framework.Prelude.Table.{affected, find-affected, find-update}
use semantic_framework.Store.Status.{Status, pending, eq_status, allowed_task_transitions}
use semantic_framework.Store.Rows.{Task, Db}
use semantic_framework.Store.Tx.{
  Tx, ◌>>=◌, ◌>>◌, expect, require, modify, Returns, Returns-require, Returns-expect, Returns-lift,
}
use semantic_framework.Store.Tables.{task_key, find_task, get_task, update_task}
use semantic_framework.Store.Admission.{holds_robot, assignment_reservation, robot_reservation}
use semantic_framework.Store.Task.{
  check_task_transition, write_task_transition, transition_task, reassign_pending_task,
}
use semantic_framework.Store.History.{moved, with_update}

-- What `TransitionTask` promises for the row that is stored under the id.
abbrev pub transition_contract :
    Option Task → String → ℕ → Status → (Task → Task) → Db → Result (Task × Db)
transition_contract none id expected to change db = err not_found
transition_contract (some t) id expected to change db =
    if eqb t.revision expected
    then (if allowed_task_transitions t.status to
        then ok (change t, with_update id (λ t. eqb t.revision expected) change db)
        else err invalid_state)
    else err revision_conflict

-- `TransitionTask`, with no writer in between, on each of its branches: a missing task is not found, a
-- stale revision is a conflict, a transition that the table does not have is refused, and otherwise
-- the row alone is moved to the new status and returned.
pub transition_task-contract :
    (id : String) (expected : ℕ) (to : Status) (reason summary evidence : String) (now : ℕ)
    (db : Db)
    → transition_task id expected to reason summary evidence now db
      ≡ transition_contract
          (find_task id db)
          id
          expected
          to
          (moved to reason summary evidence now)
          db
unfolding transition_task check_task_transition write_task_transition
transition_task-contract id expected to reason summary evidence now db = go (find_task id db) refl
  where
    change : Task → Task
    change = moved to reason summary evidence now

    test : Task → Bool
    test t = eqb t.revision expected

    rest : Task → Tx (Unit {0})
    rest current =
        require (eqb current.revision expected) revision_conflict
        >> require (allowed_task_transitions current.status to) invalid_state

    write : Tx Task
    write = update_task id test change >> get_task id

    written :
        (t : Task)
        → find_task id db ≡ some t
        → test t ≡ true
        → write db ≡ ok (change t, with_update id test change db)
    written t found same =
        let hit : affected task_key id test db.tasks ≡ true =
          find-affected task_key id test db.tasks t found ∙ same in
        let there : find_task id (with_update id test change db) ≡ some (change t) =
          find-update task_key id test change db.tasks t found same refl in
        ap
          (λ (b : Bool).
            ((require b revision_conflict >> modify (with_update id test change)) >> get_task id)
              db)
          hit
        ∙ ap (λ (o : Option Task). expect o not_found (with_update id test change db)) there

    split :
        (t : Task)
        → find_task id db ≡ some t
        → (a b : Bool) → test t ≡ a
        → ((require a revision_conflict >> require b invalid_state) >> write) db ≡ (
            if a
            then (if b then ok (change t, with_update id test change db) else err invalid_state)
            else err revision_conflict)
    split t found true true same = written t found same
    split t found true false same = refl
    split t found false b same = refl

    go :
        (o : Option Task)
        → find_task id db ≡ o
        → ((expect o not_found >>= rest) >> write) db
          ≡ transition_contract o id expected to change db
    go none found = refl
    go (some t) found = split t found (test t) (allowed_task_transitions t.status to) refl

guard-eq-ok : (b : Bool) (e : Error) (u : Unit {0}) → guard b e ≡ ok u → b ≡ true
guard-eq-ok true e u h = refl
guard-eq-ok false e u h = cc

robot_reservation-free :
    (robot id run : String) (db : Db) (u : Unit {0})
    → robot_reservation db robot id run ≡ ok u
    → any (holds_robot robot id) db.tasks ≡ false
unfolding robot_reservation
robot_reservation-free robot id run db u h =
    (or-eq-false (any (holds_robot robot id) db.tasks) _
      (not-eq-true _ (guard-eq-ok _ robot_reserved u h))).0

pub assignment_reservation-free :
    (robot id : String) (db : Db) (u : Unit {0})
    → (robot == "") ≡ false
    → assignment_reservation db robot id ≡ ok u
    → any (holds_robot robot id) db.tasks ≡ false
unfolding assignment_reservation
assignment_reservation-free robot id db u named h =
    robot_reservation-free robot id "" db tt
      (first_returns (robot_reservation db robot id "") _ u (rw named at h))

reassign_pending_task-IsExclusive :
    (id : String) (expected : ℕ) (agent robot : String) (now : ℕ) (db : Db)
    → (trim_space robot == "") ≡ false
    → Returns (reassign_pending_task id expected agent robot now) db (λ _ db'.
      (any (holds_robot (trim_space robot) id) db.tasks ≡ false)
      × (any (λ e. e.task_id == id) db.robot_executions ≡ false))
unfolding reassign_pending_task
reassign_pending_task-IsExclusive id expected agent robot now db named =
    Returns-require db _ (not (trim_space agent == "")) invalid_state _ λ has_agent.
      Returns-expect db _ (find_task id db) not_found _ λ current found.
        Returns-require db _ (eq_status current.status pending && eqb current.revision expected)
          revision_conflict _
          λ fresh.
            Returns-require db _ (not (any (λ e. e.task_id == id) db.robot_executions))
              invalid_state _
              λ unused.
                Returns-lift db _ (assignment_reservation db (trim_space robot) id) _
                  λ u free t' db' h. (
                    assignment_reservation-free (trim_space robot) id db u named free,
                    not-eq-true (any (λ e. e.task_id == id) db.robot_executions) unused,
                  )

-- When `ReassignPendingTask` with a robot returns, no other unfinished task holds the robot, and no
-- execution of the task exists.
pub reassign_pending_task-exclusive :
    (id : String) (expected : ℕ) (agent robot : String) (now : ℕ) (db : Db) (t : Task) (db' : Db)
    → (trim_space robot == "") ≡ false
    → reassign_pending_task id expected agent robot now db ≡ ok (t, db')
    → (any (holds_robot (trim_space robot) id) db.tasks ≡ false)
      × (any (λ e. e.task_id == id) db.robot_executions ≡ false)
reassign_pending_task-exclusive id expected agent robot now db t db' named h =
    reassign_pending_task-IsExclusive id expected agent robot now db named t db' h
