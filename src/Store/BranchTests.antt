-- ===== src/Store/BranchTests.antt =====
-- Branches of `TransitionTask` and assignments in a small database.
use semantic_framework.Prelude.{◌≡◌, refl, trim_space}
use semantic_framework.Prelude.Table.{find, update, affected}
use semantic_framework.Store.Status.{pending, completed}
use semantic_framework.Store.Rows.{Task, Db}
use semantic_framework.Store.Samples.{a_db, a_task}
use semantic_framework.Store.Tables.{find_task}
use semantic_framework.Store.Admission.{
  assignment_reservation, robot_reservation, robot_execution_reservation,
  robot_physical_reservation, latest_pilot,
}
use semantic_framework.Store.Task.{transition_task, assign_task, assign_unassigned_task, assigned}
use semantic_framework.Store.History.{after, moved}
use semantic_framework.Store.Exclusive.{IsAssigned, assign_task-exclusive}
use semantic_framework.Store.Branches.{transition_contract, transition_task-contract}

transition_task-contract_example :
    transition_task "t2" 1 completed "" "done" "" 9 a_db
    ≡ transition_contract
        (find_task "t2" a_db)
        "t2"
        1
        completed
        (moved completed "" "done" "" 9)
        a_db
transition_task-contract_example = transition_task-contract "t2" 1 completed "" "done" "" 9 a_db

abbrev t1_assigned : Task
t1_assigned = assigned "worker" "r1" 9 (a_task "t1" 1 pending)

abbrev assigned_db : Db
assigned_db = after (assign_task "t1" 1 "worker" " r1" 9 a_db) a_db

assign_task-exclusive_example :
    IsAssigned (trim_space "worker") (trim_space " r1") "t1" a_db t1_assigned assigned_db
unfolding find update affected assign_task assign_unassigned_task assignment_reservation
    robot_reservation robot_execution_reservation robot_physical_reservation latest_pilot trim_space
assign_task-exclusive_example =
    assign_task-exclusive "t1" 1 "worker" " r1" 9 a_db t1_assigned assigned_db refl refl
