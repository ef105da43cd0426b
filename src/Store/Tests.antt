-- ===== src/Store/Tests.antt =====
-- Runs of the methods of internal/store/workflow.go on a small database.
use semantic_framework.Prelude.{
  ◌<◌, ◌≡◌, refl, List, [], ◌∷◌, some, true, ◌⊎◌, err, revision_conflict,
}
use semantic_framework.Prelude.Table.{find, update, affected}
use semantic_framework.Store.SubTask.{
  transition_sub_task, check_sub_task_transition, write_sub_task_transition,
}
use semantic_framework.Store.Status.{allowed_task_transitions, pending, running, completed, stopped}
use semantic_framework.Store.Rows.{Task, Db}
use semantic_framework.Store.Moves.{Moves}
use semantic_framework.Store.Tables.{find_task, find_sub_task}
use semantic_framework.Store.Task.{write_task_transition, transition_task, check_task_transition}
use semantic_framework.Store.TaskSteps.{Checked}
use semantic_framework.Store.History.{
  Call, after, move_task, set_reason, move_sub_task, run, call, run-task_path, run-task_final,
  run-sub_task_final, write-Checked_row, moved,
}
use semantic_framework.Store.Samples.{a_task, a_sub_task, a_db}

-- A second writer, a stale call and a call on a finished task.
abbrev some_calls : List Call
some_calls =
    move_task "t1" 1 running "" "" "" 5
    ∷ move_task "t1" 1 stopped "" "" "" 6
    ∷ set_reason "t3" 1 "again" 7
    ∷ move_task "t3" 1 running "" "" "" 8
    ∷ move_sub_task "s2" 1 running "" "" 9
    ∷ []

run-task_path_example :
    (u : Task) × (find_task "t1" (run some_calls a_db) ≡ some u)
    × Moves pending u.status
    × ((u ≡ a_task "t1" 1 pending) ⊎ (1 < u.revision))
unfolding find
run-task_path_example = run-task_path some_calls a_db "t1" (a_task "t1" 1 pending) refl

run-task_final_example : find_task "t3" (run some_calls a_db) ≡ some (a_task "t3" 3 completed)
unfolding find
run-task_final_example = run-task_final some_calls a_db "t3" (a_task "t3" 3 completed) refl refl

run-sub_task_final_example :
    find_sub_task "s1" (run some_calls a_db) ≡ some (a_sub_task "s1" "t2" 1 completed)
unfolding find
run-sub_task_final_example =
    run-sub_task_final some_calls a_db "s1" (a_sub_task "s1" "t2" 1 completed) refl refl

-- Calls on other rows between the check and the write of "t2".
abbrev between : List Call
between = move_task "t1" 1 running "" "" "" 5 ∷ move_sub_task "s2" 1 running "" "" 6 ∷ []

t2-Checked : Checked "t2" 1 completed a_db
unfolding find
t2-Checked = record { row = a_task "t2" 2 running; found = refl; same = refl; legal = refl }

abbrev t2_done : Task
t2_done = moved completed "" "done" "" 9 (a_task "t2" 2 running)

abbrev t2_written : Db
t2_written = after (write_task_transition "t2" 1 completed "" "done" "" 9 (run between a_db)) a_db

write-Checked_row_example :
    (t : Task) × (find_task "t2" a_db ≡ some t)
    × (find_task "t2" (run between a_db) ≡ some t)
    × (allowed_task_transitions t.status completed ≡ true)
    × (t2_done ≡ moved completed "" "done" "" 9 t)
    × (find_task "t2" t2_written ≡ some t2_done)
unfolding find update affected run call write_task_transition transition_task check_task_transition
    transition_sub_task check_sub_task_transition write_sub_task_transition
write-Checked_row_example =
    write-Checked_row between a_db "t2" 1 completed "" "done" "" 9 t2_done t2_written t2-Checked
      refl

-- The first of two writers that read the same row wins.
stale_write_lost :
    transition_task "t1" 1 stopped "" "" "" 6 (run between a_db) ≡ err revision_conflict
unfolding find update affected run call write_task_transition transition_task check_task_transition
    transition_sub_task check_sub_task_transition write_sub_task_transition
stale_write_lost = refl
