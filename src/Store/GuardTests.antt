-- ===== src/Store/GuardTests.antt =====
-- A first plan and a recovery in small databases.
use semantic_framework.Prelude.{ℕ, String, refl, List, [], ◌∷◌, Result, ok, err, trim_space}
use semantic_framework.Prelude.Table.{find, update, affected, update_all}
use semantic_framework.Store.Status.{paused, pending}
use semantic_framework.Store.Rows.{Task, SubTask, SubTaskDraft, Db}
use semantic_framework.Store.Samples.{a_db, a_task, a_sub_task, a_draft}
use semantic_framework.Store.Graph.{is_acyclic, visit, relax, lower, released}
use semantic_framework.Store.Tables.{insert_sub_task, insert_sub_task_dependency}
use semantic_framework.Store.Draft.{
  valid_sub_task_kind, check_dependencies, check_all_dependencies, fill_sub_drafts,
  validate_sub_task_drafts,
}
use semantic_framework.Store.SubTask.{allocate_sub_task_ids, insert_dependencies, insert_plan}
use semantic_framework.Store.Recovery.{
  next_position, replace_failed, stop_pending, write_recovery, apply_failed_robot_recovery,
}
use semantic_framework.Store.History.{after}
use semantic_framework.Store.Guards.{Recoverable, apply_failed_robot_recovery-Recoverable}

abbrev drawn : ℕ → String
drawn n = "subtask-new"

abbrev a_plan : List SubTaskDraft
a_plan = a_draft "a" [] ∷ a_draft "b" ("a" ∷ []) ∷ []

abbrev value_of : Result ((Task × List SubTask) × Db) → Task × List SubTask
value_of (ok (r, db)) = r
value_of (err e) = (a_task "" 0 pending, [])

abbrev broken_db : Db
broken_db = record a_db {
  tasks = a_task "t1" 1 paused ∷ [];
  sub_tasks =
      record (a_sub_task "s1" "t1" 0 paused) { kind = "robot_skill"; execution_ref = "e1" } ∷ [];
  robot_executions =
      record {
        id = "e1";
        project_id = "p1";
        workflow_id = "w1";
        task_id = "t1";
        sub_task_id = "s1";
        run_id = "";
        robot_id = "r1";
        pilot_instance_id = "pilot1";
        skill_name = "pick";
        skill_version = "1";
        request_key = "k1";
        status = "failed";
        revision = 3;
        created_at = 5;
        updated_at = 6;
      }
      ∷ [];
}

apply_failed_robot_recovery-Recoverable_example : Recoverable drawn drawn "t1" 1 "s1" broken_db
unfolding valid_sub_task_kind check_dependencies check_all_dependencies fill_sub_drafts
    validate_sub_task_drafts is_acyclic visit relax lower released trim_space find update affected
    update_all insert_sub_task insert_sub_task_dependency allocate_sub_task_ids insert_dependencies
    insert_plan next_position replace_failed stop_pending write_recovery apply_failed_robot_recovery
apply_failed_robot_recovery-Recoverable_example =
    apply_failed_robot_recovery-Recoverable drawn drawn "t1" 1 "s1" a_plan 7 broken_db
      (value_of (apply_failed_robot_recovery drawn drawn "t1" 1 "s1" a_plan 7 broken_db))
      (after (apply_failed_robot_recovery drawn drawn "t1" 1 "s1" a_plan 7 broken_db) broken_db)
      refl
