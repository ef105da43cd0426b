-- ===== src/Scheduler/FinishTests.antt =====
-- The end of a sample workflow.
use semantic_framework.Prelude.{◌≡◌, refl, true, false, [], ◌∷◌}
use semantic_framework.Store.Status.{stopping, completed, stopped, failed}
use semantic_framework.Store.Samples.{a_db, a_workflow, a_task, a_sub_task}
use semantic_framework.Store.Workflow.{get_workflow_view}
use semantic_framework.Scheduler.Gate.{new_gate}
use semantic_framework.Scheduler.Finish.{
  Service, converge_stopped_workflow, sub_task_satisfied_for_completion,
}
use semantic_framework.Scheduler.FinishSteps.{Converges, converge_stopped_workflow-contract}

abbrev stopping_service : Service
stopping_service = record {
  db = record a_db {
    workflows = record a_workflow { status = stopping; reason = "user_stopped" } ∷ [];
    tasks = a_task "t1" 1 stopped ∷ a_task "t3" 3 completed ∷ [];
  };
  gate = new_gate;
  notes = [];
}

converge_stopped_workflow-contract_example :
    Converges
      (get_workflow_view "w1" stopping_service.db)
      "w1"
      9
      stopping_service
      (converge_stopped_workflow "w1" 9 stopping_service)
converge_stopped_workflow-contract_example =
    converge_stopped_workflow-contract "w1" 9 stopping_service

-- A failed step counts as done only after it has been replaced.
replaced_step_satisfies :
    sub_task_satisfied_for_completion
      (record (a_sub_task "s1" "t1" 0 failed) { waiting_reason = "replaced_after_failure" })
    ≡ true
unfolding sub_task_satisfied_for_completion
replaced_step_satisfies = refl

failed_step_does_not : sub_task_satisfied_for_completion (a_sub_task "s1" "t1" 0 failed) ≡ false
unfolding sub_task_satisfied_for_completion
failed_step_does_not = refl
