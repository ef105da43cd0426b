-- ===== src/Store/WorkflowTests.antt =====
-- Transitions of a sample workflow.
use semantic_framework.Prelude.{order_by, ℕ, String, ◌≡◌, refl, some, List, [], ◌∷◌, ◌≤◌}
use semantic_framework.Prelude.Table.{find, update, affected}
use semantic_framework.Store.Status.{completed}
use semantic_framework.Store.Rows.{Workflow, Db}
use semantic_framework.Store.Samples.{a_db, a_workflow}
use semantic_framework.Store.History.{after}
use semantic_framework.Store.Graph.{Edge, Degree, visit, drain}
use semantic_framework.Store.GraphBounds.{first_visit, visit-drain_terminate}
use semantic_framework.Store.Tables.{list_tasks, list_sub_tasks}
use semantic_framework.Store.Workflow.{
  transition_workflow_with_reason, release_project, save_workflow_revision, get_workflow_view,
  sub_tasks_of,
}
use semantic_framework.Store.WorkflowSteps.{
  WorkflowMoved, moved_workflow, transition_workflow_with_reason-WorkflowMoved,
}

abbrev w1_done : Workflow
w1_done = moved_workflow completed "" 9 a_workflow

abbrev done_db : Db
done_db = after (transition_workflow_with_reason "w1" 3 completed "" 9 a_db) a_db

transition_workflow_with_reason-WorkflowMoved_example :
    WorkflowMoved "w1" 3 completed "" 9 a_db w1_done done_db
unfolding find update affected transition_workflow_with_reason release_project
    save_workflow_revision get_workflow_view sub_tasks_of list_tasks list_sub_tasks order_by
transition_workflow_with_reason-WorkflowMoved_example =
    transition_workflow_with_reason-WorkflowMoved "w1" 3 completed "" 9 a_db w1_done done_db refl

-- Two ids in a cycle behind a third: the loops end, and two ids are left.
abbrev some_ids : List String
some_ids = "a" ∷ "b" ∷ "c" ∷ []

abbrev some_edges : List Edge
some_edges =
    record { source = "a"; target = "b" }
    ∷ record { source = "b"; target = "c" }
    ∷ record { source = "c"; target = "b" }
    ∷ []

visit-drain_terminate_example :
    ((n : ℕ) × (visit some_edges 4 0 (first_visit some_ids some_edges) ≡ some n) × (n ≤ 3))
    × ((ds : List Degree) × (drain some_edges 4 (first_visit some_ids some_edges) ≡ some ds))
visit-drain_terminate_example = visit-drain_terminate some_ids some_edges
