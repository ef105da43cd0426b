-- ===== src/Store/PlanTests.antt =====
-- Plans of subtasks: a cycle is refused, a dependency that is named twice passes the validation but
-- not the schema, and a workflow draft is not checked for cycles among subtasks.
use semantic_framework.Store.PlanOrder.{IsLayered, validate_sub_task_drafts_iff}
use semantic_framework.Prelude.{
  ◌↔◌, ℕ, String, ◌≡◌, refl, List, [], ◌∷◌, ok, err, invalid_state, constraint, trim_space,
}
use semantic_framework.Prelude.Table.{find, update, affected}
use semantic_framework.Store.Rows.{SubTaskDraft, WorkflowDraft}
use semantic_framework.Store.Samples.{a_db, a_draft}
use semantic_framework.Store.Graph.{
  drain, delete, is_drained, is_acyclic, visit, relax, lower, released,
}
use semantic_framework.Store.Tables.{insert_sub_task, insert_sub_task_dependency}
use semantic_framework.Store.Draft.{
  fill_drafts, check_task_dependencies, validate_draft, valid_sub_task_kind, check_dependencies,
  check_all_dependencies, fill_sub_drafts, validate_sub_task_drafts, validate_sub_task_drafts_copy,
}
use semantic_framework.Store.SubTask.{
  allocate_sub_task_ids, insert_dependencies, insert_plan, write_first_plan, set_task_sub_tasks,
}

abbrev drawn : ℕ → String
drawn n = "subtask-new"

abbrev cyclic : List SubTaskDraft
cyclic = a_draft "a" ("b" ∷ []) ∷ a_draft "b" ("a" ∷ []) ∷ []

abbrev doubled : List SubTaskDraft
doubled = a_draft "a" [] ∷ a_draft "b" ("a" ∷ "a" ∷ []) ∷ []

abbrev chained : List SubTaskDraft
chained = a_draft "a" ("b" ∷ []) ∷ a_draft "b" [] ∷ []

validate_sub_task_drafts_iff_example :
    (validate_sub_task_drafts drawn chained ≡ ok chained) ↔ ((r : String → ℕ) × IsLayered r chained)
unfolding fill_sub_drafts valid_sub_task_kind trim_space check_all_dependencies check_dependencies
validate_sub_task_drafts_iff_example =
    validate_sub_task_drafts_iff drawn chained chained refl refl refl

cyclic_refused : validate_sub_task_drafts_copy drawn cyclic ≡ err invalid_state
unfolding valid_sub_task_kind check_dependencies check_all_dependencies fill_sub_drafts
    validate_sub_task_drafts validate_sub_task_drafts_copy is_acyclic visit relax lower released
    trim_space
cyclic_refused = refl

doubled_validated : validate_sub_task_drafts_copy drawn doubled ≡ ok tt
unfolding valid_sub_task_kind check_dependencies check_all_dependencies fill_sub_drafts
    validate_sub_task_drafts validate_sub_task_drafts_copy is_acyclic visit relax lower released
    trim_space
doubled_validated = refl

doubled_refused : set_task_sub_tasks drawn drawn "t1" 1 doubled 5 a_db ≡ err constraint
unfolding valid_sub_task_kind check_dependencies check_all_dependencies fill_sub_drafts
    validate_sub_task_drafts is_acyclic visit relax lower released trim_space find update affected
    insert_sub_task insert_sub_task_dependency allocate_sub_task_ids insert_dependencies insert_plan
    write_first_plan set_task_sub_tasks
doubled_refused = refl

-- A workflow draft whose subtasks wait for each other passes too: only its tasks are checked for a
-- cycle.
abbrev a_workflow_draft : WorkflowDraft
a_workflow_draft = record {
  goal = "tidy";
  constraints = "";
  completion_criteria = "";
  map_scope = "";
  tasks =
      record {
        id = "t";
        required_role = "worker";
        required_capabilities = "";
        resource_requirements = "";
        goal = "look";
        input = "";
        completion_criteria = "";
        sub_tasks = cyclic;
      }
      ∷ [];
  dependencies = [];
}

cyclic_sub_tasks_validated :
    validate_draft drawn (λ i j. "subtask-new") a_workflow_draft ≡ ok a_workflow_draft
unfolding valid_sub_task_kind check_dependencies check_all_dependencies fill_sub_drafts fill_drafts
    check_task_dependencies validate_draft is_drained drain delete relax lower released trim_space
cyclic_sub_tasks_validated = refl
