-- ===== src/Store/Plan.antt =====
-- The replacement of the whole plan of a workflow (`replacePlanTx` of internal/store/workflow.go).
-- `new_task_id` and `fresh` are the ids that the program draws for ids that are taken.
use semantic_framework.Prelude.{
  ℕ, ◌+◌, String, Bool, not, ◌&&◌, ◌||◌, none, List, [], ◌∷◌, ◌==◌, any, select, trim_space,
  if◌then◌else◌,
}
use semantic_framework.Store.Status.{pending}
use semantic_framework.Store.Rows.{Workflow, Task, TaskDraft, DraftDependency, WorkflowDraft, Db}
use semantic_framework.Store.Tx.{Tx, ◌>>=◌, ◌>>◌, return, gets, modify}
use semantic_framework.Store.Tables.{json_or, insert_task, insert_task_dependency}
use semantic_framework.Store.SubTask.{id_of, allocate_sub_task_ids, insert_plan}

abbrev pub in_workflow : String → Db → String → Bool
in_workflow workflow_id db task_id =
    any (λ t. t.id == task_id && t.workflow_id == workflow_id) db.tasks

-- The four `DELETE` statements.
unfoldable pub delete_plan : String → Tx (Unit {0})
delete_plan workflow_id = modify (λ db. record db {
  task_dependencies = select (λ d. not (d.workflow_id == workflow_id)) db.task_dependencies;
  sub_task_dependencies =
      select (λ d. not (in_workflow workflow_id db d.task_id)) db.sub_task_dependencies;
  sub_tasks = select (λ s. not (in_workflow workflow_id db s.task_id)) db.sub_tasks;
  tasks = select (λ t. not (t.workflow_id == workflow_id)) db.tasks;
})

module _ (prefix : String → String) (new_task_id : ℕ → String) where
  unfoldable pub allocate_task_ids : ℕ → List TaskDraft → List Task → List (String × String)
  allocate_task_ids i [] rows = []
  allocate_task_ids i (item ∷ items) rows =
      let taken = any (λ t. t.id == item.id || t.context_id == prefix item.id) rows in
      (item.id, if taken then new_task_id i else item.id) ∷ allocate_task_ids (i + 1) items rows

-- A row as `INSERT INTO tasks` makes it; the other columns have the defaults of the schema.
abbrev pub new_task : (String → String) → String → String → ℕ → TaskDraft → ℕ → Task
new_task prefix id workflow_id position item now = record {
  id = id;
  workflow_id = workflow_id;
  position = position;
  required_role = item.required_role;
  required_capabilities = json_or item.required_capabilities "[]";
  resource_requirements = json_or item.resource_requirements "{}";
  assigned_agent_id = "";
  assigned_robot_id = "";
  assignment_revision = 0;
  goal = trim_space item.goal;
  input = json_or item.input "{}";
  completion_criteria = json_or item.completion_criteria "[]";
  status = pending;
  waiting_reason = "";
  result_summary = "";
  evidence = "[]";
  context_id = prefix id;
  revision = 1;
  created_at = now;
  updated_at = now;
  ended_at = none;
}

-- `prefix` is `"task:" + id`.
module _ (prefix : String → String) (fresh : ℕ → ℕ → String) where
  unfoldable pub insert_tasks :
      String → ℕ → List (String × String) → List TaskDraft → ℕ → Tx (Unit {0})
  unfolding insert_task allocate_sub_task_ids insert_plan
  insert_tasks workflow_id position ids [] now = return tt
  insert_tasks workflow_id position ids (item ∷ items) now =
      let task_id = id_of item.id ids in
      do
        insert_task (new_task prefix task_id workflow_id position item now)
        sub_ids ← gets (λ db. allocate_sub_task_ids (fresh position) 0 item.sub_tasks db.sub_tasks)
        insert_plan task_id 0 sub_ids item.sub_tasks now
        insert_tasks workflow_id (position + 1) ids items now

unfoldable pub insert_task_dependencies :
    String → List (String × String) → List DraftDependency → Tx (Unit {0})
unfolding insert_task_dependency
insert_task_dependencies workflow_id ids [] = return tt
insert_task_dependencies workflow_id ids (d ∷ ds) = do
  insert_task_dependency (record {
    workflow_id = workflow_id;
    task_id = id_of d.task_id ids;
    depends_on_task_id = id_of d.depends_on_task_id ids;
  })
  insert_task_dependencies workflow_id ids ds

module _ (prefix : String → String) (new_task_id : ℕ → String) (fresh : ℕ → ℕ → String) where
  unfoldable pub replace_plan : Workflow → WorkflowDraft → ℕ → Tx (Unit {0})
  unfolding delete_plan allocate_task_ids insert_tasks insert_task_dependencies
  replace_plan workflow draft now = do
    delete_plan workflow.id
    ids ← gets (λ db. allocate_task_ids prefix new_task_id 0 draft.tasks db.tasks)
    insert_tasks prefix fresh workflow.id 0 ids draft.tasks now
    insert_task_dependencies workflow.id ids draft.dependencies
