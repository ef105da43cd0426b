-- ===== src/Store/Workflow.antt =====
-- Reads and transitions of workflows (internal/store/workflow.go).
use semantic_framework.Prelude.{
  order_by, column_order, ℕ, ◌+◌, String, Bool, true, not, ◌&&◌, ◌||◌, Option, List, [], ◌∷◌, ◌++◌,
  ◌==◌, eqb, text_lt, any, select, constraint, invalid_state, revision_conflict, not_found,
  if◌then◌else◌,
}
use semantic_framework.Prelude.Table.{find, update, affected}
use semantic_framework.Store.Status.{
  Status, running, paused, stopping, eq_status, unfinished, terminal_work_status,
  allowed_workflow_transitions,
}
use semantic_framework.Store.Rows.{
  Workflow, Task, SubTask, TaskDependency, SubTaskDependency, WorkflowView, Project, Db,
}
use semantic_framework.Store.Tx.{Tx, ◌>>=◌, ◌>>◌, return, gets, expect, require, modify}
use semantic_framework.Store.Tables.{workflow_key, list_tasks, list_sub_tasks}
use semantic_framework.Store.Task.{ended_when}

abbrev pub find_workflow : String → Db → Option Workflow
find_workflow id db = find workflow_key id db.workflows

abbrev pub get_workflow : String → Tx Workflow
get_workflow id db = expect (find_workflow id db) not_found db

-- The subtasks of each task, in the order of the tasks.
unfoldable pub sub_tasks_of : List Task → Db → List SubTask
unfolding list_sub_tasks
sub_tasks_of [] db = []
sub_tasks_of (t ∷ ts) db = list_sub_tasks t.id db ++ sub_tasks_of ts db

abbrev dependency_order : TaskDependency → TaskDependency → Bool
dependency_order d e =
    text_lt d.task_id e.task_id
    || d.task_id == e.task_id && text_lt d.depends_on_task_id e.depends_on_task_id

abbrev sub_dependency_order : SubTaskDependency → SubTaskDependency → Bool
sub_dependency_order d e =
    text_lt d.task_id e.task_id
    || d.task_id == e.task_id
      && (text_lt d.sub_task_id e.sub_task_id
          || d.sub_task_id == e.sub_task_id
            && text_lt d.depends_on_sub_task_id e.depends_on_sub_task_id)

unfoldable pub get_workflow_view : String → Tx WorkflowView
unfolding list_tasks sub_tasks_of order_by
get_workflow_view id = do
  workflow ← get_workflow id
  tasks ← gets (list_tasks id)
  subs ← gets (sub_tasks_of tasks)
  deps ←
      gets
        (λ db. order_by dependency_order (select (λ d. d.workflow_id == id) db.task_dependencies))
  sub_deps ← gets (λ db. order_by sub_dependency_order (
      select (λ d. any (λ t. t.id == d.task_id && t.workflow_id == id) db.tasks)
        db.sub_task_dependencies))
  return (record {
    workflow = workflow;
    tasks = tasks;
    sub_tasks = subs;
    dependencies = deps;
    sub_task_dependencies = sub_deps;
  })

unfoldable pub save_workflow_revision : String → ℕ → ℕ → Tx (Unit {0})
unfolding get_workflow_view
save_workflow_revision workflow_id revision now = do
  view ← get_workflow_view workflow_id
  clash ← gets (λ db.
      any (λ r. r.workflow_id == workflow_id && eqb r.revision revision) db.workflow_revisions)
  require (not clash) constraint
  modify (λ db. record db {
    workflow_revisions =
        db.workflow_revisions
        ++ record {
          workflow_id = workflow_id;
          revision = revision;
          snapshot = view;
          created_at = now;
        }
          ∷ [];
  })

abbrev pub project_key : Project → String
project_key p = p.id

-- A workflow that ends returns its project to development.
unfoldable pub release_project : Status → String → ℕ → Tx (Unit {0})
release_project to project_id now = modify (λ db.
    if terminal_work_status to
    then record db {
      projects =
          update project_key project_id (λ p. true)
            (λ p. record p { mode = "development"; revision = p.revision + 1; updated_at = now })
            db.projects;
    }
    else db)

-- A workflow that was confirmed at its revision is confirmed at the next one.
abbrev pub next_confirmed_revision : Workflow → ℕ → ℕ
next_confirmed_revision w expected =
    if eqb w.confirmed_revision w.revision then expected + 1 else w.confirmed_revision

unfoldable pub transition_workflow_with_reason : String → ℕ → Status → String → ℕ → Tx Workflow
unfolding release_project save_workflow_revision
transition_workflow_with_reason id expected to reason now = do
  current ← get_workflow id
  require (eqb current.revision expected) revision_conflict
  require (allowed_workflow_transitions current.status to) invalid_state
  require (not (eq_status to running && not (eqb current.confirmed_revision current.revision)))
      revision_conflict
  hit ← gets (λ db. affected workflow_key id (λ w. eqb w.revision expected) db.workflows)
  require hit revision_conflict
  modify (λ db. record db {
    workflows =
        update workflow_key id (λ w. eqb w.revision expected)
          (λ w. record w {
            status = to;
            reason = reason;
            revision = w.revision + 1;
            confirmed_revision = next_confirmed_revision current expected;
            updated_at = now;
            ended_at = ended_when to now;
          })
          db.workflows;
  })
  release_project to current.project_id now
  save_workflow_revision id (expected + 1) now
  get_workflow id

unfoldable pub transition_workflow : String → ℕ → Status → ℕ → Tx Workflow
unfolding transition_workflow_with_reason
transition_workflow id expected to now = transition_workflow_with_reason id expected to "" now

-- `ORDER BY updated_at DESC, id DESC`
unfoldable pub list_workflows : String → Bool → Db → List Workflow
unfolding order_by
list_workflows project_id include_ended db =
    order_by (λ (v w : Workflow). column_order w.updated_at w.id v.updated_at v.id)
      (select (λ w. w.project_id == project_id && (include_ended || unfinished w.status))
        db.workflows)

-- `ORDER BY created_at,id`
unfoldable pub list_unfinished_workflows : Db → List Workflow
unfolding order_by
list_unfinished_workflows db =
    order_by (λ (v w : Workflow). column_order v.created_at v.id w.created_at w.id)
      (select
        (λ w.
          eq_status w.status running || eq_status w.status paused || eq_status w.status stopping)
        db.workflows)
