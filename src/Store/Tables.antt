-- ===== src/Store/Tables.antt =====
-- The statements on the tables: reads by primary key, guarded updates that report a conflict when
-- no row was affected, and inserts that the keys and indexes of the schema may refuse
-- (internal/store/workflow.go, internal/store/migrate.go).
use semantic_framework.Prelude.{
  order_by, column_order, String, Bool, not, ◌&&◌, ◌||◌, Option, List, [], ◌∷◌, ◌++◌, ◌==◌, eqb,
  any, select, Error, constraint, revision_conflict, not_found, if◌then◌else◌,
}
use semantic_framework.Prelude.Table.{find, update, affected}
use semantic_framework.Store.Rows.{Workflow, Task, SubTask, TaskDependency, SubTaskDependency, Db}
use semantic_framework.Store.Tx.{Tx, ◌>>=◌, ◌>>◌, expect, gets, require, modify}

abbrev pub task_key : Task → String
task_key t = t.id

abbrev pub sub_task_key : SubTask → String
sub_task_key s = s.id

abbrev pub workflow_key : Workflow → String
workflow_key w = w.id

abbrev pub find_task : String → Db → Option Task
find_task id db = find task_key id db.tasks

abbrev pub find_sub_task : String → Db → Option SubTask
find_sub_task id db = find sub_task_key id db.sub_tasks

-- `json.RawMessage` of length 0 is stored as the fallback.
abbrev pub json_or : String → String → String
json_or raw fallback = if raw == "" then fallback else raw

abbrev pub task_order : Task → Task → Bool
task_order t u = column_order t.position t.id u.position u.id

abbrev pub sub_task_order : SubTask → SubTask → Bool
sub_task_order s t = column_order s.position s.id t.position t.id

unfoldable pub list_tasks : String → Db → List Task
unfolding order_by
list_tasks workflow_id db =
    order_by task_order (select (λ t. t.workflow_id == workflow_id) db.tasks)

unfoldable pub list_sub_tasks : String → Db → List SubTask
unfolding order_by
list_sub_tasks task_id db =
    order_by sub_task_order (select (λ s. s.task_id == task_id) db.sub_tasks)

abbrev pub get_task : String → Tx Task
get_task id db = expect (find_task id db) not_found db

abbrev pub get_sub_task : String → Tx SubTask
get_sub_task id db = expect (find_sub_task id db) not_found db

-- `UPDATE tasks SET … WHERE id=? AND …`, with `ErrRevisionConflict` if no row is affected.
abbrev pub update_task : String → (Task → Bool) → (Task → Task) → Tx (Unit {0})
update_task id test change = do
  hit ← gets (λ db. affected task_key id test db.tasks)
  require hit revision_conflict
  modify (λ db. record db { tasks = update task_key id test change db.tasks })

abbrev pub update_sub_task : Error → String → (SubTask → Bool) → (SubTask → SubTask) → Tx (Unit {0})
update_sub_task refused id test change = do
  hit ← gets (λ db. affected sub_task_key id test db.sub_tasks)
  require hit refused
  modify (λ db. record db { sub_tasks = update sub_task_key id test change db.sub_tasks })

-- The primary key and the unique index on (task_id,position).
sub_task_clash : SubTask → List SubTask → Bool
sub_task_clash s rows =
    any (λ r. r.id == s.id || r.task_id == s.task_id && eqb r.position s.position) rows

unfoldable pub insert_sub_task : SubTask → Tx (Unit {0})
unfolding sub_task_clash
insert_sub_task s = do
  clash ← gets (λ db. sub_task_clash s db.sub_tasks)
  require (not clash) constraint
  modify (λ db. record db { sub_tasks = db.sub_tasks ++ s ∷ [] })

-- The primary key, the unique index on (workflow_id,position) and the unique column context_id.
task_clash : Task → List Task → Bool
task_clash t rows =
    any
      (λ r.
        r.id == t.id
        || r.workflow_id == t.workflow_id && eqb r.position t.position
        || r.context_id == t.context_id)
      rows

unfoldable pub insert_task : Task → Tx (Unit {0})
unfolding task_clash
insert_task t = do
  clash ← gets (λ db. task_clash t db.tasks)
  require (not clash) constraint
  modify (λ db. record db { tasks = db.tasks ++ t ∷ [] })

-- The primary key (subtask_id,depends_on_subtask_id).
sub_task_dependency_clash : SubTaskDependency → List SubTaskDependency → Bool
sub_task_dependency_clash d rows =
    any
      (λ r. r.sub_task_id == d.sub_task_id && r.depends_on_sub_task_id == d.depends_on_sub_task_id)
      rows

unfoldable pub insert_sub_task_dependency : SubTaskDependency → Tx (Unit {0})
unfolding sub_task_dependency_clash
insert_sub_task_dependency d = do
  clash ← gets (λ db. sub_task_dependency_clash d db.sub_task_dependencies)
  require (not clash) constraint
  modify (λ db. record db { sub_task_dependencies = db.sub_task_dependencies ++ d ∷ [] })

-- The primary key (task_id,depends_on_task_id).
task_dependency_clash : TaskDependency → List TaskDependency → Bool
task_dependency_clash d rows =
    any (λ r. r.task_id == d.task_id && r.depends_on_task_id == d.depends_on_task_id) rows

unfoldable pub insert_task_dependency : TaskDependency → Tx (Unit {0})
unfolding task_dependency_clash
insert_task_dependency d = do
  clash ← gets (λ db. task_dependency_clash d db.task_dependencies)
  require (not clash) constraint
  modify (λ db. record db { task_dependencies = db.task_dependencies ++ d ∷ [] })
