-- ===== src/Store/Runnable.antt =====
-- `ListRunnableSubTasks` and `ListRunnableTasks` of internal/store/workflow.go.
use semantic_framework.Prelude.{order_by, String, Bool, not, ◌&&◌, List, ◌==◌, any, select}
use semantic_framework.Store.Status.{pending, completed, eq_status}
use semantic_framework.Store.Rows.{Task, SubTask, Db}
use semantic_framework.Store.Tables.{task_order, sub_task_order}

-- The rows of `ListRunnableSubTasks`.
abbrev pub sub_task_is_ready : Db → SubTask → Bool
sub_task_is_ready db s =
    eq_status s.status pending
    && not (
        any
          (λ d.
            d.sub_task_id == s.id
            && any (λ p. p.id == d.depends_on_sub_task_id && not (eq_status p.status completed))
                db.sub_tasks)
          db.sub_task_dependencies)

unfoldable pub list_runnable_sub_tasks : String → Db → List SubTask
unfolding order_by
list_runnable_sub_tasks task_id db =
    order_by sub_task_order
      (select (λ s. s.task_id == task_id && sub_task_is_ready db s) db.sub_tasks)

-- The rows of `ListRunnableTasks`.
abbrev pub task_is_ready : Db → Task → Bool
task_is_ready db t =
    eq_status t.status pending
    && not (
        any
          (λ d.
            d.task_id == t.id
            && any (λ p. p.id == d.depends_on_task_id && not (eq_status p.status completed))
                db.tasks)
          db.task_dependencies)

unfoldable pub list_runnable_tasks : String → Db → List Task
unfolding order_by
list_runnable_tasks workflow_id db =
    order_by task_order (select (λ t. t.workflow_id == workflow_id && task_is_ready db t) db.tasks)
