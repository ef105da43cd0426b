-- ===== src/Scheduler/Finish.antt =====
-- How the scheduler ends tasks and workflows (internal/workflow/scheduler.go): `failTask`,
-- `stopPendingWork`, `convergeStoppedWorkflow` and `finishOrSchedule`.
use semantic_framework.Prelude.{
  ℕ, String, Bool, true, false, not, ◌&&◌, ◌||◌, List, [], ◌∷◌, ◌++◌, ◌==◌, any, all, Result, ok,
  err, if◌then◌else◌,
}
use semantic_framework.Store.Status.{
  Status, pending, running, paused, stopping, completed, failed, stopped, eq_status,
}
use semantic_framework.Store.Rows.{Workflow, Task, SubTask, TaskDependency, WorkflowView, Db}
use semantic_framework.Store.Tx.{Tx}
use semantic_framework.Store.Tables.{get_task, list_sub_tasks}
use semantic_framework.Store.Task.{transition_task}
use semantic_framework.Store.SubTask.{transition_sub_task}
use semantic_framework.Store.Workflow.{
  get_workflow, get_workflow_view, transition_workflow, transition_workflow_with_reason,
}
use semantic_framework.Store.History.{after}
use semantic_framework.Scheduler.Gate.{Gate, release_task_resources}

-- What the service tells others, in order: an event on the bus, a milestone in the conversation, the
-- closing summary of the leader, and a call of `schedule`.
pub data Note : Type 0 where
  published milestone : String → String → Note
  summarised scheduled : String → Note

pub record Service : Type 0 where
  pub db : Db
  pub gate : Gate
  pub notes : List Note

abbrev pub note : Note → Service → Service
note n s = record s { notes = s.notes ++ n ∷ [] }

-- A call of the store whose result is thrown away.
abbrev pub ignore {ℓ} : {A : Type ℓ} → Tx A → Db → Db
ignore m db = after (m db) db

unfoldable pub sub_task_satisfied_for_completion : SubTask → Bool
sub_task_satisfied_for_completion item =
    eq_status item.status completed
    || eq_status item.status failed && item.waiting_reason == "replaced_after_failure"
    || eq_status item.status stopped && item.waiting_reason == "revised_after_failure"

unfoldable pub has_active_sub_task : List SubTask → Bool
has_active_sub_task items =
    any
      (λ s.
        eq_status s.status pending
        || eq_status s.status running
        || eq_status s.status paused
        || eq_status s.status stopping)
      items

unfoldable pub task_sub_tasks_safely_terminal : List SubTask → Bool
task_sub_tasks_safely_terminal items =
    all
      (λ s. eq_status s.status completed || eq_status s.status stopped || eq_status s.status failed)
      items

-- `is_completed` is the map of the tasks' ids.
unfoldable pub dependencies_completed : String → List TaskDependency → (String → Bool) → Bool
dependencies_completed task_id deps is_completed =
    all (λ d. not (d.task_id == task_id) || is_completed d.depends_on_task_id) deps

-- A running step fails with the cause and a pending one is stopped; the others are left.
unfoldable pub fail_sub_tasks : String → List SubTask → ℕ → Db → Db
unfolding transition_sub_task
fail_sub_tasks cause [] now db = db
fail_sub_tasks cause (s ∷ ss) now db = fail_sub_tasks cause ss now (
    if eq_status s.status running
    then ignore (transition_sub_task s.id s.revision failed cause "" now) db
    else if eq_status s.status pending
    then ignore (transition_sub_task s.id s.revision stopped "task_failed" "" now) db
    else db)

abbrev pub fail_found : Task → String → ℕ → Service → Service
fail_found current cause now s =
    let db = fail_sub_tasks cause (list_sub_tasks current.id s.db) now s.db in
    let db' =
      (if eq_status current.status pending || eq_status current.status running
        then ignore (transition_task current.id current.revision failed cause "" "" now) db
        else db) in
    record s {
      db = db';
      gate = release_task_resources current.id s.gate;
      notes =
          s.notes
          ++ published "task.failed" current.workflow_id ∷ milestone "task_failed" current.id ∷ [];
    }

unfoldable pub fail_task : String → String → ℕ → Service → Service
unfolding fail_sub_tasks list_sub_tasks transition_task release_task_resources
fail_task task_id cause now s = elim (get_task task_id s.db) [
  | err e ↦ s
  | ok (current, db) ↦ fail_found current cause now s
]

-- The loops of `stopPendingWork`, which stop at the first error.
abbrev pub go_on {ℓ} :
    {A : Type ℓ} → Result (A × Db) → Db → (Db → Result (Unit {0}) × Db) → Result (Unit {0}) × Db
go_on (ok (a, db')) db next = next db'
go_on (err e) db next = (err e, db)

unfoldable pub stop_pending_tasks : List Task → ℕ → Db → Result (Unit {0}) × Db
unfolding transition_task
stop_pending_tasks [] now db = (ok tt, db)
stop_pending_tasks (t ∷ ts) now db = elim (eq_status t.status pending) [
  | true ↦
      go_on (transition_task t.id t.revision stopped "workflow_stopped" "" "" now db) db
        (λ db'. stop_pending_tasks ts now db')
  | false ↦ stop_pending_tasks ts now db
]

unfoldable pub stop_pending_sub_tasks : List SubTask → ℕ → Db → Result (Unit {0}) × Db
unfolding transition_sub_task
stop_pending_sub_tasks [] now db = (ok tt, db)
stop_pending_sub_tasks (s ∷ ss) now db = elim (eq_status s.status pending) [
  | true ↦
      go_on (transition_sub_task s.id s.revision stopped "workflow_stopped" "" now db) db
        (λ db'. stop_pending_sub_tasks ss now db')
  | false ↦ stop_pending_sub_tasks ss now db
]

abbrev pub then_tasks : Result (Unit {0}) × Db → List Task → ℕ → Result (Unit {0}) × Db
then_tasks (ok u, db) tasks now = stop_pending_tasks tasks now db
then_tasks (err e, db) tasks now = (err e, db)

unfoldable pub stop_pending_work : WorkflowView → ℕ → Db → Result (Unit {0}) × Db
unfolding stop_pending_sub_tasks stop_pending_tasks
stop_pending_work view now db =
    then_tasks (stop_pending_sub_tasks view.sub_tasks now db) view.tasks now

abbrev pub is_live : Task → Bool
is_live t = eq_status t.status running || eq_status t.status stopping || eq_status t.status paused

-- The loop of `convergeStoppedWorkflow`: it gives back the resources of each task until it meets one
-- that is not at rest, and tells whether it met none.
unfoldable pub converge_tasks : List Task → Gate → Gate × Bool
unfolding release_task_resources
converge_tasks [] g = (g, true)
converge_tasks (t ∷ ts) g = elim (is_live t) [
  | true ↦ (g, false)
  | false ↦ converge_tasks ts (release_task_resources t.id g)
]

-- The service and the error that is returned.
abbrev pub stopped_or_not : Result (Workflow × Db) → String → Service → Service × Result (Unit {0})
stopped_or_not (ok (w, db)) id s =
    (note (published "workflow.stopped" id) (record s { db = db }), ok tt)
stopped_or_not (err e) id s = (s, err e)

abbrev pub converge_end :
    Gate × Bool → WorkflowView → String → ℕ → Service → Service × Result (Unit {0})
converge_end (g, false) view id now s = (record s { gate = g }, ok tt)
converge_end (g, true) view id now s =
    stopped_or_not
      (transition_workflow_with_reason id view.workflow.revision stopped view.workflow.reason now
        s.db)
      id (record s { gate = g })

abbrev pub converge_found : Bool → WorkflowView → String → ℕ → Service → Service × Result (Unit {0})
converge_found true view id now s = converge_end (converge_tasks view.tasks s.gate) view id now s
converge_found false view id now s = (s, ok tt)

unfoldable pub converge_stopped_workflow : String → ℕ → Service → Service × Result (Unit {0})
unfolding converge_tasks transition_workflow_with_reason get_workflow_view
converge_stopped_workflow id now s = elim (get_workflow_view id s.db) [
  | err e ↦ (s, err e)
  | ok (view, db) ↦ converge_found (eq_status view.workflow.status stopping) view id now s
]

-- The end of a workflow: the event, the milestone and the summary, if the transition succeeded.
abbrev pub announce : Result (Workflow × Db) → String → String → String → Service → Service
announce (ok (w, db)) event milestone_name id s =
    note (summarised w.id)
      (note (milestone milestone_name "") (note (published event id) (record s { db = db })))
announce (err e) event milestone_name id s = s

abbrev pub fail_workflow : Result (Workflow × Db) → String → ℕ → Service → Service
fail_workflow (err e) id now s = s
fail_workflow (ok (current, db)) id now s = elim (eq_status current.status running) [
  | true ↦
      announce (transition_workflow_with_reason id current.revision failed "task_failed" now s.db)
        "workflow.failed" "workflow_failed" id s
  | false ↦ s
]

abbrev pub all_completed : List Task → Bool
all_completed [] = false
all_completed (t ∷ ts) = all (λ t. eq_status t.status completed) (t ∷ ts)

abbrev pub any_failed : List Task → Bool
any_failed ts = any (λ t. eq_status t.status failed) ts

-- What is done with a running workflow, by the two flags over its tasks.
abbrev pub finish_running : (failed all_done : Bool) → WorkflowView → String → ℕ → Service → Service
finish_running true all_done view id now s =
    let s' : Service = record s { db = (stop_pending_work view now s.db).1 } in
    fail_workflow (get_workflow id s'.db) id now s'
finish_running false true view id now s =
    announce (transition_workflow id view.workflow.revision completed now s.db) "workflow.completed"
      "workflow_completed" id s
finish_running false false view id now s = note (scheduled id) s

abbrev pub finish_by_status : Status → WorkflowView → String → ℕ → Service → Service
finish_by_status stopping view id now s = (converge_stopped_workflow id now s).0
finish_by_status running view id now s =
    finish_running (any_failed view.tasks) (all_completed view.tasks) view id now s
finish_by_status _ view id now s = s

unfoldable pub finish_or_schedule : String → ℕ → Service → Service
unfolding converge_stopped_workflow stop_pending_work transition_workflow get_workflow_view
finish_or_schedule id now s = elim (get_workflow_view id s.db) [
  | err e ↦ s
  | ok (view, db) ↦ finish_by_status view.workflow.status view id now s
]
