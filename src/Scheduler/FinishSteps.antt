-- ===== src/Scheduler/FinishSteps.antt =====
-- The end of a workflow that is being stopped (`convergeStoppedWorkflow` of
-- internal/workflow/scheduler.go).
use semantic_framework.Prelude.{
  ℕ, String, ◌≡◌, refl, Bool, true, false, not, ◌||◌, List, [], ◌∷◌, any, Result, ok, err, ◌≢◌, ◌⊎◌,
  inl, inr, ap, some, Error, All, All-map, any-eq-false, or-eq-true,
}
use semantic_framework.Store.Status.{
  Status, pending, running, paused, stopping, completed, failed, stopped, eq_status, eq_status→≡,
}
use semantic_framework.Store.Rows.{Workflow, Task, WorkflowView, Db}
use semantic_framework.Store.Workflow.{
  find_workflow, get_workflow_view, transition_workflow_with_reason,
}
use semantic_framework.Store.WorkflowSteps.{transition_workflow_with_reason-WorkflowMoved}
use semantic_framework.Scheduler.Gate.{Gate, release_task_resources}
use semantic_framework.Scheduler.Finish.{
  Service, is_live, converge_tasks, stopped_or_not, converge_end, converge_found,
  converge_stopped_workflow,
}

converge_tasks-any : (ts : List Task) (g : Gate) → (converge_tasks ts g).1 ≡ not (any is_live ts)
unfolding converge_tasks
converge_tasks-any [] g = refl
converge_tasks-any (t ∷ ts) g = go (λ h. converge_tasks-any ts h) (is_live t)
  where
    next : Bool → Gate × Bool
    next b = elim b [
      | true ↦ (g, false)
      | false ↦ converge_tasks ts (release_task_resources t.id g)
    ]

    go :
        ((h : Gate) → (converge_tasks ts h).1 ≡ not (any is_live ts))
        → (b : Bool) → (next b).1 ≡ not (b || any is_live ts)
    go rest true = refl
    go rest false = rest (release_task_resources t.id g)

-- A task that the end of the workflow has to wait for, and one that it does not.
abbrev pub IsMoving : Status → Type 0
IsMoving s = (s ≡ running) ⊎ ((s ≡ stopping) ⊎ (s ≡ paused))

abbrev pub IsResting : Status → Type 0
IsResting s = (s ≡ pending) ⊎ ((s ≡ completed) ⊎ ((s ≡ failed) ⊎ (s ≡ stopped)))

abbrev pub SomeMoving : List Task → Type 0
SomeMoving [] = ⊥
SomeMoving (t ∷ ts) = IsMoving t.status ⊎ SomeMoving ts

live-IsMoving :
    (s : Status)
    → (eq_status s running || eq_status s stopping || eq_status s paused) ≡ true
    → IsMoving s
live-IsMoving pending h = cc
live-IsMoving running h = inl refl
live-IsMoving paused h = inr (inr refl)
live-IsMoving stopping h = inr (inl refl)
live-IsMoving completed h = cc
live-IsMoving failed h = cc
live-IsMoving stopped h = cc

rest-IsResting :
    (s : Status)
    → (eq_status s running || eq_status s stopping || eq_status s paused) ≡ false
    → IsResting s
rest-IsResting pending h = inl refl
rest-IsResting running h = cc
rest-IsResting paused h = cc
rest-IsResting stopping h = cc
rest-IsResting completed h = inr (inl refl)
rest-IsResting failed h = inr (inr (inl refl))
rest-IsResting stopped h = inr (inr (inr refl))

any-SomeMoving : (ts : List Task) → any is_live ts ≡ true → SomeMoving ts
any-SomeMoving [] h = cc
any-SomeMoving (t ∷ ts) h = elim (or-eq-true (is_live t) (any is_live ts) h) [
  | inl e ↦ inl (live-IsMoving t.status e)
  | inr e ↦ inr (any-SomeMoving ts e)
]

-- The transition was refused, or the workflow is stopped with its reason and its tasks are as they
-- were.
abbrev pub IsEnd : WorkflowView → String → ℕ → Service → Service × Result (Unit {0}) → Type 0
IsEnd view id now s r =
    ((e : Error) × ((transition_workflow_with_reason id view.workflow.revision stopped
            view.workflow.reason now s.db
          ≡ err e)
        × ((r.1 ≡ err e) × (r.0.db ≡ s.db))))
    ⊎ ((w : Workflow) × ((r.1 ≡ ok tt)
          × ((find_workflow id r.0.db ≡ some w)
              × ((w.status ≡ stopped)
                  × ((w.reason ≡ view.workflow.reason) × (r.0.db.tasks ≡ s.db.tasks))))))

-- What `convergeStoppedWorkflow` promises for the view that it reads.
abbrev pub Converges :
    Result (WorkflowView × Db) → String → ℕ → Service → Service × Result (Unit {0}) → Type 0
Converges (err e) id now s r = (r.1 ≡ err e) × (r.0.db ≡ s.db)
Converges (ok (view, d)) id now s r =
    (((view.workflow.status ≢ stopping) ⊎ SomeMoving view.tasks)
      × ((r.1 ≡ ok tt) × (r.0.db ≡ s.db)))
    ⊎ ((view.workflow.status ≡ stopping)
        × (All (λ (t : Task). IsResting t.status) view.tasks × IsEnd view id now s r))

stopped_or_not-IsEnd :
    (view : WorkflowView) (id : String) (now : ℕ) (s : Service) (g : Gate)
    (r : Result (Workflow × Db))
    → transition_workflow_with_reason id view.workflow.revision stopped view.workflow.reason now
        s.db
      ≡ r
    → IsEnd view id now s (stopped_or_not r id (record s { gate = g }))
stopped_or_not-IsEnd view id now s g (err e) h = inl (e, (h, (refl, refl)))
stopped_or_not-IsEnd view id now s g (ok (w, db)) h =
    let m =
      transition_workflow_with_reason-WorkflowMoved id view.workflow.revision stopped
        view.workflow.reason now s.db w db h in
    inr
      (w, (refl, (m.stored, (ap (λ x. x.status) m.result, (ap (λ x. x.reason) m.result, m.tasks)))))

converge_end-Converges :
    (view : WorkflowView) (d : Db) (id : String) (now : ℕ) (s : Service) (c : Gate × Bool)
    (b : Bool)
    → any is_live view.tasks ≡ b
    → c.1 ≡ not b
    → view.workflow.status ≡ stopping
    → Converges (ok (view, d)) id now s (converge_end c view id now s)
converge_end-Converges view d id now s (g, false) true e n stops =
    inl (inr (any-SomeMoving view.tasks e), (refl, refl))
converge_end-Converges view d id now s (g, true) true e n stops = cc
converge_end-Converges view d id now s (g, false) false e n stops = cc
converge_end-Converges view d id now s (g, true) false e n stops = inr (
  stops,
  (
    All-map _ _ view.tasks (any-eq-false is_live view.tasks e) (λ t h. rest-IsResting t.status h),
    stopped_or_not-IsEnd view id now s g _ refl,
  ),
)

-- `convergeStoppedWorkflow` returns the error of reading the workflow and then changes nothing in
-- the store. Otherwise, if the workflow is not stopping or one of its tasks is running, stopping
-- or paused, it returns without an error and changes nothing in the store. Otherwise every task is
-- pending, completed, failed or stopped, and either the transition to stopped is refused, and its
-- error is returned with the store as it was, or the workflow is stored as stopped with the reason
-- it had, the tasks are as they were, and there is no error.
pub converge_stopped_workflow-contract :
    (id : String) (now : ℕ) (s : Service)
    → Converges (get_workflow_view id s.db) id now s (converge_stopped_workflow id now s)
unfolding converge_stopped_workflow
converge_stopped_workflow-contract id now s = go (get_workflow_view id s.db)
  where
    next : Result (WorkflowView × Db) → Service × Result (Unit {0})
    next r = elim r [
      | err e ↦ (s, err e)
      | ok (view, db) ↦ converge_found (eq_status view.workflow.status stopping) view id now s
    ]

    found :
        (view : WorkflowView) (d : Db) (b : Bool)
        → eq_status view.workflow.status stopping ≡ b
        → Converges (ok (view, d)) id now s (converge_found b view id now s)
    found view d false e = inl (inl (λ k. differs k), (refl, refl))
      where
        differs : view.workflow.status ≡ stopping → ⊥
        differs k = let t : eq_status view.workflow.status stopping ≡ true = rw k refl in cc
    found view d true e =
        converge_end-Converges view d id now s (converge_tasks view.tasks s.gate)
          (any is_live view.tasks) refl (converge_tasks-any view.tasks s.gate)
          (eq_status→≡ view.workflow.status stopping e)

    go : (r : Result (WorkflowView × Db)) → Converges r id now s (next r)
    go (err e) = (refl, refl)
    go (ok (view, d)) = found view d (eq_status view.workflow.status stopping) refl
