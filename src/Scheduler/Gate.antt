-- ===== src/Scheduler/Gate.antt =====
-- What the workflow service holds in memory under its lock `mu` (internal/workflow/scheduler.go): the
-- tasks that are reserved or run, their runs, and the owners of resources. Each function is one
-- critical section.
use Prim.Native.String as Text
use semantic_framework.Prelude.{
  ℕ, String, Bool, true, false, Option, none, some, List, [], ◌∷◌, ◌++◌, ◌==◌, all, Map, empty_map,
  put, erase, if◌then◌else◌, ◌||◌,
}
use semantic_framework.Store.Rows.{Workflow, Task}

-- A cancel function is known by a number, and `cancelled` lists those that have been called. A
-- reserved task without a run holds `nil`.
pub record Gate : Type 0 where
  pub active_tasks : Map (Option ℕ)
  pub active_runs : Map String
  pub active_resources : Map String
  pub cancelled : List ℕ

abbrev pub new_gate : Gate
new_gate = record {
  active_tasks = empty_map;
  active_runs = empty_map;
  active_resources = empty_map;
  cancelled = [];
}

abbrev pub reserve_unless : Option (Option ℕ) → String → Gate → Gate × Bool
reserve_unless (some held) id g = (g, false)
reserve_unless none id g = (record g { active_tasks = put id none g.active_tasks }, true)

unfoldable pub reserve_task : String → Gate → Gate × Bool
reserve_task id g = reserve_unless (g.active_tasks id) id g

abbrev pub call_cancel : ℕ → Gate → Gate
call_cancel cancel g = record g { cancelled = g.cancelled ++ cancel ∷ [] }

abbrev pub bind_if : Option (Option ℕ) → String → ℕ → Gate → Gate × Bool
bind_if none id cancel g = (call_cancel cancel g, false)
bind_if (some held) id cancel g =
    (record g { active_tasks = put id (some cancel) g.active_tasks }, true)

unfoldable pub bind_reserved_task_cancel : String → ℕ → Gate → Gate × Bool
bind_reserved_task_cancel id cancel g = bind_if (g.active_tasks id) id cancel g

-- The critical section at the end of `launchReservedTask` and `launchRunningTask`.
unfoldable pub bind_run : String → ℕ → String → Gate → Gate
bind_run id cancel run_id g = record g {
  active_tasks = put id (some cancel) g.active_tasks;
  active_runs = put id run_id g.active_runs;
}

-- `cancelTaskAttempt` without the transition of the run: it reads the cancel function and calls it.
abbrev pub call_held : Option (Option ℕ) → Gate → Gate
call_held none g = g
call_held (some none) g = g
call_held (some (some cancel)) g = call_cancel cancel g

unfoldable pub cancel_task_attempt : String → Gate → Gate
cancel_task_attempt id g = call_held (g.active_tasks id) g

-- `workspace_write` is what `encoding/json` reads from the requirements; it is false when they do
-- not decode.
unfoldable pub task_resource_keys : (String → Bool) → Workflow → Task → List String
task_resource_keys workspace_write workflow task =
    if workspace_write task.resource_requirements
    then Text.◌++◌ "workspace:" workflow.project_id ∷ []
    else []

-- A key with no owner reads as the empty text.
abbrev pub free_for : String → Option String → Bool
free_for id none = true
free_for id (some owner) = owner == "" || owner == id

unfoldable pub own_all : String → List String → Map String → Map String
own_all id [] m = m
own_all id (k ∷ ks) m = own_all id ks (put k id m)

abbrev pub claim_if : Bool → List String → String → Gate → Gate × Bool
claim_if true keys id g = (record g { active_resources = own_all id keys g.active_resources }, true)
claim_if false keys id g = (g, false)

-- All the keys or none.
unfoldable pub claim_task_resources : List String → String → Gate → Gate × Bool
claim_task_resources keys id g =
    claim_if (all (λ k. free_for id (g.active_resources k)) keys) keys id g

unfoldable pub release_task : String → Gate → Gate
release_task id g = record (call_held (g.active_tasks id) g) {
  active_tasks = erase id g.active_tasks;
  active_runs = erase id g.active_runs;
}

abbrev pub unless_owned : String → Option String → Option String
unless_owned id none = none
unless_owned id (some owner) = if owner == id then none else some owner

unfoldable pub release_task_resources : String → Gate → Gate
release_task_resources id g = record g {
  active_resources = λ k. unless_owned id (g.active_resources k);
}
