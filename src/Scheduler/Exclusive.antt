-- ===== src/Scheduler/Exclusive.antt =====
-- Any sequence of the critical sections of Scheduler/Gate, and the reservations of tasks
-- (`reserveTask` and `releaseTask` of internal/workflow/scheduler.go).
use mathlib.Core.Path.{subst}
use semantic_framework.Prelude.{
  ℕ, String, ◌≡◌, refl, sym, ap, Bool, true, false, not, Option, none, some, List, [], ◌∷◌, ◌==◌,
  all, Map, put, is_some, and-eq-true, not-eq-true, eq_iff, if◌then◌else◌,
}
use semantic_framework.Scheduler.Gate.{
  Gate, reserve_unless, reserve_task, bind_if, bind_reserved_task_cancel, bind_run, call_held,
  cancel_task_attempt, free_for, claim_if, claim_task_resources, release_task,
  release_task_resources,
}

pub data GateOp : Type 0 where
  reserves : String → GateOp
  binds : String → ℕ → GateOp
  starts : String → ℕ → String → GateOp
  cancels : String → GateOp
  claims : List String → String → GateOp
  releases : String → GateOp
  frees : String → GateOp

unfoldable pub gate_step : GateOp → Gate → Gate
unfolding reserve_task bind_reserved_task_cancel claim_task_resources
gate_step (reserves id) g = (reserve_task id g).0
gate_step (binds id cancel) g = (bind_reserved_task_cancel id cancel g).0
gate_step (starts id cancel run_id) g = bind_run id cancel run_id g
gate_step (cancels id) g = cancel_task_attempt id g
gate_step (claims keys id) g = (claim_task_resources keys id g).0
gate_step (releases id) g = release_task id g
gate_step (frees id) g = release_task_resources id g

unfoldable pub gate_run : List GateOp → Gate → Gate
unfolding gate_step
gate_run [] g = g
gate_run (op ∷ ops) g = gate_run ops (gate_step op g)

-- The operation is not a `releaseTask` of the task.
abbrev pub keeps_task : String → GateOp → Bool
keeps_task id (releases other) = not (id == other)
keeps_task id op = true

abbrev IsActive : String → Gate → Type 0
IsActive id g = is_some (g.active_tasks id) ≡ true

call_held-tasks : (o : Option (Option ℕ)) (g : Gate) → (call_held o g).active_tasks ≡ g.active_tasks
call_held-tasks none g = refl
call_held-tasks (some none) g = refl
call_held-tasks (some (some c)) g = refl

put-IsSome :
    {V : Type 0} (id k : String) (v : V) (m : Map V)
    → is_some (m id) ≡ true
    → is_some (put k v m id) ≡ true
put-IsSome id k v m h = go (id == k)
  where
    go : (b : Bool) → is_some (if b then some v else m id) ≡ true
    go true = refl
    go false = h

pub same_text : (s : String) → (s == s) ≡ true
same_text s = (eq_iff s s).1 refl

pub put-here : {V : Type 0} (k : String) (v : V) (m : Map V) → put k v m k ≡ some v
put-here k v m = rw (same_text k) refl

gate_step-IsActive :
    (id : String) (op : GateOp) (g : Gate)
    → keeps_task id op ≡ true
    → IsActive id g
    → IsActive id (gate_step op g)
unfolding gate_step reserve_task bind_reserved_task_cancel bind_run cancel_task_attempt
    claim_task_resources release_task release_task_resources
gate_step-IsActive id (reserves k) g h i = go (g.active_tasks k)
  where
    go : (o : Option (Option ℕ)) → IsActive id (reserve_unless o k g).0
    go none = put-IsSome id k none g.active_tasks i
    go (some x) = i
gate_step-IsActive id (binds k c) g h i = go (g.active_tasks k)
  where
    go : (o : Option (Option ℕ)) → IsActive id (bind_if o k c g).0
    go none = i
    go (some x) = put-IsSome id k (some c) g.active_tasks i
gate_step-IsActive id (starts k c r) g h i = put-IsSome id k (some c) g.active_tasks i
gate_step-IsActive id (cancels k) g h i =
    subst (λ (m : Map (Option ℕ)). is_some (m id) ≡ true)
      (sym (call_held-tasks (g.active_tasks k) g)) i
gate_step-IsActive id (claims keys k) g h i = go (all (λ r. free_for k (g.active_resources r)) keys)
  where
    go : (b : Bool) → IsActive id (claim_if b keys k g).0
    go true = i
    go false = i
gate_step-IsActive id (releases k) g h i = rw (not-eq-true (id == k) h) i
gate_step-IsActive id (frees k) g h i = i

gate_run-IsActive :
    (id : String) (ops : List GateOp) (g : Gate)
    → all (keeps_task id) ops ≡ true
    → IsActive id g
    → IsActive id (gate_run ops g)
unfolding gate_run
gate_run-IsActive id [] g h i = i
gate_run-IsActive id (op ∷ ops) g h i =
    let (now, later) = and-eq-true (keeps_task id op) (all (keeps_task id) ops) h in
    gate_run-IsActive id ops (gate_step op g) later (gate_step-IsActive id op g now i)

reserved-IsActive : (id : String) (g h : Gate) → reserve_task id g ≡ (h, true) → IsActive id h
unfolding reserve_task
reserved-IsActive id g h e = go (g.active_tasks id) e
  where
    go : (o : Option (Option ℕ)) → reserve_unless o id g ≡ (h, true) → IsActive id h
    go none e =
        subst (IsActive id) (ap (λ (r : Gate × Bool). r.0) e)
          (ap is_some (put-here id none g.active_tasks))
    go (some x) e = cc

refused-IsActive : (id : String) (g : Gate) → IsActive id g → reserve_task id g ≡ (g, false)
unfolding reserve_task
refused-IsActive id g i = go (g.active_tasks id) i
  where
    go : (o : Option (Option ℕ)) → is_some o ≡ true → reserve_unless o id g ≡ (g, false)
    go none e = cc
    go (some x) e = refl

-- Once a task has been reserved, every other attempt to reserve it is refused and changes nothing,
-- whatever happens in between, until `releaseTask` is called for it.
pub reserved-until_released :
    (id : String) (g h : Gate) (ops : List GateOp)
    → reserve_task id g ≡ (h, true)
    → all (keeps_task id) ops ≡ true
    → reserve_task id (gate_run ops h) ≡ (gate_run ops h, false)
reserved-until_released id g h ops e kept =
    refused-IsActive id (gate_run ops h)
      (gate_run-IsActive id ops h kept (reserved-IsActive id g h e))
