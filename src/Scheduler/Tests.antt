-- ===== src/Scheduler/Tests.antt =====
-- Runs of the scheduler's reservations and of its stop protocol.
use semantic_framework.Prelude.{ok, String, ◌≡◌, refl, ◌⊎◌, false, none, List, [], ◌∷◌, put}
use semantic_framework.Prelude.Table.{find}
use semantic_framework.Store.Status.{running, pending, paused}
use semantic_framework.Store.Rows.{Task, Db}
use semantic_framework.Store.History.{move_task}
use semantic_framework.Store.Samples.{a_db, a_task}
use semantic_framework.Scheduler.Gate.{Gate, new_gate, reserve_task, claim_task_resources, own_all}
use semantic_framework.Scheduler.Exclusive.{
  GateOp, reserves, binds, cancels, claims, releases, frees, gate_run, reserved-until_released,
}
use semantic_framework.Scheduler.Resources.{claimed-until_freed}
use semantic_framework.Scheduler.Stop.{Others, move_task_toward_stop}
use semantic_framework.Scheduler.Attempt.{IsSettled}
use semantic_framework.Scheduler.StopSteps.{IsContended, move_task_toward_stop-outcome}

abbrev t1_reserved : Gate
t1_reserved = record new_gate { active_tasks = put "t1" none new_gate.active_tasks }

abbrev others_at_work : List GateOp
others_at_work =
    binds "t1" 1
    ∷ reserves "t2"
    ∷ claims ("workspace:p1" ∷ []) "t2"
    ∷ cancels "t1"
    ∷ releases "t2"
    ∷ []

reserved-until_released_example :
    reserve_task "t1" (gate_run others_at_work t1_reserved)
    ≡ (gate_run others_at_work t1_reserved, false)
unfolding reserve_task
reserved-until_released_example =
    reserved-until_released "t1" new_gate t1_reserved others_at_work refl refl

abbrev workspace : List String
workspace = "workspace:p1" ∷ []

abbrev t1_owns : Gate
t1_owns = record new_gate { active_resources = put "workspace:p1" "t1" new_gate.active_resources }

claimed-until_freed_example :
    claim_task_resources workspace "t2" (gate_run (releases "t1" ∷ frees "t3" ∷ []) t1_owns)
    ≡ (gate_run (releases "t1" ∷ frees "t3" ∷ []) t1_owns, false)
unfolding claim_task_resources own_all
claimed-until_freed_example =
    claimed-until_freed workspace workspace "t1" "t2" "workspace:p1" new_gate t1_owns
      (releases "t1" ∷ frees "t3" ∷ []) refl refl refl refl refl refl

-- Another writer starts the task before the first attempt, which then fails, and the second one makes
-- it stopping; a third writer pauses it before it is read.
abbrev busy : Others
busy = record {
  before = λ _. move_task "t1" 1 running "" "" "" 5 ∷ [];
  between = λ _. [];
  reading = λ _. move_task "t1" 3 paused "waiting" "" "" 10 ∷ [];
}

move_task_toward_stop-outcome_example :
    ((t : Task) × ((db' : Db) × (move_task_toward_stop busy 3 (a_task "t1" 1 pending) 9 a_db
          ≡ (ok t, db'))
        × IsSettled busy "t1" t db'))
    ⊎ IsContended busy "t1" (move_task_toward_stop busy 3 (a_task "t1" 1 pending) 9 a_db)
unfolding find
move_task_toward_stop-outcome_example =
    move_task_toward_stop-outcome busy (a_task "t1" 1 pending) 9 a_db refl
