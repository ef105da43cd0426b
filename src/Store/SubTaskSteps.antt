-- ===== src/Store/SubTaskSteps.antt =====
-- The methods of Store/SubTask and the development of rows.
use semantic_framework.Prelude.{
  ℕ, String, ◌≡◌, refl, sym, ap, ◌∙◌, Bool, true, false, not, ◌&&◌, ◌||◌, some, ◌==◌, arith, eqb,
  trim_space, Error, invalid_state, revision_conflict, not_found,
}
use semantic_framework.Store.Status.{
  Status, running, paused, eq_status, terminal_work_status, allowed_task_transitions,
  allowed-unfinished,
}
use semantic_framework.Store.Rows.{SubTask, Db}
use semantic_framework.Store.Tx.{
  ◌>>◌, require, Returns, Returns-bind, Returns-expect, Returns-require,
}
use semantic_framework.Store.Moves.{stay, Moves-one, allowed, Later-same, find-Evolves}
use semantic_framework.Store.Tables.{sub_task_key, find_sub_task, get_sub_task, update_sub_task}
use semantic_framework.Store.SubTask.{
  write_sub_task_transition, check_sub_task_transition, transition_sub_task,
  attach_sub_task_execution, resume_paused_agent_step,
}
use semantic_framework.Store.Evolution.{
  sub_task_revision, sub_task_status, SubTaskLater, DbEvolves, DbEvolves-refl, Keeps, sub_task_step,
  requeued, Keeps-bind, Keeps-update_sub_task,
}
use semantic_framework.Store.TaskSteps.{Keeps-get_sub_task}

Keeps-update_get_sub :
    (db : Db) (e : Error) (id : String) (test : SubTask → Bool) (change : SubTask → SubTask)
    → ((s : SubTask) → find_sub_task id db ≡ some s → test s ≡ true → SubTaskLater s (change s))
    → Keeps (update_sub_task e id test change >> get_sub_task id) db
Keeps-update_get_sub db e id test change step =
    Keeps-bind db (update_sub_task e id test change) (λ _. get_sub_task id)
      (Keeps-update_sub_task db e id test change step) (λ _ db'. Keeps-get_sub_task id db')

-- The checks of `TransitionSubTask`, as they held of the row that was read.
pub record SubChecked (id : String) (expected : ℕ) (to : Status) (seen : Db) : Type 0 where
  pub row : SubTask
  pub found : find_sub_task id seen ≡ some row
  pub same : row.revision ≡ expected
  pub legal : allowed_task_transitions row.status to ≡ true

check-SubChecked :
    (id : String) (expected : ℕ) (to : Status) (db : Db)
    → Returns
        (check_sub_task_transition id expected to)
        db
        (λ _ db'. (db' ≡ db) × SubChecked id expected to db)
unfolding check_sub_task_transition
check-SubChecked id expected to db =
    Returns-expect db _ (find_sub_task id db) not_found _ λ s found.
      Returns-require db _ (eqb s.revision expected) revision_conflict _
        λ same. legal_row s found same (allowed_task_transitions s.status to) refl
  where
    legal_row :
        (s : SubTask)
        → find_sub_task id db ≡ some s
        → eqb s.revision expected ≡ true
        → (b : Bool) → allowed_task_transitions s.status to ≡ b
        → Returns (require b invalid_state) db (λ _ db'. (db' ≡ db) × SubChecked id expected to db)
    legal_row s found same true e u db' h =
        (cc, record { row = s; found = found; same = ground arith; legal = e })
    legal_row s found same false e u db' h = cc

checked_sub_row :
    (id : String) (expected : ℕ) (to : Status) (seen live : Db) (s : SubTask)
    → DbEvolves seen live
    → (c : SubChecked id expected to seen) → find_sub_task id live ≡ some s
    → s.revision ≡ expected
    → s ≡ c.row
checked_sub_row id expected to seen live s later c found same =
    let (y, found', stage) =
      find-Evolves sub_task_key sub_task_revision sub_task_status id seen.sub_tasks live.sub_tasks
        c.row later.sub_tasks c.found in
    let e : s ≡ y = cc in
    e
    ∙ Later-same sub_task_key sub_task_revision sub_task_status c.row y stage
        (ap sub_task_revision (sym e) ∙ same ∙ sym c.same)

pub write_sub-Keeps :
    (seen live : Db) (id : String) (expected : ℕ) (to : Status) (reason result : String) (now : ℕ)
    → DbEvolves seen live
    → SubChecked id expected to seen
    → Keeps (write_sub_task_transition id expected to reason result now) live
unfolding write_sub_task_transition
write_sub-Keeps seen live id expected to reason result now later c =
    Keeps-update_get_sub live revision_conflict id _ _ λ s found same.
      let e : s ≡ c.row = checked_sub_row id expected to seen live s later c found (ground arith) in
      let legal : allowed_task_transitions s.status to ≡ true = rw e c.legal in
      sub_task_step s _ refl refl (Moves-one (allowed s.status to legal))
        (allowed-unfinished s.status to legal)

pub transition_sub_task-Keeps :
    (db : Db) (id : String) (expected : ℕ) (to : Status) (reason result : String) (now : ℕ)
    → Keeps (transition_sub_task id expected to reason result now) db
unfolding transition_sub_task
transition_sub_task-Keeps db id expected to reason result now =
    Returns-bind db _ (check_sub_task_transition id expected to)
      (λ _. write_sub_task_transition id expected to reason result now)
      λ u db' h.
        let (same, c) = check-SubChecked id expected to db u db' h in
        rw same (write_sub-Keeps db db id expected to reason result now (DbEvolves-refl db) c)

live_status : (a c : Bool) (s t : Status) → (a && eq_status s t && c) ≡ true → eq_status s t ≡ true
live_status a c s t h = ground arith

open_when :
    (s t : Status)
    → eq_status s t ≡ true
    → terminal_work_status t ≡ false
    → terminal_work_status s ≡ false
open_when s t h k = ground arith

pub attach_sub_task_execution-Keeps :
    (db : Db) (id : String) (expected : ℕ) (execution : String) (now : ℕ)
    → Keeps (attach_sub_task_execution id expected execution now) db
unfolding attach_sub_task_execution
attach_sub_task_execution-Keeps db id expected execution now =
    Returns-require db _ (not (trim_space execution == "")) invalid_state _ λ _.
      Keeps-update_get_sub db revision_conflict id _ _ λ s found h.
        sub_task_step s _ refl refl stay (
          open_when s.status running
            (live_status (eqb s.revision expected) (s.execution_ref == "") s.status running h) refl)

paused_before :
    (a b c : Bool) (s : Status)
    → (a && eq_status s paused && b && c) ≡ true
    → eq_status s paused ≡ true
paused_before a b c s h = ground arith

pub resume_paused_agent_step-Keeps :
    (db : Db) (id : String) (expected now : ℕ) → Keeps (resume_paused_agent_step id expected now) db
unfolding resume_paused_agent_step
resume_paused_agent_step-Keeps db id expected now =
    Keeps-update_get_sub db invalid_state id _ _ λ s found h.
      let p : eq_status s.status paused ≡ true =
        paused_before (eqb s.revision expected) (s.execution_ref == "")
          (s.kind == "agent_step"
            || s.kind == "robot_skill" && s.waiting_reason == "server_restarted")
          s.status h in
      sub_task_step s _ refl refl (requeued s.status p) (open_when s.status paused p refl)
