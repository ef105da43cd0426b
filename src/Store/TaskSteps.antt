-- ===== src/Store/TaskSteps.antt =====
-- The methods of Store/Task and the development of rows.

use semantic_framework.Prelude.{
  ℕ, ◌+◌, String, ◌≡◌, refl, sym, ap, ◌∙◌, Bool, true, false, not, ◌&&◌, some, ◌==◌, arith, eqb,
  invalid_state, revision_conflict, not_found,
}
use semantic_framework.Store.Status.{
  Status, pending, paused, eq_status, terminal_work_status, allowed_task_transitions,
  allowed-unfinished,
}
use semantic_framework.Store.Rows.{Task, Db}
use semantic_framework.Store.Tx.{
  ◌>>◌, require, Returns, Returns-bind, Returns-expect, Returns-require,
}
use semantic_framework.Store.Moves.{stay, Moves-one, allowed, Later-same, find-Evolves}
use semantic_framework.Store.Tables.{
  task_key, find_task, find_sub_task, get_task, get_sub_task, update_task,
}
use semantic_framework.Store.Task.{
  write_task_transition, check_task_transition, transition_task, set_pending_task_reason,
  has_sub_tasks, resume_paused_task_planning,
}
use semantic_framework.Store.Evolution.{
  task_revision, task_status, TaskLater, DbEvolves, DbEvolves-refl, Keeps, task_step, requeued,
  Keeps-expect, Keeps-bind, Keeps-update_task,
}

pub Keeps-get_task : (id : String) (db : Db) → Keeps (get_task id) db
Keeps-get_task id db = Keeps-expect db (find_task id db) not_found

pub Keeps-get_sub_task : (id : String) (db : Db) → Keeps (get_sub_task id) db
Keeps-get_sub_task id db = Keeps-expect db (find_sub_task id db) not_found

-- An update of one task and a read of it.
pub Keeps-update_get :
    (db : Db) (id : String) (test : Task → Bool) (change : Task → Task)
    → ((t : Task) → find_task id db ≡ some t → test t ≡ true → TaskLater t (change t))
    → Keeps (update_task id test change >> get_task id) db
Keeps-update_get db id test change step =
    Keeps-bind db (update_task id test change) (λ _. get_task id)
      (Keeps-update_task db id test change step) (λ _ db'. Keeps-get_task id db')

pub and_left : (a b : Bool) → (a && b) ≡ true → a ≡ true
and_left a b h = ground arith

pub and_right : (a b : Bool) → (a && b) ≡ true → b ≡ true
and_right a b h = ground arith

pub open_when :
    (s t : Status)
    → eq_status s t ≡ true
    → terminal_work_status t ≡ false
    → terminal_work_status s ≡ false
open_when s t h k = ground arith

-- The checks of `TransitionTask`, as they held of the row that was read.
pub record Checked (id : String) (expected : ℕ) (to : Status) (seen : Db) : Type 0 where
  pub row : Task
  pub found : find_task id seen ≡ some row
  pub same : row.revision ≡ expected
  pub legal : allowed_task_transitions row.status to ≡ true

pub check-Checked :
    (id : String) (expected : ℕ) (to : Status) (db : Db)
    → Returns
        (check_task_transition id expected to)
        db
        (λ _ db'. (db' ≡ db) × Checked id expected to db)
unfolding check_task_transition
check-Checked id expected to db = Returns-expect db _ (find_task id db) not_found _ λ t found.
    Returns-require db _ (eqb t.revision expected) revision_conflict _
      λ same. legal_row t found same (allowed_task_transitions t.status to) refl
  where
    legal_row :
        (t : Task)
        → find_task id db ≡ some t
        → eqb t.revision expected ≡ true
        → (b : Bool) → allowed_task_transitions t.status to ≡ b
        → Returns (require b invalid_state) db (λ _ db'. (db' ≡ db) × Checked id expected to db)
    legal_row t found same true e u db' h =
        (cc, record { row = t; found = found; same = ground arith; legal = e })
    legal_row t found same false e u db' h = cc

-- A row that has the revision of the checked row in a later database is the checked row.
pub Checked-row :
    (id : String) (expected : ℕ) (to : Status) (seen live : Db) (t : Task)
    → DbEvolves seen live
    → (c : Checked id expected to seen) → find_task id live ≡ some t
    → t.revision ≡ expected
    → t ≡ c.row
Checked-row id expected to seen live t later c found same =
    let (y, found', stage) =
      find-Evolves task_key task_revision task_status id seen.tasks live.tasks c.row later.tasks
        c.found in
    let e : t ≡ y = cc in
    e
    ∙ Later-same task_key task_revision task_status c.row y stage
        (ap task_revision (sym e) ∙ same ∙ sym c.same)

legal_step :
    (id : String) (expected : ℕ) (to : Status) (seen live : Db) (t u : Task)
    → DbEvolves seen live
    → Checked id expected to seen
    → find_task id live ≡ some t
    → eqb t.revision expected ≡ true
    → u.id ≡ t.id
    → u.revision ≡ t.revision + 1
    → u.status ≡ to
    → TaskLater t u
legal_step id expected to seen live t u later c found same key next status =
    let e : t ≡ c.row = Checked-row id expected to seen live t later c found (ground arith) in
    let legal : allowed_task_transitions t.status u.status ≡ true = rw (status, e) c.legal in
    task_step t u key next (Moves-one (allowed t.status u.status legal))
      (allowed-unfinished t.status u.status legal)

pub write-Keeps :
    (seen live : Db) (id : String) (expected : ℕ) (to : Status) (reason summary evidence : String)
    (now : ℕ)
    → DbEvolves seen live
    → Checked id expected to seen
    → Keeps (write_task_transition id expected to reason summary evidence now) live
unfolding write_task_transition
write-Keeps seen live id expected to reason summary evidence now later c =
    Keeps-update_get live id _ _
      λ t found same. legal_step id expected to seen live t _ later c found same refl refl refl

pub transition_task-Keeps :
    (db : Db) (id : String) (expected : ℕ) (to : Status) (reason summary evidence : String)
    (now : ℕ)
    → Keeps (transition_task id expected to reason summary evidence now) db
unfolding transition_task
transition_task-Keeps db id expected to reason summary evidence now =
    Returns-bind db _ (check_task_transition id expected to)
      (λ _. write_task_transition id expected to reason summary evidence now)
      λ u db' h.
        let (same, c) = check-Checked id expected to db u db' h in
        rw same (write-Keeps db db id expected to reason summary evidence now (DbEvolves-refl db) c)

-- A write to a pending row that leaves it pending.
pub pending_step :
    (test : Bool) (t u : Task)
    → (test && eq_status t.status pending) ≡ true
    → u.id ≡ t.id
    → u.revision ≡ t.revision + 1
    → u.status ≡ t.status
    → TaskLater t u
pending_step test t u h key next same =
    task_step t u key next (rw same stay) (open_when t.status pending (and_right test _ h) refl)

pub set_pending_task_reason-Keeps :
    (db : Db) (id : String) (expected : ℕ) (reason : String) (now : ℕ)
    → Keeps (set_pending_task_reason id expected reason now) db
unfolding set_pending_task_reason
set_pending_task_reason-Keeps db id expected reason now =
    Keeps-update_get db id _ _
      λ t found h. pending_step (eqb t.revision expected) t _ h refl refl refl

pub paused_of :
    (a c : Bool) (s : Status) → (a && eq_status s paused && c) ≡ true → eq_status s paused ≡ true
paused_of a c s h = ground arith

pub resume_paused_task_planning-Keeps :
    (db : Db) (id : String) (expected now : ℕ)
    → Keeps (resume_paused_task_planning id expected now) db
unfolding resume_paused_task_planning
resume_paused_task_planning-Keeps db id expected now =
    Returns-require db _ (not (has_sub_tasks id db)) invalid_state _ λ _.
      Keeps-update_get db id _ _ λ t found h.
        let p : eq_status t.status paused ≡ true =
          paused_of (eqb t.revision expected) (t.waiting_reason == "waiting_input") t.status h in
        task_step t _ refl refl (requeued t.status p) (open_when t.status paused p refl)
