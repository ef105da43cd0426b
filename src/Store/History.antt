-- ===== src/Store/History.antt =====
-- Any sequence of the writing methods of internal/store/workflow.go, failed calls included.
use semantic_framework.Prelude.{
  ℕ, ◌+◌, ◌<◌, String, ◌≡◌, refl, List, [], ◌∷◌, Option, some, Bool, true, Result, ok, err, arith,
  eqb, ◌⊎◌, false, none, revision_conflict, not_found, ap, ◌∙◌,
}
use semantic_framework.Prelude.Table.{update, affected, affected-find, find-update}
use semantic_framework.Store.Status.{Status, terminal_work_status, allowed_task_transitions}
use semantic_framework.Store.Rows.{Task, SubTask, SubTaskDraft, Db}
use semantic_framework.Store.Tx.{Tx, ◌>>◌, expect, require, modify}
use semantic_framework.Store.Moves.{Moves, find-Evolves}
use semantic_framework.Store.Tables.{
  task_key, sub_task_key, find_task, find_sub_task, update_task, get_task, json_or,
}
use semantic_framework.Store.Task.{
  ended_when, write_task_transition, transition_task, set_pending_task_reason,
  resume_paused_task_planning, assign_task, reassign_pending_task, update_paused_robot_wait_reason,
}
use semantic_framework.Store.SubTask.{
  transition_sub_task, attach_sub_task_execution, resume_paused_agent_step, set_task_sub_tasks,
}
use semantic_framework.Store.Recovery.{apply_failed_robot_recovery}
use semantic_framework.Store.Evolution.{
  task_revision, task_status, sub_task_revision, sub_task_status, DbEvolves, DbEvolves-refl,
  DbEvolves-trans, Keeps,
}
use semantic_framework.Store.TaskSteps.{
  Checked, Checked-row, transition_task-Keeps, set_pending_task_reason-Keeps,
  resume_paused_task_planning-Keeps,
}
use semantic_framework.Store.AssignSteps.{assign_task-Keeps, reassign_pending_task-Keeps}
use semantic_framework.Store.WaitSteps.{update_paused_robot_wait_reason-Keeps}
use semantic_framework.Store.SubTaskSteps.{
  transition_sub_task-Keeps, attach_sub_task_execution-Keeps, resume_paused_agent_step-Keeps,
}
use semantic_framework.Store.PlanSteps.{set_task_sub_tasks-Keeps, apply_failed_robot_recovery-Keeps}

-- One call, with its arguments; `new` and `fresh` are the ids that it draws.
pub data Call : Type 0 where
  move_task : String → ℕ → Status → String → String → String → ℕ → Call
  set_reason : String → ℕ → String → ℕ → Call
  resume_planning : String → ℕ → ℕ → Call
  assign : String → ℕ → String → String → ℕ → Call
  reassign : String → ℕ → String → String → ℕ → Call
  wait_for : String → ℕ → String → ℕ → String → String → ℕ → Call
  move_sub_task : String → ℕ → Status → String → String → ℕ → Call
  attach : String → ℕ → String → ℕ → Call
  resume_step : String → ℕ → ℕ → Call
  plan : (new fresh : ℕ → String) → String → ℕ → List SubTaskDraft → ℕ → Call
  recover : (new fresh : ℕ → String) → String → ℕ → String → List SubTaskDraft → ℕ → Call

-- The database after a call: an error leaves it as it was.
abbrev pub after {ℓ} : {A : Type ℓ} → Result (A × Db) → Db → Db
after (ok (a, db')) db = db'
after (err e) db = db

unfoldable pub call : Call → Db → Db
call (move_task id rev to reason summary evidence now) db =
    after (transition_task id rev to reason summary evidence now db) db
call (set_reason id rev reason now) db = after (set_pending_task_reason id rev reason now db) db
call (resume_planning id rev now) db = after (resume_paused_task_planning id rev now db) db
call (assign id rev agent robot now) db = after (assign_task id rev agent robot now db) db
call (reassign id rev agent robot now) db =
    after (reassign_pending_task id rev agent robot now db) db
call (wait_for id rev sub sub_rev from to now) db =
    after (update_paused_robot_wait_reason id rev sub sub_rev from to now db) db
call (move_sub_task id rev to reason result now) db =
    after (transition_sub_task id rev to reason result now db) db
call (attach id rev execution now) db = after (attach_sub_task_execution id rev execution now db) db
call (resume_step id rev now) db = after (resume_paused_agent_step id rev now db) db
call (plan new fresh id rev items now) db =
    after (set_task_sub_tasks new fresh id rev items now db) db
call (recover new fresh id rev sub items now) db =
    after (apply_failed_robot_recovery new fresh id rev sub items now db) db

unfoldable pub run : List Call → Db → Db
unfolding call
run [] db = db
run (c ∷ cs) db = run cs (call c db)

after-Evolves {ℓ} : {A : Type ℓ} (m : Tx A) (db : Db) → Keeps m db → DbEvolves db (after (m db) db)
after-Evolves {A = A} m db k = go (m db) refl
  where
    go : (r : Result (A × Db)) → m db ≡ r → DbEvolves db (after r db)
    go (ok (a, db')) e = k a db' e
    go (err e') e = DbEvolves-refl db

call-Evolves : (c : Call) (db : Db) → DbEvolves db (call c db)
unfolding call
call-Evolves (move_task id rev to reason summary evidence now) db =
    after-Evolves (transition_task id rev to reason summary evidence now) db
      (transition_task-Keeps db id rev to reason summary evidence now)
call-Evolves (set_reason id rev reason now) db =
    after-Evolves (set_pending_task_reason id rev reason now) db
      (set_pending_task_reason-Keeps db id rev reason now)
call-Evolves (resume_planning id rev now) db =
    after-Evolves (resume_paused_task_planning id rev now) db
      (resume_paused_task_planning-Keeps db id rev now)
call-Evolves (assign id rev agent robot now) db =
    after-Evolves (assign_task id rev agent robot now) db
      (assign_task-Keeps db id rev agent robot now)
call-Evolves (reassign id rev agent robot now) db =
    after-Evolves (reassign_pending_task id rev agent robot now) db
      (reassign_pending_task-Keeps db id rev agent robot now)
call-Evolves (wait_for id rev sub sub_rev from to now) db =
    after-Evolves (update_paused_robot_wait_reason id rev sub sub_rev from to now) db
      (update_paused_robot_wait_reason-Keeps db id rev sub sub_rev from to now)
call-Evolves (move_sub_task id rev to reason result now) db =
    after-Evolves (transition_sub_task id rev to reason result now) db
      (transition_sub_task-Keeps db id rev to reason result now)
call-Evolves (attach id rev execution now) db =
    after-Evolves (attach_sub_task_execution id rev execution now) db
      (attach_sub_task_execution-Keeps db id rev execution now)
call-Evolves (resume_step id rev now) db =
    after-Evolves (resume_paused_agent_step id rev now) db
      (resume_paused_agent_step-Keeps db id rev now)
call-Evolves (plan new fresh id rev items now) db =
    after-Evolves (set_task_sub_tasks new fresh id rev items now) db
      (set_task_sub_tasks-Keeps new fresh db id rev items now)
call-Evolves (recover new fresh id rev sub items now) db =
    after-Evolves (apply_failed_robot_recovery new fresh id rev sub items now) db
      (apply_failed_robot_recovery-Keeps new fresh db id rev sub items now)

pub run-Evolves : (calls : List Call) (db : Db) → DbEvolves db (run calls db)
unfolding run
run-Evolves [] db = DbEvolves-refl db
run-Evolves (c ∷ cs) db = DbEvolves-trans (call-Evolves c db) (run-Evolves cs (call c db))

-- Whatever calls follow, a task is still there under its id, its status has gone along the arrows
-- of the task diagram (the allowed transitions and the return from paused to pending), and its
-- revision has not fallen; it is the same row if its revision is the same.
pub run-task_path :
    (calls : List Call) (db : Db) (id : String) (t : Task)
    → find_task id db ≡ some t
    → (u : Task) × (find_task id (run calls db) ≡ some u)
      × Moves t.status u.status
      × ((u ≡ t) ⊎ (t.revision < u.revision))
run-task_path calls db id t found =
    let (u, found', stage) =
      find-Evolves task_key task_revision task_status id db.tasks (run calls db).tasks t
        (run-Evolves calls db).tasks found in
    (u, found', stage.follows, stage.grows)

-- The same for a subtask, through plans and recoveries of its task.
pub run-sub_task_path :
    (calls : List Call) (db : Db) (id : String) (s : SubTask)
    → find_sub_task id db ≡ some s
    → (u : SubTask) × (find_sub_task id (run calls db) ≡ some u)
      × Moves s.status u.status
      × ((u ≡ s) ⊎ (s.revision < u.revision))
run-sub_task_path calls db id s found =
    let (u, found', stage) =
      find-Evolves sub_task_key sub_task_revision sub_task_status id db.sub_tasks
        (run calls db).sub_tasks s (run-Evolves calls db).sub_tasks found in
    (u, found', stage.follows, stage.grows)

-- A completed, failed or stopped task is never written again: no sequence of calls changes any
-- column of its row.
pub run-task_final :
    (calls : List Call) (db : Db) (id : String) (t : Task)
    → find_task id db ≡ some t
    → terminal_work_status t.status ≡ true
    → find_task id (run calls db) ≡ some t
run-task_final calls db id t found ended =
    let (u, found', stage) =
      find-Evolves task_key task_revision task_status id db.tasks (run calls db).tasks t
        (run-Evolves calls db).tasks found in
    rw (← (stage.frozen ended)) found'

-- A completed, failed or stopped subtask is never written again, not by a recovery either.
pub run-sub_task_final :
    (calls : List Call) (db : Db) (id : String) (s : SubTask)
    → find_sub_task id db ≡ some s
    → terminal_work_status s.status ≡ true
    → find_sub_task id (run calls db) ≡ some s
run-sub_task_final calls db id s found ended =
    let (u, found', stage) =
      find-Evolves sub_task_key sub_task_revision sub_task_status id db.sub_tasks
        (run calls db).sub_tasks s (run-Evolves calls db).sub_tasks found in
    rw (← (stage.frozen ended)) found'

-- The row that a transition leaves.
abbrev pub moved : Status → String → String → String → ℕ → Task → Task
moved to reason summary evidence now t = record t {
  status = to;
  waiting_reason = reason;
  result_summary = summary;
  evidence = json_or evidence "[]";
  revision = t.revision + 1;
  updated_at = now;
  ended_at = ended_when to now;
}

abbrev pub with_update : String → (Task → Bool) → (Task → Task) → Db → Db
with_update id test change d = record d { tasks = update task_key id test change d.tasks }

-- What an update and a read of one task tell when they return.
update_get-ok :
    (live : Db) (id : String) (test : Task → Bool) (change : Task → Task) (t' : Task) (db' : Db)
    → (update_task id test change >> get_task id) live ≡ ok (t', db')
    → (affected task_key id test live.tasks ≡ true)
      × (find_task id (with_update id test change live) ≡ some t')
      × (db' ≡ with_update id test change live)
update_get-ok live id test change t' db' h = go (affected task_key id test live.tasks) refl h
  where
    read :
        (o : Option Task) (d : Db) → expect o not_found d ≡ ok (t', db') → (o ≡ some t') × (db' ≡ d)
    read none d e = cc
    read (some t) d e = (cc, cc)

    go :
        (b : Bool)
        → affected task_key id test live.tasks ≡ b
        → ((require b revision_conflict >> modify (with_update id test change)) >> get_task id) live
          ≡ ok (t', db')
        → (affected task_key id test live.tasks ≡ true)
          × (find_task id (with_update id test change live) ≡ some t')
          × (db' ≡ with_update id test change live)
    go true hit e =
        let (found, same) =
          read (find_task id (with_update id test change live)) (with_update id test change live)
            e in
        (hit, found, same)
    go false miss e = cc

-- `TransitionTask` reads and checks a row and writes later, outside a transaction. If any calls
-- come in between and the late write still succeeds, then the row is the one that was checked:
-- no call has changed it, the transition is allowed from its status, and the row that is written
-- and returned is that row moved to the new status, with the next revision. (The row is read back with
-- no other call after the UPDATE.)
pub write-Checked_row :
    (calls : List Call) (db : Db) (id : String) (expected : ℕ) (to : Status)
    (reason summary evidence : String) (now : ℕ) (t' : Task) (db' : Db)
    → Checked id expected to db
    → write_task_transition id expected to reason summary evidence now (run calls db) ≡ ok (t', db')
    → (t : Task) × (find_task id db ≡ some t)
      × (find_task id (run calls db) ≡ some t)
      × (allowed_task_transitions t.status to ≡ true)
      × (t' ≡ moved to reason summary evidence now t)
      × (find_task id db' ≡ some t')
unfolding write_task_transition
write-Checked_row calls db id expected to reason summary evidence now t' db' c h =
    let (hit, read, same_db) = update_get-ok live id test change t' db' h in
    let (u, found, same) = affected-find task_key id test live.tasks hit in
    let e : u ≡ c.row =
      Checked-row id expected to db live u (run-Evolves calls db) c found (ground arith) in
    let written : find_task id (with_update id test change live) ≡ some (change u) =
      find-update task_key id test change live.tasks u found same refl in
    let result : t' ≡ change u = cc in
    (c.row, c.found, rw (← e) found, c.legal, result ∙ ap change e, rw same_db read)
  where
    live : Db
    live = run calls db

    test : Task → Bool
    test t = eqb t.revision expected

    change : Task → Task
    change = moved to reason summary evidence now
