-- ===== src/Scheduler/Attempt.antt =====
-- What one attempt of `moveTaskTowardStop` of internal/workflow/scheduler.go leaves.
use mathlib.Core.Path.{subst}
use semantic_framework.Prelude.{
  ℕ, ◌<◌, String, ◌≡◌, refl, sym, ap, ◌∙◌, ◌⊎◌, inl, inr, Bool, true, false, Option, none, some,
  List, [], Result, ok, err, Error, invalid_state, revision_conflict, not_found, eqb, arith,
}
use semantic_framework.Prelude.Table.{affected, affected-find, find-update}
use semantic_framework.Store.Status.{
  Status, pending, running, paused, stopping, completed, failed, stopped, allowed_task_transitions,
}
use semantic_framework.Store.Rows.{Task, Db}
use semantic_framework.Store.Tx.{Tx, ◌>>=◌, ◌>>◌, expect, require, modify}
use semantic_framework.Store.Tables.{task_key, find_task, get_task, update_task}
use semantic_framework.Store.Task.{check_task_transition, write_task_transition}
use semantic_framework.Store.Moves.{Moves}
use semantic_framework.Store.TaskSteps.{Checked, check-Checked}
use semantic_framework.Store.History.{
  Call, run, run-task_path, write-Checked_row, moved, with_update,
}
use semantic_framework.Scheduler.Contention.{interferes, check-interferes, update-interferes}
use semantic_framework.Scheduler.Stop.{
  stop_target, Others, settle, read_back, when_checked, attempt_task,
}

stop_target-allowed :
    (s to : Status) → stop_target s ≡ some to → allowed_task_transitions s to ≡ true
stop_target-allowed s to h = ground arith

stop_target-again : (s to : Status) → stop_target s ≡ some to → stop_target to ≡ none
stop_target-again s to h = ground arith

-- A check on a row that was read from the database earlier.
check-later :
    (calls : List Call) (db : Db) (task : Task) (to : Status)
    → find_task task.id db ≡ some task
    → allowed_task_transitions task.status to ≡ true
    → (check_task_transition task.id task.revision to (run calls db) ≡ ok (tt, run calls db))
      ⊎ (check_task_transition task.id task.revision to (run calls db) ≡ err revision_conflict)
unfolding check_task_transition
check-later calls db task to found legal =
    let (t, found', path, same) = run-task_path calls db task.id task found in
    through t same (find_task task.id (run calls db)) found'
  where
    rest : Task → Tx (Unit {0})
    rest current =
        require (eqb current.revision task.revision) revision_conflict
        >> require (allowed_task_transitions current.status to) invalid_state

    go :
        (t : Task)
        → (t ≡ task) ⊎ (task.revision < t.revision)
        → (b : Bool) → eqb t.revision task.revision ≡ b
        → ((require b revision_conflict
                >> require (allowed_task_transitions t.status to) invalid_state)
              (run calls db)
            ≡ ok (tt, run calls db))
          ⊎ ((require b revision_conflict
                  >> require (allowed_task_transitions t.status to) invalid_state)
                (run calls db)
              ≡ err revision_conflict)
    go t same false e = inr refl
    go t (inl e') true e =
        let legal' : allowed_task_transitions t.status to ≡ true =
          ap (λ (x : Task). allowed_task_transitions x.status to) e' ∙ legal in
        inl (rw legal' refl)
    go t (inr later) true e = absurd (ground arith)

    through :
        (t : Task)
        → (t ≡ task) ⊎ (task.revision < t.revision)
        → (o : Option Task) → o ≡ some t
        → ((expect o not_found >>= rest) (run calls db) ≡ ok (tt, run calls db))
          ⊎ ((expect o not_found >>= rest) (run calls db) ≡ err revision_conflict)
    through t same none e = cc
    through t same (some u) e =
        let is_t : u ≡ t = cc in go u (rw is_t same) (eqb u.revision task.revision) refl

module _ (live : Db) (id : String) (test : Task → Bool) (change : Task → Task) (t : Task)
    (found : find_task id live ≡ some t) (keeps : (t : Task) → (change t).id ≡ t.id) where
  -- The only error of the guarded UPDATE.
  update_task-err : (e : Error) → update_task id test change live ≡ err e → e ≡ revision_conflict
  update_task-err e h = go (affected task_key id test live.tasks) h
    where
      go :
          (b : Bool)
          → (require b revision_conflict >> modify (with_update id test change)) live ≡ err e
          → e ≡ revision_conflict
      go false h = cc
      go true h = cc

  -- The row is there right after the UPDATE.
  update_task-read :
      (u : Unit {0}) (db' : Db)
      → update_task id test change live ≡ ok (u, db')
      → (x : Task) × ((update_task id test change >> get_task id) live ≡ ok (x, db'))
  update_task-read u db' h = go (affected task_key id test live.tasks) refl h
    where
      go :
          (b : Bool)
          → affected task_key id test live.tasks ≡ b
          → (require b revision_conflict >> modify (with_update id test change)) live ≡ ok (u, db')
          → (x : Task) × (((require b revision_conflict >> modify (with_update id test change))
                  >> get_task id)
                live
              ≡ ok (x, db'))
      go false miss h = cc
      go true hit h =
          let (u, there, passes) = affected-find task_key id test live.tasks hit in
          let kept : find_task id (with_update id test change live) ≡ some (change u) =
            find-update task_key id test change live.tasks u there passes (keeps u) in
          let e : with_update id test change live ≡ db' = cc in
          (change u, rw kept (ap (λ d. ok (change u, d)) e))

-- A status in which the method leaves a task: it is stopping or has ended.
abbrev pub IsStopping : Status → Type 0
IsStopping s = (s ≡ stopping) ⊎ ((s ≡ completed) ⊎ ((s ≡ failed) ⊎ (s ≡ stopped)))

pub stop_target-IsStopping : (s : Status) → stop_target s ≡ none → IsStopping s
stop_target-IsStopping pending h = cc
stop_target-IsStopping running h = cc
stop_target-IsStopping paused h = cc
stop_target-IsStopping stopping h = inl refl
stop_target-IsStopping completed h = inr (inl refl)
stop_target-IsStopping failed h = inr (inr (inl refl))
stop_target-IsStopping stopped h = inr (inr (inr refl))

-- A moment of the move at which the task had nothing left to stop, and the row that is returned: the
-- one of that moment, or what other writers' calls between an UPDATE and its read-back made of it.
pub record IsSettled (o : Others) (id : String) (t : Task) (db : Db) : Type 0 where
  pub moment : Db
  pub row : Task
  pub found : find_task id moment ≡ some row
  pub settled : IsStopping row.status
  pub others : List Call
  pub theirs : (others ≡ []) ⊎ ((n : ℕ) × (others ≡ o.reading n))
  pub after : run others moment ≡ db
  pub stored : find_task id db ≡ some t
  pub path : Moves row.status t.status
  pub later : (t ≡ row) ⊎ (row.revision < t.revision)

-- The end of an attempt or of the whole move, for the row `id`; `D` is known after a conflict.
abbrev pub StopOutcome : Others → Type 0 → String → Result Task × Db → Type 0
StopOutcome o D id (ok t, db) = IsSettled o id t db
StopOutcome o D id (err e, db) =
    (e ≡ revision_conflict) × D × ((t : Task) × (find_task id db ≡ some t))

pub attempt_task-StopOutcome :
    (o : Others) (n : ℕ) (task : Task) (to : Status) (now : ℕ) (db : Db)
    → find_task task.id db ≡ some task
    → stop_target task.status ≡ some to
    → StopOutcome o (interferes o n ≡ true) task.id (attempt_task o n task to now db)
unfolding attempt_task write_task_transition
attempt_task-StopOutcome o n task to now db found target =
    go (check_task_transition task.id task.revision to seen) refl
      (check-later (o.before n) db task to found (stop_target-allowed task.status to target))
  where
    seen : Db
    seen = run (o.before n) db

    live : Db
    live = run (o.between n) seen

    change : Task → Task
    change = moved to "user_stopped" "" "" now

    there : (t : Task) × (find_task task.id seen ≡ some t)
    there =
        let (t, found', path, same) = run-task_path (o.before n) db task.id task found in
        (t, found')

    live_row : (t : Task) × (find_task task.id live ≡ some t)
    live_row =
        let (t, found', path, same) = run-task_path (o.between n) seen task.id there.0 there.1 in
        (t, found')

    written :
        (r : Result (Unit {0} × Db))
        → update_task task.id (λ t. eqb t.revision task.revision) change live ≡ r
        → Checked task.id task.revision to seen
        → StopOutcome o
            (interferes o n ≡ true)
            task.id
            (read_back r (o.reading n) (get_task task.id) live)
    written (ok (u, db')) e c =
        let (x, done) =
          update_task-read live task.id (λ t. eqb t.revision task.revision) change live_row.0
            live_row.1 (λ t. refl) u db' e in
        let (row, was, now_there, legal, is, found') =
          write-Checked_row (o.between n) seen task.id task.revision to "user_stopped" "" "" now x
            db' c done in
        let (t, stored, path, later) = run-task_path (o.reading n) db' task.id x found' in
        subst
          (λ p.
            StopOutcome o (interferes o n ≡ true) task.id
              (settle (expect p not_found (run (o.reading n) db')) (run (o.reading n) db')))
          (sym stored)
          (record {
            moment = db';
            row = x;
            found = found';
            settled =
                stop_target-IsStopping x.status (rw is (stop_target-again task.status to target));
            others = o.reading n;
            theirs = inr (n, refl);
            after = refl;
            stored = stored;
            path = path;
            later = later;
          })
    written (err x) e c = (
      update_task-err live task.id (λ t. eqb t.revision task.revision) change live_row.0 live_row.1
          (λ t. refl) x e,
      update-interferes o n seen task.id task.revision to change x c e,
      live_row,
    )

    go :
        (r : Result (Unit {0} × Db))
        → check_task_transition task.id task.revision to seen ≡ r
        → (r ≡ ok (tt, seen)) ⊎ (r ≡ err revision_conflict)
        → StopOutcome o (interferes o n ≡ true) task.id (
            when_checked r
              (read_back
                (update_task task.id (λ t. eqb t.revision task.revision) change live)
                (o.reading n)
                (get_task task.id)
                live)
              seen)
    go (ok (u, d)) e c =
        written (update_task task.id (λ t. eqb t.revision task.revision) change live) refl
          (check-Checked task.id task.revision to seen u d e).1
    go (err x) e (inl bad) = cc
    go (err x) e (inr conflict) = (
      cc,
      check-interferes o n db task to found (stop_target-allowed task.status to target)
          (e ∙ conflict),
      there,
    )
