-- ===== src/Store/Evolution.antt =====
-- How a method of internal/store/workflow.go may change the tables of tasks and subtasks, with rules
-- for the parts of a method.
use semantic_framework.Prelude.{
  ℕ, ◌+◌, String, ◌≡◌, inl, inr, Bool, true, false, Option, none, some, List, [], ◌∷◌, arith, Error,
  revision_conflict, constraint, Bool-cases, Result, ok,
}
use semantic_framework.Prelude.Table.{affected}
use semantic_framework.Store.Status.{Status, pending, paused, eq_status, terminal_work_status}
use semantic_framework.Store.Rows.{Task, SubTask, SubTaskDependency, Db}
use semantic_framework.Store.Tx.{
  Tx, ◌>>=◌, ◌>>◌, return, expect, require, modify, Returns, Returns-bind,
}
use semantic_framework.Store.Moves.{
  Moves, Moves-one, requeue, Later, Evolves, Evolves-refl, Evolves-trans, Evolves-append,
  update-Evolves,
}
use semantic_framework.Store.Tables.{
  task_key, sub_task_key, find_task, find_sub_task, update_task, update_sub_task, insert_sub_task,
  insert_sub_task_dependency,
}

abbrev pub task_revision : Task → ℕ
task_revision t = t.revision

abbrev pub task_status : Task → Status
task_status t = t.status

abbrev pub sub_task_revision : SubTask → ℕ
sub_task_revision s = s.revision

abbrev pub sub_task_status : SubTask → Status
sub_task_status s = s.status

abbrev pub TaskLater : Task → Task → Type 0
TaskLater = Later task_key task_revision task_status

abbrev pub SubTaskLater : SubTask → SubTask → Type 0
SubTaskLater = Later sub_task_key sub_task_revision sub_task_status

abbrev pub TasksEvolve : List Task → List Task → Type 0
TasksEvolve = Evolves task_key task_revision task_status

abbrev pub SubTasksEvolve : List SubTask → List SubTask → Type 0
SubTasksEvolve = Evolves sub_task_key sub_task_revision sub_task_status

-- Every task and subtask of the first database is in the second, at the same place and at the same
-- or a later stage of its life; new ones come behind them.
pub record DbEvolves (a b : Db) : Type 0 where
  pub tasks : TasksEvolve a.tasks b.tasks
  pub sub_tasks : SubTasksEvolve a.sub_tasks b.sub_tasks

pub DbEvolves-refl : (a : Db) → DbEvolves a a
DbEvolves-refl a = record {
  tasks = Evolves-refl task_key task_revision task_status a.tasks;
  sub_tasks = Evolves-refl sub_task_key sub_task_revision sub_task_status a.sub_tasks;
}

pub DbEvolves-trans : {a b c : Db} → DbEvolves a b → DbEvolves b c → DbEvolves a c
DbEvolves-trans {a} {b} {c} p q = record {
  tasks = Evolves-trans task_key task_revision task_status a.tasks b.tasks c.tasks p.tasks q.tasks;
  sub_tasks =
      Evolves-trans sub_task_key sub_task_revision sub_task_status a.sub_tasks b.sub_tasks
        c.sub_tasks p.sub_tasks q.sub_tasks;
}

abbrev pub Keeps {ℓ} : {A : Type ℓ} → Tx A → Db → Type ℓ
Keeps m db = Returns m db (λ _ db'. DbEvolves db db')

pub task_step :
    (t u : Task)
    → u.id ≡ t.id
    → u.revision ≡ t.revision + 1
    → Moves t.status u.status
    → terminal_work_status t.status ≡ false
    → TaskLater t u
task_step t u same next moves open_row = record {
  same_key = same;
  grows = inr (omega arith);
  follows = moves;
  frozen = λ h. cc;
}

pub sub_task_step :
    (t u : SubTask)
    → u.id ≡ t.id
    → u.revision ≡ t.revision + 1
    → Moves t.status u.status
    → terminal_work_status t.status ≡ false
    → SubTaskLater t u
sub_task_step t u same next moves open_row = record {
  same_key = same;
  grows = inr (omega arith);
  follows = moves;
  frozen = λ h. cc;
}

pub requeued : (s : Status) → eq_status s paused ≡ true → Moves s pending
requeued paused h = Moves-one requeue
requeued _ h = cc

same_db {ℓ} :
    {A : Type ℓ} (a b : A) (db db' : Db)
    → ◌≡◌ {A = Result (A × Db)} (ok (a, db)) (ok (b, db'))
    → db' ≡ db
same_db a b db db' h = cc

-- What only reads leaves the database as it is.
module _ {ℓ} {A : Type ℓ} (db : Db) where
  pub Keeps-return : (a : A) → Keeps (return a) db
  Keeps-return a b db' h = rw (same_db a b db db' h) (DbEvolves-refl db)

  pub Keeps-expect : (o : Option A) (e : Error) → Keeps (expect o e) db
  Keeps-expect none e b db' h = cc
  Keeps-expect (some a) e b db' h = rw (same_db a b db db' h) (DbEvolves-refl db)

pub Keeps-modify : (db : Db) (f : Db → Db) → DbEvolves db (f db) → Keeps (modify f) db
Keeps-modify db f p b db' h = rw (same_db {A = Unit {0}} tt b (f db) db' h) p

module _ {ℓ κ} {A : Type ℓ} {B : Type κ} (db : Db) where
  pub Keeps-bind :
      (m : Tx A) (f : A → Tx B)
      → Keeps m db
      → ((a : A) (db' : Db) → Keeps (f a) db')
      → Keeps (m >>= f) db
  Keeps-bind m f km kf =
      Returns-bind db (λ _ db'. DbEvolves db db') m f
        λ a db' h b db'' h'. DbEvolves-trans (km a db' h) (kf a db' b db'' h')

module _ (db : Db) (b : Bool) (e : Error) (f : Db → Db) where
  -- A statement that is refused when it affects no row.
  Keeps-guarded : (b ≡ true → DbEvolves db (f db)) → Keeps (require b e >> modify f) db
  Keeps-guarded p = elim (Bool-cases b) [
    | inl t ↦ rw t (Keeps-modify db f (p t))
    | inr t ↦ rw t (λ a db' h. cc)
  ]

pub Keeps-update_task :
    (db : Db) (id : String) (test : Task → Bool) (change : Task → Task)
    → ((t : Task) → find_task id db ≡ some t → test t ≡ true → TaskLater t (change t))
    → Keeps (update_task id test change) db
Keeps-update_task db id test change step =
    Keeps-guarded db (affected task_key id test db.tasks) revision_conflict _ λ _. record {
      tasks = update-Evolves task_key task_revision task_status id test change db.tasks step;
      sub_tasks = (DbEvolves-refl db).sub_tasks;
    }

pub Keeps-update_sub_task :
    (db : Db) (e : Error) (id : String) (test : SubTask → Bool) (change : SubTask → SubTask)
    → ((s : SubTask) → find_sub_task id db ≡ some s → test s ≡ true → SubTaskLater s (change s))
    → Keeps (update_sub_task e id test change) db
Keeps-update_sub_task db e id test change step =
    Keeps-guarded db (affected sub_task_key id test db.sub_tasks) e _ λ _. record {
      tasks = (DbEvolves-refl db).tasks;
      sub_tasks =
          update-Evolves sub_task_key sub_task_revision sub_task_status id test change db.sub_tasks
            step;
    }

pub Keeps-insert_sub_task : (db : Db) (s : SubTask) → Keeps (insert_sub_task s) db
unfolding insert_sub_task
Keeps-insert_sub_task db s = Keeps-guarded db _ constraint _ λ _. record {
  tasks = (DbEvolves-refl db).tasks;
  sub_tasks = Evolves-append sub_task_key sub_task_revision sub_task_status db.sub_tasks (s ∷ []);
}

pub Keeps-insert_sub_task_dependency :
    (db : Db) (d : SubTaskDependency) → Keeps (insert_sub_task_dependency d) db
unfolding insert_sub_task_dependency
Keeps-insert_sub_task_dependency db d =
    Keeps-guarded db _ constraint _
      λ _. record { tasks = (DbEvolves-refl db).tasks; sub_tasks = (DbEvolves-refl db).sub_tasks }
