-- ===== src/Projects/History.antt =====
-- Any sequence of the calls of internal/store/project.go, failed ones included.
use semantic_framework.Prelude.{ℕ, String, List, [], ◌∷◌, Result, ok, err, ◌≡◌, refl}
use semantic_framework.Projects.Rows.{Project, Work, ProjectDb}
use semantic_framework.Projects.Create.{
  ensure_default_project, create_project_with_runtime_preference,
}
use semantic_framework.Projects.Active.{
  update_project_name, set_project_mode, activate_project, archive_project,
}
use semantic_framework.Projects.Bindings.{ProjectBindings, replace_project_bindings}
use semantic_framework.Projects.Single.{IsSingle}
use semantic_framework.Projects.Created.{
  Single, ensure_default_project-Single, create_project-Single,
}
use semantic_framework.Projects.Steps.{
  update_project_name-Single, set_project_mode-Single, activate_project-Single,
  archive_project-Single, replace_project_bindings-Single,
}

-- One call with its arguments and the ids it draws. `elsewhere` is any write to the tables in which
-- projects have work.
pub data Call : Type 0 where
  ensure_default : String → String → String → ℕ → Call
  create : String → String → String → String → String → String → String → ℕ → Call
  rename : String → String → String → ℕ → ℕ → Call
  set_mode : String → String → ℕ → ℕ → Call
  activate : String → String → ℕ → Call
  archive : String → String → ℕ → ℕ → Call
  bind : String → ProjectBindings → ℕ → Call
  elsewhere : List Work → List Work → List Work → Call

abbrev pub after : Result (Project × ProjectDb) → ProjectDb → ProjectDb
after (ok (p, db')) db = db'
after (err e) db = db

abbrev pub after_bind : Result ProjectDb → ProjectDb → ProjectDb
after_bind (ok db') db = db'
after_bind (err e) db = db

after-Single :
    (r : Result (Project × ProjectDb)) (db : ProjectDb)
    → Single db
    → ((p : Project) (db' : ProjectDb) → r ≡ ok (p, db') → Single db')
    → Single (after r db)
after-Single (ok (p, db')) db i f = f p db' refl
after-Single (err e) db i f = i

after_bind-Single :
    (r : Result ProjectDb) (db : ProjectDb)
    → Single db
    → ((db' : ProjectDb) → r ≡ ok db' → Single db')
    → Single (after_bind r db)
after_bind-Single (ok db') db i f = f db' refl
after_bind-Single (err e) db i f = i

module _ (workspace : String → String) where
  unfoldable pub call : Call → ProjectDb → ProjectDb
  unfolding ensure_default_project create_project_with_runtime_preference update_project_name
      set_project_mode activate_project archive_project replace_project_bindings
  call (ensure_default first_id second_id owner now) db =
      after (ensure_default_project workspace first_id second_id owner now db) db
  call (create id first_id second_id owner name profile installation now) db =
      after
        (create_project_with_runtime_preference workspace id first_id second_id owner name profile
          installation now db)
        db
  call (rename owner id name expected now) db =
      after (update_project_name owner id name expected now db) db
  call (set_mode id mode expected now) db = after (set_project_mode id mode expected now db) db
  call (activate owner id now) db = after (activate_project owner id now db) db
  call (archive owner id expected now) db = after (archive_project owner id expected now db) db
  call (bind id bindings now) db = after_bind (replace_project_bindings id bindings now db) db
  call (elsewhere workflows run_sessions interactions) db = record db {
    workflows = workflows;
    run_sessions = run_sessions;
    interactions = interactions;
  }

  unfoldable pub run : List Call → ProjectDb → ProjectDb
  unfolding call
  run [] db = db
  run (c ∷ cs) db = run cs (call c db)

  call-Single : (c : Call) (db : ProjectDb) → Single db → Single (call c db)
  unfolding call
  call-Single (ensure_default first_id second_id owner now) db i =
      after-Single _ db i (λ p db' h.
        ensure_default_project-Single workspace first_id second_id owner now db db' p i h)
  call-Single (create id first_id second_id owner name profile installation now) db i =
      after-Single _ db i (λ p db' h.
        create_project-Single workspace id first_id second_id owner name profile installation now db
          db' p i h)
  call-Single (rename owner id name expected now) db i =
      after-Single _ db i
        (λ p db' h. update_project_name-Single owner id name expected now db db' p i h)
  call-Single (set_mode id mode expected now) db i =
      after-Single _ db i (λ p db' h. set_project_mode-Single id mode expected now db db' p i h)
  call-Single (activate owner id now) db i =
      after-Single _ db i (λ p db' h. activate_project-Single owner id now db db' p i h)
  call-Single (archive owner id expected now) db i =
      after-Single _ db i (λ p db' h. archive_project-Single owner id expected now db db' p i h)
  call-Single (bind id bindings now) db i =
      after_bind-Single _ db i (λ db' h. replace_project_bindings-Single id bindings now db db' i h)
  call-Single (elsewhere workflows run_sessions interactions) db i = i

  -- However the calls follow each other, with any writes to the tables of workflows, runs and
  -- interactions between them: if at most one project is active, no active project is archived and
  -- the ids differ, then the same holds afterwards.
  pub run-IsSingle :
      (cs : List Call) (db : ProjectDb) → IsSingle db.projects → IsSingle (run cs db).projects
  unfolding run
  run-IsSingle [] db i = i
  run-IsSingle (c ∷ cs) db i = run-IsSingle cs (call c db) (call-Single c db i)
