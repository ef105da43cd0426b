-- ===== src/Projects/Migrated.antt =====
-- internal/store/project.go: `ensureMigratedDefaultProjects`, which gives every user a default project and puts
-- the Conversations without a project there.
use semantic_framework.Prelude.{
  ℕ, String, Bool, not, ◌&&◌, List, [], ◌∷◌, ◌++◌, map, ◌==◌, mem_text, text_lt, select, order_by,
  Result, ok, err, ◌≡◌, refl, if◌then◌else◌,
}
use semantic_framework.Prelude.Table.{update_all}
use semantic_framework.Projects.Rows.{Project, ProjectDb}
use semantic_framework.Projects.Create.{ensure_default_project}
use semantic_framework.Projects.Created.{Single, ensure_default_project-Single}

-- Columns of `chat_sessions`.
pub record Session : Type 0 where
  pub user_id : String
  pub project_id : String

-- The tables of the projects, the ids of `users`, and the Conversations.
pub record MigrationDb : Type 0 where
  pub base : ProjectDb
  pub users : List String
  pub chat_sessions : List Session

abbrev pub without_repeats : List String → List String
without_repeats [] = []
without_repeats (v ∷ vs) =
    let rest = without_repeats vs in if mem_text v rest then rest else v ∷ rest

unfoldable pub owners : MigrationDb → List String
unfolding order_by
owners db = order_by text_lt (
    select (λ o. not (o == ""))
      (without_repeats (db.users ++ map (λ s. s.user_id) db.chat_sessions)))

abbrev pub is_unplaced : String → Session → Bool
is_unplaced owner s = s.user_id == owner && s.project_id == ""

-- The call outside a transaction that places an owner's Conversations.
unfoldable pub place_sessions : String → String → MigrationDb → MigrationDb
unfolding update_all
place_sessions owner project db = record db {
  chat_sessions =
      update_all (is_unplaced owner) (λ s. record s { project_id = project }) db.chat_sessions;
}

-- `drawn` are the ids of an owner's two maps and `clock` is the time of its call. What was written
-- for the owners before a failure stays.
module _ (workspace : String → String) (drawn : String → String × String) (clock : String → ℕ) where
  abbrev pub ensured : String → MigrationDb → Result (Project × ProjectDb)
  ensured owner db =
      ensure_default_project workspace (drawn owner).0 (drawn owner).1 owner (clock owner) db.base

  abbrev pub with_base : ProjectDb → MigrationDb → MigrationDb
  with_base base db = record db { base = base }

  unfoldable pub migrate_owners : List String → MigrationDb → MigrationDb × Result (Unit {0})
  unfolding ensure_default_project place_sessions
  migrate_owners [] db = (db, ok tt)
  migrate_owners (owner ∷ rest) db = elim (ensured owner db) [
    | err e ↦ (db, err e)
    | ok a ↦ migrate_owners rest (place_sessions owner a.0.id (with_base a.1 db))
  ]

  unfoldable pub ensure_migrated_default_projects : MigrationDb → MigrationDb × Result (Unit {0})
  unfolding ensure_default_project owners migrate_owners
  ensure_migrated_default_projects db = elim (ensured "" db) [
    | err e ↦ (db, err e)
    | ok a ↦ migrate_owners (owners db) (with_base a.1 db)
  ]

  ensured-Single :
      (owner : String) (db : MigrationDb) (p : Project) (base : ProjectDb)
      → Single db.base
      → ensured owner db ≡ ok (p, base)
      → Single base
  ensured-Single owner db p base i h =
      ensure_default_project-Single workspace (drawn owner).0 (drawn owner).1 owner (clock owner)
        db.base base p i h

  migrate_owners-Single :
      (os : List String) (db : MigrationDb) → Single db.base → Single (migrate_owners os db).0.base
  unfolding migrate_owners place_sessions
  migrate_owners-Single [] db i = i
  migrate_owners-Single (owner ∷ rest) db i =
      go (ensured owner db) refl (λ d k. migrate_owners-Single rest d k)
    where
      go :
          (r : Result (Project × ProjectDb))
          → ensured owner db ≡ r
          → ((d : MigrationDb) → Single d.base → Single (migrate_owners rest d).0.base)
          → Single (
              (elim r as (λ _. MigrationDb × Result (Unit {0})) [
                | err e ↦ (db, err e)
                | ok a ↦ migrate_owners rest (place_sessions owner a.0.id (with_base a.1 db))
              ]).0.base)
      go (err e) h ih = i
      go (ok (p, base)) h ih =
          ih (place_sessions owner p.id (with_base base db)) (ensured-Single owner db p base i h)

  -- The migration leaves at most one project active, also when it fails on the way.
  pub ensure_migrated_default_projects-Single :
      (db : MigrationDb) → Single db.base → Single (ensure_migrated_default_projects db).0.base
  unfolding ensure_migrated_default_projects
  ensure_migrated_default_projects-Single db i = go (ensured "" db) refl
    where
      go :
          (r : Result (Project × ProjectDb))
          → ensured "" db ≡ r
          → Single (
              (elim r as (λ _. MigrationDb × Result (Unit {0})) [
                | err e ↦ (db, err e)
                | ok a ↦ migrate_owners (owners db) (with_base a.1 db)
              ]).0.base)
      go (err e) h = i
      go (ok (p, base)) h =
          migrate_owners-Single (owners db) (with_base base db) (ensured-Single "" db p base i h)
