-- ===== src/Projects/Active.antt =====
-- internal/store/project.go: names, modes, the active project and the archive.
use semantic_framework.Prelude.{
  ℕ, zero, suc, ◌+◌, String, Bool, true, false, not, ◌&&◌, ◌||◌, List, Option, none, some, ◌==◌,
  eqb, ltb, is_some, trim_space, any, select, order_by, Result, ok, err, Error, guard, ◌>>=◌, ◌>>◌,
  if◌then◌else◌, not_found, invalid_state, invalid_argument, revision_conflict, project_archived,
  project_inactive, project_has_active_work, default_project_error,
}
use semantic_framework.Prelude.Table.{find, update, update_all, affected}
use semantic_framework.Projects.Rows.{
  Project, ProjectDb, project_key, development, running, is_open, get_project, first,
  has_active_work,
}
use semantic_framework.Projects.Create.{activated, with_project, with_projects}

-- One UPDATE of a project, or the error that is told when it affects no row.
abbrev pub write_or :
    Error
    → String
    → (Project → Bool)
    → (Project → Project)
    → ProjectDb
    → Result (Project × ProjectDb)
write_or e id test change db =
    if affected project_key id test db.projects
    then with_project (with_projects db (update project_key id test change db.projects))
        (get_project id (with_projects db (update project_key id test change db.projects)))
    else err e

abbrev pub write_error : String → ℕ → Option Project → Error
write_error owner expected none = not_found
write_error owner expected (some p) =
    if not (p.owner_id == owner)
    then not_found
    else if is_some p.archived_at
    then project_archived
    else if not p.is_active
    then project_inactive
    else if not (eqb p.revision expected)
    then revision_conflict
    else invalid_state

unfoldable pub project_write_error : String → String → ℕ → ProjectDb → Error
unfolding find
project_write_error owner id expected db =
    write_error owner expected (find project_key id db.projects)

abbrev pub is_positive : ℕ → Bool
is_positive zero = false
is_positive (suc n) = true

unfoldable pub update_project_name :
    String → String → String → ℕ → ℕ → ProjectDb → Result (Project × ProjectDb)
unfolding trim_space update affected get_project project_write_error
update_project_name owner id name expected now db = do
  guard (not (trim_space name == "") && is_positive expected) invalid_argument
  write_or (project_write_error owner id expected db) id
      (λ p. p.owner_id == owner && is_open p && eqb p.revision expected)
      (λ p. record p { name = trim_space name; revision = p.revision + 1; updated_at = now }) db

abbrev pub mode_error : Option Project → Error
mode_error none = not_found
mode_error (some p) =
    if is_some p.archived_at
    then project_archived
    else if not p.is_active
    then project_inactive
    else revision_conflict

unfoldable pub set_project_mode : String → String → ℕ → ℕ → ProjectDb → Result (Project × ProjectDb)
unfolding find update affected get_project
set_project_mode id mode expected now db = do
  guard (mode == development || mode == running) invalid_state
  write_or (mode_error (find project_key id db.projects)) id
      (λ p. is_open p && eqb p.revision expected)
      (λ p. record p { mode = mode; revision = p.revision + 1; updated_at = now }) db

-- `SELECT … WHERE id = ? AND owner_id = ?`
abbrev pub owned : String → Option Project → Result Project
owned owner none = err not_found
owned owner (some p) = if p.owner_id == owner then ok p else err not_found

abbrev pub deactivated : ℕ → Project → Project
deactivated now p = record p { is_active = false; revision = p.revision + 1; updated_at = now }

abbrev pub always : Project → Bool
always p = true

abbrev pub switch_to : String → ℕ → List Project → List Project
switch_to id now rows =
    update project_key id always (activated now)
      (update_all (λ p. p.is_active) (deactivated now) rows)

-- A project other than this one is active and has work.
abbrev pub is_blocked : String → ProjectDb → Bool
is_blocked id db = any (λ p. p.is_active && not (p.id == id) && has_active_work p.id db) db.projects

abbrev pub activate_row : Project → String → ℕ → ProjectDb → Result ProjectDb
activate_row p id now db =
    if p.is_active
    then ok db
    else if is_blocked id db
    then err project_has_active_work
    else ok (with_projects db (switch_to id now db.projects))

unfoldable pub activate_project : String → String → ℕ → ProjectDb → Result (Project × ProjectDb)
unfolding find update update_all get_project
activate_project owner id now db = do
  p ← owned owner (find project_key id db.projects)
  guard (not (is_some p.archived_at)) project_archived
  db' ← activate_row p id now db
  with_project db' (get_project id db')

-- `is_default DESC, updated_at DESC`
abbrev pub replaces_before : Project → Project → Bool
replaces_before p q =
    p.is_default && not q.is_default
    || (p.is_default && q.is_default || not p.is_default && not q.is_default)
      && ltb q.updated_at p.updated_at

abbrev pub can_replace : String → String → Project → Bool
can_replace owner id p = p.owner_id == owner && not (p.id == id) && not (is_some p.archived_at)

abbrev pub replacement : Project → String → String → List Project → Result (Option Project)
replacement p owner id rows =
    if p.is_active
    then elim (first (order_by replaces_before (select (can_replace owner id) rows))) [
      | none ↦ err invalid_state
      | some r ↦ ok (some r)
    ]
    else ok none

abbrev pub archived : ℕ → Project → Project
archived now p = record p {
  archived_at = some now;
  is_active = false;
  revision = p.revision + 1;
  updated_at = now;
}

abbrev pub can_archive : String → ℕ → Project → Bool
can_archive owner expected p = p.owner_id == owner && eqb p.revision expected

abbrev pub activate_replacement : Option Project → ℕ → List Project → List Project
activate_replacement none now rows = rows
activate_replacement (some r) now rows = update project_key r.id always (activated now) rows

-- The rest of the transaction for a project that is not archived.
unfoldable pub archive_row :
    Project → String → String → ℕ → ℕ → ProjectDb → Result (Project × ProjectDb)
unfolding update affected order_by get_project
archive_row p owner id expected now db = do
  guard (eqb p.revision expected) revision_conflict
  guard (not (has_active_work id db)) project_has_active_work
  other ← replacement p owner id db.projects
  guard (affected project_key id (can_archive owner expected) db.projects) revision_conflict
  let rows = update project_key id (can_archive owner expected) (archived now) db.projects
  let db' = with_projects db (activate_replacement other now rows)
  with_project db' (get_project id db')

abbrev pub archive_or_same :
    Project → String → String → ℕ → ℕ → ProjectDb → Result (Project × ProjectDb)
archive_or_same p owner id expected now db =
    if is_some p.archived_at then ok (p, db) else archive_row p owner id expected now db

unfoldable pub archive_project : String → String → ℕ → ℕ → ProjectDb → Result (Project × ProjectDb)
unfolding find archive_row
archive_project owner id expected now db = do
  guard (is_positive expected) invalid_argument
  p ← owned owner (find project_key id db.projects)
  guard (not p.is_default) default_project_error
  archive_or_same p owner id expected now db
