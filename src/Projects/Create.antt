-- ===== src/Projects/Create.antt =====
-- internal/store/project.go: `EnsureDefaultProject` and `CreateProject`, with the maps that a project gets
-- (`ensureSemanticMapsTx` of internal/store/semantic_map.go).
use semantic_framework.Prelude.{
  ℕ, ◌+◌, String, Bool, true, false, not, ◌&&◌, ◌||◌, List, [], ◌∷◌, ◌++◌, none, ◌==◌, eqb, is_some,
  trim_space, any, Result, ok, err, guard, ◌>>=◌, ◌>>◌, if◌then◌else◌, constraint, invalid_argument,
}
use semantic_framework.Prelude.Table.{find, update}
use semantic_framework.Projects.Rows.{
  Project, SemanticMap, ProjectDb, project_key, development, is_open, get_project,
  default_project_id,
}

abbrev pub activated : ℕ → Project → Project
activated now p = record p { is_active = true; revision = p.revision + 1; updated_at = now }

abbrev pub not_archived : Project → Bool
not_archived p = not (is_some p.archived_at)

unfoldable pub activate_if_none : String → ℕ → List Project → List Project
unfolding update
activate_if_none id now projects =
    if any is_open projects
    then projects
    else update project_key id not_archived (activated now) projects

abbrev pub new_map : String → String → String → ℕ → SemanticMap
new_map id project slot now = record {
  id = id;
  project_id = project;
  slot = slot;
  generation = 1;
  revision = 0;
  frame_id = "world";
  created_at = now;
  updated_at = now;
}

-- Whether `INSERT OR IGNORE` ignores the row.
abbrev pub has_map : String → String → String → ProjectDb → Bool
has_map id project slot db =
    any (λ m. m.id == id || m.project_id == project && m.slot == slot) db.semantic_maps

abbrev pub has_generation : String → ProjectDb → Bool
has_generation id db = any (λ g. g.map_id == id && eqb g.generation 1) db.map_generations

abbrev pub with_map : String → String → String → ℕ → ProjectDb → ProjectDb
with_map id project slot now db = record db {
  semantic_maps = db.semantic_maps ++ new_map id project slot now ∷ [];
  map_generations =
      db.map_generations
      ++ record { map_id = id; generation = 1; reason = "initial"; created_at = now; revision = 0 }
        ∷ [];
}

abbrev pub insert_map : String → String → String → ℕ → ProjectDb → Result ProjectDb
insert_map id project slot now db =
    if has_map id project slot db
    then ok db
    else if has_generation id db
    then err constraint
    else ok (with_map id project slot now db)

unfoldable pub ensure_semantic_maps : String → String → String → ℕ → ProjectDb → Result ProjectDb
ensure_semantic_maps first_id second_id project now db = do
  db' ← insert_map first_id project "simulation_map" now db
  insert_map second_id project "real_map" now db'

abbrev pub with_project : ProjectDb → Result Project → Result (Project × ProjectDb)
with_project db (ok p) = ok (p, db)
with_project db (err e) = err e

abbrev pub with_projects : ProjectDb → List Project → ProjectDb
with_projects db rows = record db { projects = rows }

-- `workspace` is the directory of a project, beside the database.
module _ (workspace : String → String) where
  abbrev pub default_project : String → String → ℕ → Project
  default_project id owner now = record {
    id = id;
    owner_id = owner;
    name = "Default Project";
    workspace_root = workspace id;
    is_default = true;
    mode = development;
    is_active = false;
    runtime_profile_id = "";
    preferred_runtime_installation_id = "";
    archived_at = none;
    revision = 1;
    created_at = now;
    updated_at = now;
  }

  -- `INSERT OR IGNORE`: the id, and one default project of an owner.
  abbrev pub has_default : String → String → List Project → Bool
  has_default id owner rows =
      is_some (find project_key id rows) || any (λ p. p.owner_id == owner && p.is_default) rows

  abbrev pub insert_default : String → String → ℕ → List Project → List Project
  insert_default id owner now rows =
      if has_default id owner rows then rows else rows ++ default_project id owner now ∷ []

  abbrev pub activate_owned : String → String → ℕ → List Project → List Project
  activate_owned id owner now rows = if owner == "" then rows else activate_if_none id now rows

  unfoldable pub ensure_default_project :
      String → String → String → ℕ → ProjectDb → Result (Project × ProjectDb)
  unfolding find activate_if_none ensure_semantic_maps get_project
  ensure_default_project first_id second_id owner now db = do
    let id = default_project_id owner
    let rows = activate_owned id owner now (insert_default id owner now db.projects)
    db' ← ensure_semantic_maps first_id second_id id now (with_projects db rows)
    with_project db' (get_project id db')

  abbrev pub new_project : String → String → String → String → String → ℕ → Project
  new_project id owner name profile installation now = record {
    id = id;
    owner_id = owner;
    name = name;
    workspace_root = workspace id;
    is_default = false;
    mode = development;
    is_active = false;
    runtime_profile_id = profile;
    preferred_runtime_installation_id = installation;
    archived_at = none;
    revision = 1;
    created_at = now;
    updated_at = now;
  }

  unfoldable pub create_project_with_runtime_preference :
      String
      → String
      → String
      → String
      → String
      → String
      → String
      → ℕ
      → ProjectDb
      → Result (Project × ProjectDb)
  unfolding find trim_space activate_if_none ensure_semantic_maps get_project
  create_project_with_runtime_preference id first_id second_id owner name profile installation now
        db =
      do
        let row =
            new_project id owner (trim_space name) (trim_space profile) (trim_space installation)
              now
        guard (not (owner == "") && not (row.name == "")) invalid_argument
        guard (not (is_some (find project_key id db.projects))) constraint
        let rows = activate_if_none id now (db.projects ++ row ∷ [])
        db' ← ensure_semantic_maps first_id second_id id now (with_projects db rows)
        with_project db' (get_project id db')

  unfoldable pub create_project :
      String → String → String → String → String → ℕ → ProjectDb → Result (Project × ProjectDb)
  unfolding create_project_with_runtime_preference
  create_project id first_id second_id owner name now db =
      create_project_with_runtime_preference id first_id second_id owner name "" "" now db
