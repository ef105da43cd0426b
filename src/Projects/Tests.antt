-- ===== src/Projects/Tests.antt =====
-- Two projects of a user and one of another.
use semantic_framework.Prelude.{
  Option, Result, ok, err, String, true, false, List, [], ◌∷◌, none, some, ◌≡◌, refl, trim_space,
  order_by, arith,
}
use semantic_framework.Prelude.Table.{find, update, update_all, affected}
use semantic_framework.Projects.Rows.{Project, ProjectDb, project_key, get_project, development}
use semantic_framework.Projects.Create.{
  ensure_default_project, create_project_with_runtime_preference, activate_if_none,
  ensure_semantic_maps,
}
use semantic_framework.Projects.Active.{
  activate_project, archive_project, archive_row, update_project_name, project_write_error,
}
use semantic_framework.Projects.Counting.{active_count}
use semantic_framework.Projects.Single.{IsSingle}
use semantic_framework.Projects.History.{
  Call, ensure_default, create, rename, activate, archive, call, run, after, run-IsSingle,
}
use semantic_framework.Projects.Bindings.{
  ProjectBindings, normalized_bindings, replace_project_bindings, get_project_bindings,
}
use semantic_framework.Projects.Bound.{get_project_bindings-replace_project_bindings}
use semantic_framework.Projects.Normal.{IsNormal}
use semantic_framework.Projects.Activated.{activate_project-only}

abbrev place : String → String
place id = id

abbrev empty : ProjectDb
empty = record {
  projects = [];
  workflows = [];
  run_sessions = [];
  interactions = [];
  semantic_maps = [];
  map_generations = [];
  agent_bindings = [];
  skill_bindings = [];
}

empty-IsSingle : IsSingle []
empty-IsSingle = record { single = omega arith; shown = tt; distinct = tt }

abbrev some_calls : List Call
some_calls =
    ensure_default "m1" "m2" "u1" 1
    ∷ create "p1" "m3" "m4" "u1" "tidy" "" "" 2
    ∷ activate "u1" "p1" 3
    ∷ rename "u1" "p1" "tidier" 2 4
    ∷ archive "u1" "p1" 3 5
    ∷ []

run-IsSingle_example : IsSingle (run place some_calls empty).projects
run-IsSingle_example = run-IsSingle place some_calls empty empty-IsSingle

-- The archived project is replaced by the default one.
some_calls_end : active_count (run place some_calls empty).projects ≡ 1
unfolding run call find update update_all affected order_by trim_space get_project activate_if_none
    ensure_semantic_maps ensure_default_project create_project_with_runtime_preference
    update_project_name project_write_error activate_project archive_project archive_row
some_calls_end = refl

abbrev two : List Call
two = ensure_default "m1" "m2" "u1" 1 ∷ create "p1" "m3" "m4" "u1" "tidy" "" "" 2 ∷ []

two_projects : ProjectDb
two_projects = run place two empty

abbrev switched_db : ProjectDb
switched_db = after (activate_project "u1" "p1" 3 two_projects) empty

abbrev tidy : Project
tidy = record {
  id = "p1";
  owner_id = "u1";
  name = "tidy";
  workspace_root = "p1";
  is_default = false;
  mode = development;
  is_active = true;
  runtime_profile_id = "";
  preferred_runtime_installation_id = "";
  archived_at = none;
  revision = 2;
  created_at = 2;
  updated_at = 3;
}

activate_project-only_example :
    (find project_key "p1" switched_db.projects ≡ some tidy)
    × (true ≡ true)
    × (active_count switched_db.projects ≡ 1)
unfolding two_projects run call find update update_all affected order_by trim_space get_project
    activate_if_none ensure_semantic_maps ensure_default_project
    create_project_with_runtime_preference activate_project
activate_project-only_example =
    activate_project-only "u1" "p1" 3 two_projects switched_db tidy
      (run-IsSingle place two empty empty-IsSingle) refl

abbrev or_first : Option Project → Project
or_first (some p) = p
or_first none = tidy

abbrev some_bindings : ProjectBindings
some_bindings = record {
  agent_ids = " worker" ∷ "leader" ∷ "" ∷ "worker" ∷ [];
  skill_names = "pick" ∷ [];
}

abbrev or_empty : Result ProjectDb → ProjectDb
or_empty (ok db) = db
or_empty (err e) = empty

abbrev bound_db : ProjectDb
bound_db = or_empty (replace_project_bindings "p1" some_bindings 9 two_projects)

get_project_bindings-replace_project_bindings_example :
    (db' : ProjectDb) × ((bs : ProjectBindings) × (replace_project_bindings "p1" some_bindings 9
          two_projects
        ≡ ok db')
      × (get_project_bindings "p1" db' ≡ ok bs)
      × IsNormal some_bindings.agent_ids bs.agent_ids
      × IsNormal some_bindings.skill_names bs.skill_names)
unfolding two_projects run call find update update_all affected order_by trim_space get_project
    activate_if_none ensure_semantic_maps ensure_default_project
    create_project_with_runtime_preference
get_project_bindings-replace_project_bindings_example =
    get_project_bindings-replace_project_bindings "p1" some_bindings 9 two_projects
      (or_first (find project_key "p1" two_projects.projects)) refl

read_bound :
    get_project_bindings "p1" bound_db
    ≡ ok (record { agent_ids = "leader" ∷ "worker" ∷ []; skill_names = "pick" ∷ [] })
unfolding two_projects run call find update update_all affected order_by trim_space get_project
    activate_if_none ensure_semantic_maps ensure_default_project
    create_project_with_runtime_preference normalized_bindings replace_project_bindings
    get_project_bindings
read_bound = refl

bindings_normalized : normalized_bindings some_bindings.agent_ids ≡ "leader" ∷ "worker" ∷ []
unfolding normalized_bindings trim_space order_by
bindings_normalized = refl
