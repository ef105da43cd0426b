-- ===== src/Projects/Bindings.antt =====
-- internal/store/project.go: the agents and skills that are bound to a project.
use semantic_framework.Prelude.{
  ℕ, ◌+◌, String, not, List, [], ◌∷◌, ◌++◌, map, ◌==◌, mem_text, text_lt, select, order_by,
  trim_space, Bool, false, ◌||◌, guard, constraint, ◌>>◌, Result, ok, ◌>>=◌, if◌then◌else◌,
}
use semantic_framework.Prelude.Table.{update}
use semantic_framework.Projects.Rows.{Project, Binding, ProjectDb, project_key, get_project}
use semantic_framework.Projects.Active.{always}

pub record ProjectBindings : Type 0 where
  pub agent_ids : List String
  pub skill_names : List String

-- Whether inserting the values breaks the primary key of the table, (project_id, value).
abbrev pub has_repeats : List String → Bool
has_repeats [] = false
has_repeats (v ∷ vs) = mem_text v vs || has_repeats vs

-- The keys of the set, in some order.
abbrev pub collected : List String → List String
collected [] = []
collected (v ∷ vs) =
    let rest = collected vs in
    if trim_space v == ""
    then rest
    else if mem_text (trim_space v) rest
    then rest
    else trim_space v ∷ rest

unfoldable pub normalized_bindings : List String → List String
unfolding trim_space order_by
normalized_bindings values = order_by text_lt (collected values)

abbrev pub bound_to : String → List String → List Binding
bound_to id values = map (λ v. record { project_id = id; value = v }) values

abbrev pub rebound : String → List String → List Binding → List Binding
rebound id values rows = select (λ b. not (b.project_id == id)) rows ++ bound_to id values

abbrev pub touched : ℕ → Project → Project
touched now p = record p { revision = p.revision + 1; updated_at = now }

unfoldable pub replace_project_bindings :
    String → ProjectBindings → ℕ → ProjectDb → Result ProjectDb
unfolding get_project update normalized_bindings
replace_project_bindings id bindings now db = do
  p ← get_project id db
  guard (not (has_repeats (normalized_bindings bindings.agent_ids))) constraint
  guard (not (has_repeats (normalized_bindings bindings.skill_names))) constraint
  ok (record db {
    agent_bindings = rebound id (normalized_bindings bindings.agent_ids) db.agent_bindings;
    skill_bindings = rebound id (normalized_bindings bindings.skill_names) db.skill_bindings;
    projects = update project_key id always (touched now) db.projects;
  })

abbrev pub bindings_of : String → List Binding → List String
bindings_of id rows = order_by text_lt (map (λ b. b.value) (select (λ b. b.project_id == id) rows))

unfoldable pub get_project_bindings : String → ProjectDb → Result ProjectBindings
unfolding get_project order_by
get_project_bindings id db = do
  p ← get_project id db
  ok (record {
    agent_ids = bindings_of id db.agent_bindings;
    skill_names = bindings_of id db.skill_bindings;
  })
