-- ===== src/Projects/Rows.antt =====
-- The rows of internal/store/project.go and its queries.
use Prim.Native.String
use semantic_framework.Prelude.{
  ℕ, String, Bool, not, ◌&&◌, ◌||◌, List, [], ◌∷◌, Option, none, some, ◌==◌, eqb, ltb, is_some, any,
  select, text_lt, order_by, Result, ok, err, not_found, if◌then◌else◌,
}
use semantic_framework.Prelude.Table.{find}

pub record Project : Type 0 where
  pub id : String
  pub owner_id : String
  pub name : String
  pub workspace_root : String
  pub is_default : Bool
  pub mode : String
  pub is_active : Bool
  pub runtime_profile_id : String
  pub preferred_runtime_installation_id : String
  pub archived_at : Option ℕ
  pub revision : ℕ
  pub created_at : ℕ
  pub updated_at : ℕ

-- Columns of the tables in which a project has work: `workflows`, `run_sessions` and
-- `interactions`.
pub record Work : Type 0 where
  pub project_id : String
  pub status : String

pub record SemanticMap : Type 0 where
  pub id : String
  pub project_id : String
  pub slot : String
  pub generation : ℕ
  pub revision : ℕ
  pub frame_id : String
  pub created_at : ℕ
  pub updated_at : ℕ

pub record MapGeneration : Type 0 where
  pub map_id : String
  pub generation : ℕ
  pub reason : String
  pub created_at : ℕ
  pub revision : ℕ

-- A row of `project_agent_bindings` or of `project_skill_bindings`.
pub record Binding : Type 0 where
  pub project_id : String
  pub value : String

pub record ProjectDb : Type 0 where
  pub projects : List Project
  pub workflows : List Work
  pub run_sessions : List Work
  pub interactions : List Work
  pub semantic_maps : List SemanticMap
  pub map_generations : List MapGeneration
  pub agent_bindings : List Binding
  pub skill_bindings : List Binding

abbrev pub development : String
development = "development"

abbrev pub running : String
running = "running"

abbrev pub project_key : Project → String
project_key p = p.id

abbrev pub first {ℓ} : {A : Type ℓ} → List A → Option A
first [] = none
first (x ∷ xs) = some x

abbrev pub or_not_found : Option Project → Result Project
or_not_found none = err not_found
or_not_found (some p) = ok p

unfoldable pub get_project : String → ProjectDb → Result Project
unfolding find
get_project id db = or_not_found (find project_key id db.projects)

-- `is_active = 1 AND archived_at IS NULL`
abbrev pub is_open : Project → Bool
is_open p = p.is_active && not (is_some p.archived_at)

unfoldable pub get_active_project : String → ProjectDb → Result Project
get_active_project owner db =
    or_not_found (first (select (λ p. p.owner_id == owner && is_open p) db.projects))

unfoldable pub list_development_projects : ProjectDb → List Project
unfolding order_by
list_development_projects db =
    order_by (λ (p q : Project). text_lt p.id q.id)
      (select (λ p. not (is_some p.archived_at) && p.mode == development) db.projects)

-- `is_active DESC, updated_at DESC, id`
abbrev pub listed_before : Project → Project → Bool
listed_before p q =
    p.is_active && not q.is_active
    || (p.is_active && q.is_active || not p.is_active && not q.is_active)
      && (ltb q.updated_at p.updated_at || eqb p.updated_at q.updated_at && text_lt p.id q.id)

unfoldable pub list_projects : String → Bool → ProjectDb → List Project
unfolding order_by
list_projects owner include_archived db = order_by listed_before (
    select (λ p. p.owner_id == owner && (include_archived || not (is_some p.archived_at)))
      db.projects)

abbrev pub default_project_id : String → String
default_project_id owner =
    if owner == "" then "proj-default-system" else String.◌++◌ "proj-default-" owner

-- Work of a project that has not ended.
abbrev pub has_active_workflow : String → ProjectDb → Bool
has_active_workflow id db =
    any
      (λ w.
        w.project_id == id
        && (w.status == "pending"
            || w.status == "running"
            || w.status == "paused"
            || w.status == "stopping"))
      db.workflows

abbrev pub has_active_run : String → ProjectDb → Bool
has_active_run id db =
    any
      (λ r.
        r.project_id == id
        && (r.status == "queued"
            || r.status == "running"
            || r.status == "waiting_input"
            || r.status == "cancelling"))
      db.run_sessions

abbrev pub has_pending_interaction : String → ProjectDb → Bool
has_pending_interaction id db =
    any (λ i. i.project_id == id && i.status == "pending") db.interactions

abbrev pub has_active_work : String → ProjectDb → Bool
has_active_work id db =
    has_active_workflow id db || has_active_run id db || has_pending_interaction id db
