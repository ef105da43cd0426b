-- ===== src/Interactions/Rows.antt =====
-- The row of internal/store/interaction.go, and the columns of the other tables that it reads.
use semantic_framework.Prelude.{ℕ, String, Bool, List, [], ◌∷◌, Option, any, ◌==◌}
use semantic_framework.Store.Rows.{Workflow, Task}

abbrev pub pending : String
pending = "pending"

abbrev pub answered : String
answered = "answered"

abbrev pub expired : String
expired = "expired"

abbrev pub cancelled : String
cancelled = "cancelled"

-- A nil time is `none`.
pub record Interaction : Type 0 where
  pub id : String
  pub project_id : String
  pub session_id : String
  pub revision : ℕ
  pub workflow_id : String
  pub task_id : String
  pub ui_kind : String
  pub source_revision : ℕ
  pub map_id : String
  pub map_generation : ℕ
  pub target_agent_id : String
  pub response_schema : String
  pub agent : String
  pub kind : String
  pub status : String
  pub payload : String
  pub reply : String
  pub run_id : String
  pub checkpoint_id : String
  pub created_at : ℕ
  pub answered_at : Option ℕ
  pub expired_at : Option ℕ
  pub expires_at : Option ℕ
  pub cancelled_at : Option ℕ
  pub handled_at : Option ℕ
  pub handling_error : String

-- Columns of `chat_sessions`, `projects`, `run_sessions` and `semantic_maps`.
pub record ChatSession : Type 0 where
  pub id : String
  pub user_id : String
  pub project_id : String
  pub revision : ℕ

pub record ProjectState : Type 0 where
  pub id : String
  pub owner_id : String
  pub is_active : Bool
  pub archived_at : Option ℕ

pub record RunOwner : Type 0 where
  pub id : String
  pub project_id : String
  pub chat_session_id : String
  pub workflow_id : String
  pub task_id : String

pub record SemanticMap : Type 0 where
  pub project_id : String
  pub slot : String
  pub generation : ℕ

pub record InteractionDb : Type 0 where
  pub interactions : List Interaction
  pub chat_sessions : List ChatSession
  pub projects : List ProjectState
  pub run_sessions : List RunOwner
  pub workflows : List Workflow
  pub tasks : List Task
  pub semantic_maps : List SemanticMap

abbrev pub interaction_key : Interaction → String
interaction_key it = it.id

abbrev pub system_default_project_id : String
system_default_project_id = "proj-default-system"

unfoldable pub valid_interaction_ui_kind : String → Bool
valid_interaction_ui_kind kind =
    any (λ k. kind == k)
      ("form" ∷ "single_select" ∷ "multi_select" ∷ "parameter" ∷ "image_select" ∷ "map_select"
        ∷ "file_select" ∷ [])
