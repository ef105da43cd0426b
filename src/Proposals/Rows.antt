-- ===== src/Proposals/Rows.antt =====
-- The rows of internal/store/plan_proposal.go, and the reads of one proposal.
use semantic_framework.Prelude.{
  ℕ, String, Bool, true, false, ◌&&◌, List, [], ◌∷◌, Option, none, some, ◌==◌, any, select, ltb,
  Result, ok, err, not_found, order_by,
}
use semantic_framework.Prelude.Table.{find}
use semantic_framework.Store.Status.{
  Status, pending, running, paused, stopping, completed, failed, stopped,
}
use semantic_framework.Store.Rows.{Db}

abbrev pub ready : String
ready = "ready"

abbrev pub approved : String
approved = "approved"

abbrev pub discarded : String
discarded = "discarded"

pub record PlanProposal : Type 0 where
  pub id : String
  pub project_id : String
  pub conversation_id : String
  pub revision : ℕ
  pub status : String
  pub goal : String
  pub summary : String
  pub approved_scope : String
  pub structured_plan : String
  pub document_markdown : String
  pub created_at : ℕ
  pub updated_at : ℕ

-- `plan_proposal_submissions`
pub record Submission : Type 0 where
  pub run_id : String
  pub proposal_id : String
  pub proposal_revision : ℕ
  pub created_at : ℕ

-- Columns of `chat_sessions`.
pub record Conversation : Type 0 where
  pub id : String
  pub project_id : String
  pub archived_at : Option ℕ

-- The workflow store's tables and those of the proposals.
pub record ProposalDb : Type 0 where
  pub base : Db
  pub plan_proposals : List PlanProposal
  pub submissions : List Submission
  pub conversations : List Conversation

abbrev pub proposal_key : PlanProposal → String
proposal_key p = p.id

abbrev pub submission_key : Submission → String
submission_key s = s.run_id

abbrev pub find_proposal : String → ProposalDb → Option PlanProposal
find_proposal id db = find proposal_key id db.plan_proposals

abbrev pub or_not_found : Option PlanProposal → Result PlanProposal
or_not_found none = err not_found
or_not_found (some p) = ok p

unfoldable pub get_plan_proposal : String → ProposalDb → Result PlanProposal
unfolding find
get_plan_proposal id db = or_not_found (find_proposal id db)

abbrev pub is_ready_in : String → PlanProposal → Bool
is_ready_in project p = p.project_id == project && p.status == ready

abbrev pub first : List PlanProposal → Option PlanProposal
first [] = none
first (p ∷ ps) = some p

unfoldable pub get_active_plan_proposal : String → ProposalDb → Result PlanProposal
unfolding order_by
get_active_plan_proposal project db = or_not_found (
    first (
      order_by (λ (p q : PlanProposal). ltb q.updated_at p.updated_at)
        (select (is_ready_in project) db.plan_proposals)))

-- `status IN ('pending','running','paused','stopping')`
abbrev pub is_open : Status → Bool
is_open pending = true
is_open running = true
is_open paused = true
is_open stopping = true
is_open completed = false
is_open failed = false
is_open stopped = false

abbrev pub has_open_workflow : String → Db → Bool
has_open_workflow project db = any (λ w. w.project_id == project && is_open w.status) db.workflows
