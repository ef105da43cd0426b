-- ===== src/Proposals/Submit.antt =====
-- internal/store/plan_proposal.go: `SubmitPlanProposalForRun` and `DiscardPlanProposal`.
use semantic_framework.Prelude.{
  ℕ, ◌+◌, String, Bool, true, false, not, ◌&&◌, List, [], ◌∷◌, ◌++◌, Option, none, some, ◌==◌, eqb,
  is_some, is_blank, trim_space, select, Result, ok, err, guard, ◌>>=◌, ◌>>◌, if◌then◌else◌,
  invalid_state, not_found, no_rows, revision_conflict, project_inactive, project_archived,
  workflow_exists, malformed, Error,
}
use semantic_framework.Prelude.Table.{find, update, affected}
use semantic_framework.Store.Rows.{WorkflowDraft, TaskDraft, Project}
use semantic_framework.Store.Tables.{json_or}
use semantic_framework.Store.Draft.{validate_draft}
use semantic_framework.Store.Workflow.{project_key}
use semantic_framework.Proposals.Rows.{
  PlanProposal, Submission, Conversation, ProposalDb, proposal_key, submission_key, find_proposal,
  get_plan_proposal, ready, discarded, is_ready_in, first, has_open_workflow,
}

-- The arguments of a submission.
pub record Submitted : Type 0 where
  pub run_id : String
  pub project_id : String
  pub conversation_id : String
  pub requested : WorkflowDraft
  pub summary : String
  pub approved_scope : String
  pub document : String

abbrev pub not_empty : List TaskDraft → Bool
not_empty [] = false
not_empty (t ∷ ts) = true

abbrev pub check_conversation : String → Option Conversation → Result (Unit {0})
check_conversation project none = err not_found
check_conversation project (some c) =
    guard (c.project_id == project && not (is_some c.archived_at)) not_found

-- The same checks before a submission and before an approval.
abbrev pub check_project : Error → Option Project → Result (Unit {0})
check_project e none = err e
check_project e (some p) = do
  guard (not (is_some p.archived_at)) project_archived
  guard p.is_active project_inactive

-- What a run that has submitted before is told: the row as it is now.
abbrev pub resubmitted :
    Submitted → Option PlanProposal → ProposalDb → Result (PlanProposal × Bool × ProposalDb)
resubmitted s none db = err no_rows
resubmitted s (some p) db =
    if p.project_id == s.project_id && p.conversation_id == s.conversation_id
    then ok (p, true, db)
    else err invalid_state

abbrev pub can_change : ℕ → PlanProposal → Bool
can_change revision p = eqb p.revision revision && p.status == ready

abbrev pub with_submission : String → String → ℕ → ℕ → List Submission → List Submission
with_submission run id revision now rows =
    if run == ""
    then rows
    else rows
      ++ record { run_id = run; proposal_id = id; proposal_revision = revision; created_at = now }
        ∷ []

abbrev pub read_submitted :
    ProposalDb → Result PlanProposal → Result (PlanProposal × Bool × ProposalDb)
read_submitted db (ok p) = ok (p, false, db)
read_submitted db (err e) = err e

abbrev pub earlier : Submitted → ProposalDb → Option Submission
earlier s db = if s.run_id == "" then none else find submission_key s.run_id db.submissions

-- `json.Marshal`, which may fail.
abbrev pub expect_encoded : Option String → Result String
expect_encoded none = err malformed
expect_encoded (some text) = ok text

-- `encoded` is the plan as JSON.
module _ (encoded : String) where
  abbrev pub revised : Submitted → WorkflowDraft → ℕ → PlanProposal → PlanProposal
  revised s draft now p = record p {
    revision = p.revision + 1;
    goal = trim_space draft.goal;
    summary = trim_space s.summary;
    approved_scope = json_or s.approved_scope "{}";
    structured_plan = encoded;
    document_markdown = s.document;
    updated_at = now;
  }

  abbrev pub new_proposal : String → Submitted → WorkflowDraft → ℕ → PlanProposal
  new_proposal id s draft now = record {
    id = id;
    project_id = s.project_id;
    conversation_id = s.conversation_id;
    revision = 1;
    status = ready;
    goal = trim_space draft.goal;
    summary = trim_space s.summary;
    approved_scope = json_or s.approved_scope "{}";
    structured_plan = encoded;
    document_markdown = s.document;
    created_at = now;
    updated_at = now;
  }

  -- The id and the revision that are submitted, and the table.
  abbrev pub write_proposal :
      String
      → Submitted
      → WorkflowDraft
      → ℕ
      → Option PlanProposal
      → List PlanProposal
      → Result (String × ℕ × List PlanProposal)
  write_proposal id s draft now (some active) rows =
      if active.conversation_id == s.conversation_id
      then (if affected proposal_key active.id (can_change active.revision) rows
          then ok (
            active.id,
            active.revision + 1,
            update proposal_key active.id (can_change active.revision) (revised s draft now) rows,
          )
          else err revision_conflict)
      else err workflow_exists
  write_proposal id s draft now none rows =
      if is_some (find proposal_key id rows)
      then err workflow_exists
      else ok (id, 1, rows ++ new_proposal id s draft now ∷ [])

module _ (encode : WorkflowDraft → Option String) where
  -- The rest of the transaction when the run has not submitted before.
  abbrev pub submit_first :
      String
      → Submitted
      → WorkflowDraft
      → ℕ
      → ProposalDb
      → Result (PlanProposal × Bool × ProposalDb)
  submit_first new_id s draft now db = do
    guard (not (has_open_workflow s.project_id db.base)) workflow_exists
    encoded ← expect_encoded (encode draft)
    (id, revision, rows) ←
        write_proposal encoded new_id s draft now
          (first (select (is_ready_in s.project_id) db.plan_proposals)) db.plan_proposals
    let db' = record db {
      plan_proposals = rows;
      submissions = with_submission s.run_id id revision now db.submissions;
    }
    read_submitted db' (get_plan_proposal id db')

  abbrev pub submit_or_reuse :
      String
      → Submitted
      → WorkflowDraft
      → ℕ
      → Option Submission
      → ProposalDb
      → Result (PlanProposal × Bool × ProposalDb)
  submit_or_reuse new_id s draft now (some row) db =
      resubmitted s (find_proposal row.proposal_id db) db
  submit_or_reuse new_id s draft now none db = submit_first new_id s draft now db

  -- The proposal, whether the run had submitted before, and the database.
  unfoldable pub submit_plan_proposal_for_run :
      (ℕ → String)
      → (ℕ → ℕ → String)
      → String
      → Submitted
      → ℕ
      → ProposalDb
      → Result (PlanProposal × Bool × ProposalDb)
  unfolding validate_draft trim_space find update affected get_plan_proposal
  submit_plan_proposal_for_run new_task_id new_sub_task_id new_id s now db = do
    guard (not (is_blank s.requested.goal)) invalid_state
    draft ← validate_draft new_task_id new_sub_task_id s.requested
    guard (not_empty draft.tasks) invalid_state
    check_conversation s.project_id (find (λ c. c.id) s.conversation_id db.conversations)
    check_project not_found (find project_key s.project_id db.base.projects)
    submit_or_reuse new_id s draft now (earlier s db) db

abbrev pub closed_proposal : String → ℕ → PlanProposal → PlanProposal
closed_proposal status now p = record p {
  status = status;
  revision = p.revision + 1;
  updated_at = now;
}

abbrev pub close_proposals : String → ℕ → String → ℕ → List PlanProposal → List PlanProposal
close_proposals id expected status now rows =
    update proposal_key id (can_change expected) (closed_proposal status now) rows

abbrev pub read_discarded : ProposalDb → Result PlanProposal → Result (PlanProposal × ProposalDb)
read_discarded db (ok p) = ok (p, db)
read_discarded db (err e) = err e

unfoldable pub discard_plan_proposal :
    String → ℕ → ℕ → ProposalDb → Result (PlanProposal × ProposalDb)
unfolding update affected get_plan_proposal
discard_plan_proposal id expected now db = do
  guard (affected proposal_key id (can_change expected) db.plan_proposals) revision_conflict
  let db' = record db {
    plan_proposals = close_proposals id expected discarded now db.plan_proposals;
  }
  read_discarded db' (get_plan_proposal id db')
