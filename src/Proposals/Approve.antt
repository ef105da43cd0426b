-- ===== src/Proposals/Approve.antt =====
-- internal/store/plan_proposal.go: `ApprovePlanProposal`, the only way from a plan to a workflow.
use semantic_framework.Prelude.{
  ℕ, ◌+◌, String, Bool, not, ◌&&◌, ◌||◌, [], ◌∷◌, ◌++◌, Option, none, some, is_some, trim_space,
  Result, ok, err, guard, ◌>>=◌, ◌>>◌, if◌then◌else◌, invalid_state, not_found, no_rows,
  revision_conflict, workflow_exists, malformed,
}
use semantic_framework.Prelude.Table.{find, update, affected}
use semantic_framework.Store.Status.{running}
use semantic_framework.Store.Rows.{Workflow, WorkflowDraft, WorkflowView, Project, Db}
use semantic_framework.Store.Tables.{json_or, workflow_key}
use semantic_framework.Store.Draft.{validate_draft}
use semantic_framework.Store.Plan.{replace_plan}
use semantic_framework.Store.Workflow.{project_key, save_workflow_revision, get_workflow_view}
use semantic_framework.Proposals.Rows.{
  PlanProposal, ProposalDb, proposal_key, find_proposal, approved, has_open_workflow,
}
use semantic_framework.Proposals.Submit.{not_empty, check_project, can_change, close_proposals}

abbrev pub opened_workflow : String → PlanProposal → WorkflowDraft → ℕ → Workflow
opened_workflow id p draft now = record {
  id = id;
  project_id = p.project_id;
  conversation_id = p.conversation_id;
  goal = trim_space draft.goal;
  approved_scope = json_or p.approved_scope "{}";
  constraints = json_or draft.constraints "[]";
  completion_criteria = json_or draft.completion_criteria "[]";
  map_scope = json_or draft.map_scope "{}";
  status = running;
  reason = "";
  revision = 1;
  confirmed_revision = 1;
  source_interaction_id = "";
  created_at = now;
  started_at = some now;
  updated_at = now;
  ended_at = none;
}

-- The primary key and the index on open workflows, which the count before has looked at.
abbrev pub insert_workflow : Workflow → Db → Result Db
insert_workflow w db =
    if is_some (find workflow_key w.id db.workflows) || has_open_workflow w.project_id db
    then err workflow_exists
    else ok (record db { workflows = db.workflows ++ w ∷ [] })

abbrev pub is_writable : Project → Bool
is_writable p = p.is_active && not (is_some p.archived_at)

abbrev pub start_project : String → ℕ → Db → Db
start_project id now db = record db {
  projects =
      update project_key id is_writable
        (λ p. record p { mode = "running"; revision = p.revision + 1; updated_at = now })
        db.projects;
}

abbrev pub db_of {ℓ} : {A : Type ℓ} → Result (A × Db) → Result Db
db_of (ok (a, db)) = ok db
db_of (err e) = err e

abbrev pub expect_proposal : Option PlanProposal → Result PlanProposal
expect_proposal none = err not_found
expect_proposal (some p) = ok p

abbrev pub expect_draft : Option WorkflowDraft → Result WorkflowDraft
expect_draft none = err malformed
expect_draft (some d) = ok d

-- `decode` is encoding/json, and the arguments before it are the ids that are drawn.
module _ (new_task_id : ℕ → String) (new_sub_task_id : ℕ → ℕ → String) (taken_task_id : ℕ → String)
    (fresh : ℕ → ℕ → String) (prefix : String → String)
    (decode : String → Option WorkflowDraft) where
  -- The workflow, its plan, the project and the proposal are written together.
  unfoldable pub write_approval :
      String → String → ℕ → PlanProposal → WorkflowDraft → ℕ → ProposalDb → Result ProposalDb
  unfolding find update affected replace_plan save_workflow_revision trim_space
  write_approval workflow_id id expected p draft now db = do
    let workflow = opened_workflow workflow_id p draft now
    opened ← insert_workflow workflow db.base
    planned ← db_of (replace_plan prefix taken_task_id fresh workflow draft now opened)
    let started = start_project p.project_id now planned
    guard (affected proposal_key id (can_change expected) db.plan_proposals) revision_conflict
    saved ← db_of (save_workflow_revision workflow_id 1 now started)
    ok (record db {
      base = saved;
      plan_proposals = close_proposals id expected approved now db.plan_proposals;
    })

  abbrev pub with_view :
      ProposalDb → Result (WorkflowView × Db) → Result (WorkflowView × ProposalDb)
  with_view db (ok (view, base)) = ok (view, db)
  with_view db (err e) = err e

  unfoldable pub approve_plan_proposal :
      String → String → ℕ → ℕ → ProposalDb → Result (WorkflowView × ProposalDb)
  unfolding find validate_draft write_approval get_workflow_view
  approve_plan_proposal workflow_id id expected now db = do
    p ← expect_proposal (find_proposal id db)
    guard (can_change expected p) revision_conflict
    decoded ← expect_draft (decode p.structured_plan)
    draft ← validate_draft new_task_id new_sub_task_id decoded
    guard (not_empty draft.tasks) invalid_state
    check_project no_rows (find project_key p.project_id db.base.projects)
    guard (not (has_open_workflow p.project_id db.base)) workflow_exists
    db' ← write_approval workflow_id id expected p draft now db
    with_view db' (get_workflow_view workflow_id db'.base)
