-- ===== src/Proposals/Closed.antt =====
-- internal/store/plan_proposal.go: what a discard and an approval leave behind.
use semantic_framework.Prelude.{
  ℕ, String, true, false, Option, some, ◌==◌, Result, ok, err, guard, >>=-ok, >>-ok, guard-ok, not,
  invalid_state, no_rows, revision_conflict, workflow_exists, ◌≡◌, refl, ap, sym, ◌∙◌, subst,
}
use semantic_framework.Prelude.Table.{find, affected, find-update, affected-find}
use semantic_framework.Store.Rows.{WorkflowDraft, WorkflowView, Db}
use semantic_framework.Store.Draft.{validate_draft}
use semantic_framework.Store.Plan.{replace_plan}
use semantic_framework.Store.Workflow.{project_key, get_workflow_view, save_workflow_revision}
use semantic_framework.Proposals.Rows.{
  PlanProposal, ProposalDb, proposal_key, submission_key, find_proposal, get_plan_proposal, ready,
  approved, discarded, has_open_workflow,
}
use semantic_framework.Proposals.Submit.{
  not_empty, check_project, can_change, closed_proposal, close_proposals, read_discarded,
  discard_plan_proposal,
}
use semantic_framework.Proposals.Approve.{
  write_approval, approve_plan_proposal, expect_proposal, expect_draft, with_view, opened_workflow,
  insert_workflow, start_project, db_of,
}
use semantic_framework.Proposals.Kept.{Keeps, changed-RowsKeep}

-- The proposal is no longer open for review.
pub record IsClosed (id : String) (db : ProposalDb) : Type 0 where
  pub row : PlanProposal
  pub is_found : find_proposal id db ≡ some row
  pub is_closed : (row.status == ready) ≡ false

close_proposals-IsClosed :
    (id status : String) (expected now : ℕ) (db db' : ProposalDb)
    → (status == ready) ≡ false
    → affected proposal_key id (can_change expected) db.plan_proposals ≡ true
    → db'.plan_proposals ≡ close_proposals id expected status now db.plan_proposals
    → db'.submissions ≡ db.submissions
    → Keeps db db' × IsClosed id db'
close_proposals-IsClosed id status expected now db db' s a e same =
    let (p, f, t) = affected-find proposal_key id (can_change expected) db.plan_proposals a in
    (
      record {
        closed = λ j q c h.
            ap (find proposal_key j) e
            ∙ changed-RowsKeep id expected (closed_proposal status now) db.plan_proposals
                (λ x. refl) j q c h;
        submitted = λ run row h. ap (find submission_key run) same ∙ h;
      },
      record {
        row = closed_proposal status now p;
        is_found =
            ap (find proposal_key id) e
            ∙ find-update proposal_key id (can_change expected) (closed_proposal status now)
                db.plan_proposals p f t refl;
        is_closed = s;
      },
    )

pub discard-IsClosed :
    (id : String) (expected now : ℕ) (p : PlanProposal) (db db' : ProposalDb)
    → discard_plan_proposal id expected now db ≡ ok (p, db')
    → Keeps db db' × IsClosed id db'
unfolding discard_plan_proposal
discard-IsClosed id expected now p db db' h =
    let (g, h1) =
      >>-ok
        (guard (affected proposal_key id (can_change expected) db.plan_proposals) revision_conflict)
        _ (p, db') h in
    read
      (guard-ok (affected proposal_key id (can_change expected) db.plan_proposals) revision_conflict
        g)
      (get_plan_proposal id written) h1
  where
    written : ProposalDb
    written = record db {
      plan_proposals = close_proposals id expected discarded now db.plan_proposals;
    }

    read :
        affected proposal_key id (can_change expected) db.plan_proposals ≡ true
        → (r : Result PlanProposal) → read_discarded written r ≡ ok (p, db')
        → Keeps db db' × IsClosed id db'
    read a (err e) k = cc
    read a (ok q) k =
        let same : written ≡ db' = cc in
        close_proposals-IsClosed id discarded expected now db db' refl a
          (sym (ap (λ d. d.plan_proposals) same)) (sym (ap (λ d. d.submissions) same))

module _ (new_task_id : ℕ → String) (new_sub_task_id : ℕ → ℕ → String) (taken_task_id : ℕ → String)
    (fresh : ℕ → ℕ → String) (prefix : String → String)
    (decode : String → Option WorkflowDraft) where
  write_approval-IsClosed :
      (workflow_id id : String) (expected : ℕ) (p : PlanProposal) (draft : WorkflowDraft) (now : ℕ)
      (db db' : ProposalDb)
      → write_approval new_task_id new_sub_task_id taken_task_id fresh prefix decode workflow_id id
          expected p draft now db
        ≡ ok db'
      → Keeps db db' × IsClosed id db'
  unfolding write_approval
  write_approval-IsClosed workflow_id id expected p draft now db db' h =
      let w = opened_workflow workflow_id p draft now in
      let (opened, a, h1) = >>=-ok (insert_workflow w db.base) _ db' h in
      let (planned, b, h2) =
        >>=-ok (db_of (replace_plan prefix taken_task_id fresh w draft now opened)) _ db' h1 in
      let (g, h3) =
        >>-ok
          (guard (affected proposal_key id (can_change expected) db.plan_proposals)
            revision_conflict)
          _ db' h2 in
      let (saved, c, h4) =
        >>=-ok
          (db_of
            (save_workflow_revision workflow_id 1 now (start_project p.project_id now planned)))
          _ db' h3 in
      let same : record db {
        base = saved;
        plan_proposals = close_proposals id expected approved now db.plan_proposals;
      }
          ≡ db' =
        cc in
      close_proposals-IsClosed id approved expected now db db' refl
        (guard-ok (affected proposal_key id (can_change expected) db.plan_proposals)
          revision_conflict g)
        (sym (ap (λ d. d.plan_proposals) same)) (sym (ap (λ d. d.submissions) same))

  pub approve-IsClosed :
      (workflow_id id : String) (expected now : ℕ) (view : WorkflowView) (db db' : ProposalDb)
      → approve_plan_proposal new_task_id new_sub_task_id taken_task_id fresh prefix decode
          workflow_id id expected now db
        ≡ ok (view, db')
      → Keeps db db' × IsClosed id db'
  unfolding approve_plan_proposal
  approve-IsClosed workflow_id id expected now view db db' h =
      let (p, f, h1) = >>=-ok (expect_proposal (find_proposal id db)) _ (view, db') h in
      let (g, h2) = >>-ok (guard (can_change expected p) revision_conflict) _ (view, db') h1 in
      let (decoded, d, h3) = >>=-ok (expect_draft (decode p.structured_plan)) _ (view, db') h2 in
      let (draft, v, h4) =
        >>=-ok (validate_draft new_task_id new_sub_task_id decoded) _ (view, db') h3 in
      let (t, h5) = >>-ok (guard (not_empty draft.tasks) invalid_state) _ (view, db') h4 in
      let (c, h6) =
        >>-ok (check_project no_rows (find project_key p.project_id db.base.projects)) _ (view, db')
          h5 in
      let (o, h7) =
        >>-ok (guard (not (has_open_workflow p.project_id db.base)) workflow_exists) _ (view, db')
          h6 in
      let (written, w, h8) =
        >>=-ok
          (write_approval new_task_id new_sub_task_id taken_task_id fresh prefix decode workflow_id
            id expected p draft now db)
          _ (view, db') h7 in
      let kept = write_approval-IsClosed workflow_id id expected p draft now db written w in
      shown written (get_workflow_view workflow_id written.base) kept h8
    where
      shown :
          (written : ProposalDb) (r : Result (WorkflowView × Db))
          → Keeps db written × IsClosed id written
          → with_view new_task_id new_sub_task_id taken_task_id fresh prefix decode written r
            ≡ ok (view, db')
          → Keeps db db' × IsClosed id db'
      shown written (err e) kept k = cc
      shown written (ok (a, b)) kept k =
          let same : written ≡ db' = cc in subst (λ d. Keeps db d × IsClosed id d) same kept
