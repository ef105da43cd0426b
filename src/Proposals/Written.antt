-- ===== src/Proposals/Written.antt =====
-- internal/store/plan_proposal.go: what a submission has written when it succeeds.
use semantic_framework.Prelude.{
  ℕ, String, Bool, true, false, ◌&&◌, List, [], ◌∷◌, Option, none, some, ◌==◌, select, Result, ok,
  err, guard, >>=-ok, >>-ok, if◌then◌else◌, invalid_state, not_found, ◌≡◌, refl, ap, sym, ◌∙◌,
  subst, eq_iff,
}
use semantic_framework.Prelude.Table.{find, find-append_none}
use semantic_framework.Store.Rows.{WorkflowDraft}
use semantic_framework.Store.Draft.{validate_draft}
use semantic_framework.Store.Workflow.{project_key}
use semantic_framework.Proposals.Rows.{
  PlanProposal, Submission, ProposalDb, submission_key, find_proposal, get_plan_proposal,
  is_ready_in, first,
}
use semantic_framework.Proposals.Submit.{
  Submitted, not_empty, check_conversation, check_project, resubmitted, write_proposal,
  expect_encoded, with_submission, read_submitted, submit_first, earlier, submit_or_reuse,
  submit_plan_proposal_for_run,
}
use semantic_framework.Proposals.Kept.{
  Keeps, nothing-Keeps, write_proposal-RowsKeep, with_submission-kept,
}

earlier_found :
    (s : Submitted) (db : ProposalDb) (row : Submission)
    → (s.run_id == "") ≡ false
    → earlier s db ≡ some row
    → find submission_key s.run_id db.submissions ≡ some row
earlier_found s db row n e = rw n at e

find-itself : (row : Submission) → find submission_key row.run_id (row ∷ []) ≡ some row
unfolding find
find-itself row = rw ((eq_iff row.run_id row.run_id).1 refl) refl

with_submission-found :
    (s : Submitted) (id : String) (revision now : ℕ) (db : ProposalDb)
    → (s.run_id == "") ≡ false
    → earlier s db ≡ none
    → (row : Submission) × (find submission_key s.run_id
          (with_submission s.run_id id revision now db.submissions)
        ≡ some row)
with_submission-found s id revision now db n e =
    let new : Submission = record {
      run_id = s.run_id;
      proposal_id = id;
      proposal_revision = revision;
      created_at = now;
    } in
    (
      new,
      rw n (
          find-append_none submission_key s.run_id db.submissions (new ∷ []) (rw n at e)
          ∙ find-itself new),
    )

-- What a successful submission has done: nothing, for a run that had submitted before, or it wrote
-- a proposal and its record.
pub record IsSubmitted (s : Submitted) (p : PlanProposal) (reused : Bool) (db db' : ProposalDb)
    : Type 0 where
  pub keeps : Keeps db db'
  pub again : (row : Submission) → earlier s db ≡ some row → (reused ≡ true) × (db' ≡ db)
  pub recorded :
      (s.run_id == "") ≡ false
      → (row : Submission) × (find submission_key s.run_id db'.submissions ≡ some row)

module _ (encode : WorkflowDraft → Option String) where
  submit_first-written :
      (new_id : String) (s : Submitted) (draft : WorkflowDraft) (now : ℕ) (p : PlanProposal)
      (reused : Bool) (db db' : ProposalDb)
      → earlier s db ≡ none
      → submit_first encode new_id s draft now db ≡ ok (p, reused, db')
      → Keeps db db'
        × ((s.run_id == "") ≡ false
            → (row : Submission) × (find submission_key s.run_id db'.submissions ≡ some row))
  submit_first-written new_id s draft now p reused db db' first_time h =
      let (g, h1) = >>-ok _ _ (p, reused, db') h in
      let (encoded, m, h2) = >>=-ok (expect_encoded (encode draft)) _ (p, reused, db') h1 in
      let ((id, revision, rows), w, h3) =
        >>=-ok (write_proposal encoded new_id s draft now _ db.plan_proposals) _ (p, reused, db')
          h2 in
      read encoded id revision rows w (get_plan_proposal id (written id revision rows)) h3
    where
      written : String → ℕ → List PlanProposal → ProposalDb
      written id revision rows = record db {
        plan_proposals = rows;
        submissions = with_submission s.run_id id revision now db.submissions;
      }

      read :
          (encoded id : String) (revision : ℕ) (rows : List PlanProposal)
          → write_proposal encoded new_id s draft now
              (first (select (is_ready_in s.project_id) db.plan_proposals))
              db.plan_proposals
            ≡ ok (id, revision, rows)
          → (r : Result PlanProposal)
          → read_submitted (written id revision rows) r ≡ ok (p, reused, db')
          → Keeps db db'
            × ((s.run_id == "") ≡ false
                → (row : Submission) × (find submission_key s.run_id db'.submissions ≡ some row))
      read encoded id revision rows w (err e) k = cc
      read encoded id revision rows w (ok q) k =
          let same : written id revision rows ≡ db' = cc in
          (
            subst (Keeps db) same (record {
              closed =
                  write_proposal-RowsKeep encoded new_id s draft now
                    (first (select (is_ready_in s.project_id) db.plan_proposals)) db.plan_proposals
                    id revision rows w;
              submitted = with_submission-kept s.run_id id revision now db.submissions;
            }),
            λ n.
                let (row, f) = with_submission-found s id revision now db n first_time in
                (row, ap (λ x. find submission_key s.run_id x.submissions) (sym same) ∙ f),
          )

  resubmitted-same :
      (s : Submitted) (o : Option PlanProposal) (p : PlanProposal) (reused : Bool)
      (db db' : ProposalDb)
      → resubmitted s o db ≡ ok (p, reused, db')
      → (reused ≡ true) × (db' ≡ db)
  resubmitted-same s none p reused db db' h = cc
  resubmitted-same s (some q) p reused db db' h =
      go (q.project_id == s.project_id && q.conversation_id == s.conversation_id) h
    where
      go :
          (b : Bool)
          → if◌then◌else◌ {A = Result (PlanProposal × Bool × ProposalDb)} b
              (ok (q, true, db))
              (err invalid_state)
            ≡ ok (p, reused, db')
          → (reused ≡ true) × (db' ≡ db)
      go true e = (cc, cc)
      go false e = cc

  pub submit-IsSubmitted :
      (new_task_id : ℕ → String) (new_sub_task_id : ℕ → ℕ → String) (new_id : String)
      (s : Submitted) (now : ℕ) (p : PlanProposal) (reused : Bool) (db db' : ProposalDb)
      → submit_plan_proposal_for_run encode new_task_id new_sub_task_id new_id s now db
        ≡ ok (p, reused, db')
      → IsSubmitted s p reused db db'
  unfolding submit_plan_proposal_for_run
  submit-IsSubmitted new_task_id new_sub_task_id new_id s now p reused db db' h =
      let (g, h1) = >>-ok _ _ (p, reused, db') h in
      let (draft, v, h2) =
        >>=-ok (validate_draft new_task_id new_sub_task_id s.requested) _ (p, reused, db') h1 in
      let (t, h3) = >>-ok (guard (not_empty draft.tasks) invalid_state) _ (p, reused, db') h2 in
      let (c, h4) =
        >>-ok
          (check_conversation s.project_id (find (λ c. c.id) s.conversation_id db.conversations)) _
          (p, reused, db') h3 in
      let (q, h5) =
        >>-ok (check_project not_found (find project_key s.project_id db.base.projects)) _
          (p, reused, db') h4 in
      go draft (earlier s db) refl h5
    where
      go :
          (draft : WorkflowDraft) (o : Option Submission)
          → earlier s db ≡ o
          → submit_or_reuse encode new_id s draft now o db ≡ ok (p, reused, db')
          → IsSubmitted s p reused db db'
      go draft none e k =
          let (w, r) = submit_first-written new_id s draft now p reused db db' e k in
          record { keeps = w; again = λ row f. absurd (none-some (sym e ∙ f)); recorded = r }
        where
          none-some : {row : Submission} → ◌≡◌ {A = Option Submission} none (some row) → ⊥
          none-some f = cc
      go draft (some row) e k =
          let (r, d) = resubmitted-same s (find_proposal row.proposal_id db) p reused db db' k in
          record {
            keeps = subst (Keeps db) (sym d) (nothing-Keeps db);
            again = λ other f. (r, d);
            recorded = λ n. (
              row,
              ap (λ x. find submission_key s.run_id x.submissions) d ∙ earlier_found s db row n e,
            );
          }
