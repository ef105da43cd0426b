-- ===== src/Proposals/Kept.antt =====
-- internal/store/plan_proposal.go: what its statements leave of the two tables.
use semantic_framework.Prelude.{
  ℕ, ◌+◌, String, Bool, true, false, ◌&&◌, List, [], ◌∷◌, ◌++◌, Option, none, some, ◌==◌, eqb,
  is_some, Result, ok, err, if◌then◌else◌, revision_conflict, workflow_exists, ◌≡◌, refl, ap, ◌∙◌,
  subst, inl, inr,
}
use semantic_framework.Prelude.Table.{find, update, affected, find-append_some}
use semantic_framework.Prelude.Statements.{find-update_any}
use semantic_framework.Store.Rows.{WorkflowDraft}
use semantic_framework.Proposals.Rows.{
  PlanProposal, Submission, ProposalDb, proposal_key, submission_key, find_proposal, ready,
}
use semantic_framework.Proposals.Submit.{
  Submitted, can_change, revised, new_proposal, write_proposal, with_submission,
}

-- A proposal that is approved or discarded stays as it is, and so does the record of a submission.
pub record Keeps (db db' : ProposalDb) : Type 0 where
  pub closed :
      (id : String) (p : PlanProposal)
      → (p.status == ready) ≡ false
      → find_proposal id db ≡ some p
      → find_proposal id db' ≡ some p
  pub submitted :
      (run : String) (row : Submission)
      → find submission_key run db.submissions ≡ some row
      → find submission_key run db'.submissions ≡ some row

pub nothing-Keeps : (db : ProposalDb) → Keeps db db
nothing-Keeps db = record { closed = λ id p c h. h; submitted = λ r row h. h }

-- Rows of the table in which the closed ones are kept.
abbrev pub RowsKeep : List PlanProposal → List PlanProposal → Type 0
RowsKeep xs ys =
    (id : String) (p : PlanProposal)
    → (p.status == ready) ≡ false
    → find proposal_key id xs ≡ some p
    → find proposal_key id ys ≡ some p

pub changed-RowsKeep :
    (id : String) (revision : ℕ) (change : PlanProposal → PlanProposal) (rows : List PlanProposal)
    → ((p : PlanProposal) → (change p).id ≡ p.id)
    → RowsKeep rows (update proposal_key id (can_change revision) change rows)
changed-RowsKeep id revision change rows same j p c h =
    let (q, found, how) =
      find-update_any proposal_key id (can_change revision) change rows j p same h in
    elim how [
      | inl e ↦ found ∙ ap some e
      | inr t ↦ absurd (open_only (eqb p.revision revision) (p.status == ready) t.0 c)
    ]
  where
    open_only : (a b : Bool) → (a && b) ≡ true → b ≡ false → ⊥
    open_only a true h k = cc
    open_only true false h k = cc
    open_only false false h k = cc

pub write_proposal-RowsKeep :
    (encoded : String) (new_id : String) (s : Submitted) (draft : WorkflowDraft) (now : ℕ)
    (o : Option PlanProposal) (rows : List PlanProposal) (id : String) (revision : ℕ)
    (rows' : List PlanProposal)
    → write_proposal encoded new_id s draft now o rows ≡ ok (id, revision, rows')
    → RowsKeep rows rows'
write_proposal-RowsKeep encoded new_id s draft now none rows id revision rows' h =
    go (is_some (find proposal_key new_id rows)) h
  where
    grown : List PlanProposal
    grown = rows ++ new_proposal encoded new_id s draft now ∷ []

    go :
        (b : Bool)
        → if◌then◌else◌ {A = Result (String × ℕ × List PlanProposal)} b
            (err workflow_exists)
            (ok (new_id, 1, grown))
          ≡ ok (id, revision, rows')
        → RowsKeep rows rows'
    go true e = cc
    go false e =
        let same : grown ≡ rows' = cc in
        subst (RowsKeep rows) same (λ j p c f. find-append_some proposal_key j rows _ p f)
write_proposal-RowsKeep encoded new_id s draft now (some active) rows id revision rows' h =
    go (active.conversation_id == s.conversation_id)
      (affected proposal_key active.id (can_change active.revision) rows) h
  where
    changed : List PlanProposal
    changed =
        update proposal_key active.id (can_change active.revision) (revised encoded s draft now)
          rows

    go :
        (a b : Bool)
        → if◌then◌else◌ {A = Result (String × ℕ × List PlanProposal)} a
            (if◌then◌else◌ {A = Result (String × ℕ × List PlanProposal)} b
              (ok (active.id, active.revision + 1, changed))
              (err revision_conflict))
            (err workflow_exists)
          ≡ ok (id, revision, rows')
        → RowsKeep rows rows'
    go false b e = cc
    go true false e = cc
    go true true e =
        let same : changed ≡ rows' = cc in
        subst (RowsKeep rows) same (
          changed-RowsKeep active.id active.revision (revised encoded s draft now) rows (λ p. refl))

pub with_submission-kept :
    (run id : String) (revision now : ℕ) (rows : List Submission) (key : String) (row : Submission)
    → find submission_key key rows ≡ some row
    → find submission_key key (with_submission run id revision now rows) ≡ some row
with_submission-kept run id revision now rows key row h = go (run == "")
  where
    new : Submission
    new = record { run_id = run; proposal_id = id; proposal_revision = revision; created_at = now }

    go : (b : Bool) → find submission_key key (if b then rows else rows ++ new ∷ []) ≡ some row
    go true = h
    go false = find-append_some submission_key key rows (new ∷ []) row h
