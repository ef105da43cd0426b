-- ===== src/Proposals/History.antt =====
-- Any sequence of the calls of internal/store/plan_proposal.go, failed ones included, with the
-- store's other methods at work on the other tables in between.
use semantic_framework.Prelude.{
  ℕ, String, Bool, true, false, List, [], ◌∷◌, Option, ◌==◌, eqb, ◌&&◌, Result, ok, err,
  revision_conflict, ◌≡◌, refl,
}
use semantic_framework.Prelude.Table.{find-affected}
use semantic_framework.Store.Rows.{WorkflowDraft, WorkflowView, Db}
use semantic_framework.Proposals.Rows.{PlanProposal, Conversation, ProposalDb, proposal_key, ready}
use semantic_framework.Proposals.Submit.{
  Submitted, can_change, submit_plan_proposal_for_run, discard_plan_proposal,
}
use semantic_framework.Proposals.Approve.{approve_plan_proposal}
use semantic_framework.Proposals.Kept.{Keeps, nothing-Keeps}
use semantic_framework.Proposals.Written.{submit-IsSubmitted}
use semantic_framework.Proposals.Closed.{IsClosed, discard-IsClosed, approve-IsClosed}

-- The ids that one call draws.
pub record Drawn : Type 0 where
  pub new_task_id : ℕ → String
  pub new_sub_task_id : ℕ → ℕ → String
  pub taken_task_id : ℕ → String
  pub fresh : ℕ → ℕ → String
  pub own_id : String

-- `elsewhere` is any write to the tables that the proposals do not own.
pub data Call : Type 0 where
  submit : Drawn → Submitted → ℕ → Call
  discard : String → ℕ → ℕ → Call
  approve : Drawn → String → ℕ → ℕ → Call
  elsewhere : Db → List Conversation → Call

abbrev pub after_submit : Result (PlanProposal × Bool × ProposalDb) → ProposalDb → ProposalDb
after_submit (ok (p, reused, db')) db = db'
after_submit (err e) db = db

abbrev pub after_call {ℓ} : {A : Type ℓ} → Result (A × ProposalDb) → ProposalDb → ProposalDb
after_call (ok (a, db')) db = db'
after_call (err e) db = db

module _ (prefix : String → String) (encode : WorkflowDraft → Option String)
    (decode : String → Option WorkflowDraft) where
  abbrev pub submit_with :
      Drawn → Submitted → ℕ → ProposalDb → Result (PlanProposal × Bool × ProposalDb)
  submit_with d s now db =
      submit_plan_proposal_for_run encode d.new_task_id d.new_sub_task_id d.own_id s now db

  abbrev pub approve_with : Drawn → String → ℕ → ℕ → ProposalDb → Result (WorkflowView × ProposalDb)
  approve_with d id expected now db =
      approve_plan_proposal d.new_task_id d.new_sub_task_id d.taken_task_id d.fresh prefix decode
        d.own_id id expected now db

  unfoldable pub call : Call → ProposalDb → ProposalDb
  unfolding submit_plan_proposal_for_run discard_plan_proposal approve_plan_proposal
  call (submit d s now) db = after_submit (submit_with d s now db) db
  call (discard id expected now) db = after_call (discard_plan_proposal id expected now db) db
  call (approve d id expected now) db = after_call (approve_with d id expected now db) db
  call (elsewhere base conversations) db = record db { base = base; conversations = conversations }

  unfoldable pub run : List Call → ProposalDb → ProposalDb
  unfolding call
  run [] db = db
  run (c ∷ cs) db = run cs (call c db)

  Keeps-trans : (a b c : ProposalDb) → Keeps a b → Keeps b c → Keeps a c
  Keeps-trans a b c k l = record {
    closed = λ id p h f. l.closed id p h (k.closed id p h f);
    submitted = λ r row f. l.submitted r row (k.submitted r row f);
  }

  call-Keeps : (c : Call) (db : ProposalDb) → Keeps db (call c db)
  unfolding call
  call-Keeps (submit d s now) db = go (submit_with d s now db) refl
    where
      go :
          (r : Result (PlanProposal × Bool × ProposalDb))
          → submit_with d s now db ≡ r
          → Keeps db (after_submit r db)
      go (ok (p, reused, db')) h =
          let w =
            submit-IsSubmitted encode d.new_task_id d.new_sub_task_id d.own_id s now p reused db db'
              h in
          w.keeps
      go (err e) h = nothing-Keeps db
  call-Keeps (discard id expected now) db = go (discard_plan_proposal id expected now db) refl
    where
      go :
          (r : Result (PlanProposal × ProposalDb))
          → discard_plan_proposal id expected now db ≡ r
          → Keeps db (after_call r db)
      go (ok (p, db')) h = (discard-IsClosed id expected now p db db' h).0
      go (err e) h = nothing-Keeps db
  call-Keeps (approve d id expected now) db = go (approve_with d id expected now db) refl
    where
      go :
          (r : Result (WorkflowView × ProposalDb))
          → approve_with d id expected now db ≡ r
          → Keeps db (after_call r db)
      go (ok (view, db')) h =
          (approve-IsClosed d.new_task_id d.new_sub_task_id d.taken_task_id d.fresh prefix decode
            d.own_id id expected now view db db' h).0
      go (err e) h = nothing-Keeps db
  call-Keeps (elsewhere base conversations) db = record {
    closed = λ id p c h. h;
    submitted = λ r row h. h;
  }

  run-Keeps : (cs : List Call) (db : ProposalDb) → Keeps db (run cs db)
  unfolding run
  run-Keeps [] db = nothing-Keeps db
  run-Keeps (c ∷ cs) db =
      Keeps-trans db (call c db) (run cs (call c db)) (call-Keeps c db) (run-Keeps cs (call c db))

  run-IsClosed :
      (cs : List Call) (id : String) (db : ProposalDb) → IsClosed id db → IsClosed id (run cs db)
  run-IsClosed cs id db k =
      let kept = run-Keeps cs db in
      record {
        row = k.row;
        is_found = kept.closed id k.row k.is_closed k.is_found;
        is_closed = k.is_closed;
      }

  -- A closed proposal is refused.
  refuses-closed :
      (id : String) (db : ProposalDb)
      → IsClosed id db
      → (d : Drawn) (expected now : ℕ)
      → (approve_with d id expected now db ≡ err revision_conflict)
        × (discard_plan_proposal id expected now db ≡ err revision_conflict)
  unfolding approve_plan_proposal discard_plan_proposal
  refuses-closed id db k d expected now =
      let shut : can_change expected k.row ≡ false =
        no_and (eqb k.row.revision expected) (k.row.status == ready) k.is_closed in
      (
        rw (k.is_found, shut) refl,
        rw
            (
              find-affected proposal_key id (can_change expected) db.plan_proposals k.row
                  k.is_found,
              shut,
            )
            refl,
      )
    where
      no_and : (a b : Bool) → b ≡ false → (a && b) ≡ false
      no_and true b h = h
      no_and false b h = refl

  -- Once a proposal is approved, it opens no second workflow: whatever calls follow, with the
  -- other tables changed in any way between them, every further approval of it and every discard
  -- of it, at any revision, is refused with a revision conflict.
  pub approve-once :
      (d : Drawn) (id : String) (expected now : ℕ) (view : WorkflowView) (db db' : ProposalDb)
      → approve_with d id expected now db ≡ ok (view, db')
      → (cs : List Call) (d' : Drawn) (expected' now' : ℕ)
      → (approve_with d' id expected' now' (run cs db') ≡ err revision_conflict)
        × (discard_plan_proposal id expected' now' (run cs db') ≡ err revision_conflict)
  approve-once d id expected now view db db' h cs d' expected' now' =
      let k =
        approve-IsClosed d.new_task_id d.new_sub_task_id d.taken_task_id d.fresh prefix decode
          d.own_id id expected now view db db' h in
      refuses-closed id (run cs db') (run-IsClosed cs id db' k.1) d' expected' now'

  -- A run that has submitted a plan makes no second revision: whatever calls follow its
  -- submission, a later submission of the same run that returns says that it was reused, and it
  -- leaves the database as it is.
  pub submit-idempotent :
      (d : Drawn) (s : Submitted) (now : ℕ) (p : PlanProposal) (reused : Bool) (db db' : ProposalDb)
      → (s.run_id == "") ≡ false
      → submit_with d s now db ≡ ok (p, reused, db')
      → (cs : List Call) (d' : Drawn) (s' : Submitted) (now' : ℕ) (p' : PlanProposal)
        (reused' : Bool) (after : ProposalDb)
      → s'.run_id ≡ s.run_id
      → submit_with d' s' now' (run cs db') ≡ ok (p', reused', after)
      → (reused' ≡ true) × (after ≡ run cs db')
  submit-idempotent d s now p reused db db' n h cs d' s' now' p' reused' after same h' =
      let first =
        submit-IsSubmitted encode d.new_task_id d.new_sub_task_id d.own_id s now p reused db db'
          h in
      let (row, f) = first.recorded n in
      let kept = run-Keeps cs db' in
      let again =
        submit-IsSubmitted encode d'.new_task_id d'.new_sub_task_id d'.own_id s' now' p' reused'
          (run cs db') after h' in
      again.again row (rw (same, n) (kept.submitted s.run_id row f))
