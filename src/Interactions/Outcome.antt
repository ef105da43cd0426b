-- ===== src/Interactions/Outcome.antt =====
-- One answer and one handling for each question of internal/store/interaction.go.
use semantic_framework.Prelude.{
  ℕ, String, Bool, true, false, not, ◌&&◌, ◌||◌, List, Option, some, ◌==◌, is_some, ok, err, Error,
  ◌≡◌, refl, ap, ◌∙◌, arith, subst, not_pending, invalid_state, eqb,
}
use semantic_framework.Prelude.Table.{find, affected, affected-find, find-affected, find-update}
use semantic_framework.Interactions.Rows.{
  Interaction, InteractionDb, interaction_key, pending, answered, cancelled,
}
use semantic_framework.Interactions.Answer.{
  is_pending, with_row, update_row, can_answer, answer_row, answer_interaction_at_revision,
  final_row, finalize_interaction, is_unhandled, handled_row, mark_interaction_handled, failed_row,
  record_interaction_handling_error,
}
use semantic_framework.Interactions.History.{Call, run, run-Keeps}

-- A statement on one row that succeeds has met a row, and its change is found afterwards.
update_row-row :
    (id : String) (test : Interaction → Bool) (change : Interaction → Interaction) (e : Error)
    (db db' : InteractionDb)
    → ((x : Interaction) → (change x).id ≡ x.id)
    → update_row id test change (affected interaction_key id test db.interactions) (err e) db
      ≡ ok db'
    → (a : Interaction) × (test a ≡ true)
      × (find interaction_key id db'.interactions ≡ some (change a))
update_row-row id test change e db db' same h =
    go (affected interaction_key id test db.interactions) refl h
  where
    go :
        (b : Bool)
        → affected interaction_key id test db.interactions ≡ b
        → update_row id test change b (err e) db ≡ ok db'
        → (a : Interaction) × (test a ≡ true)
          × (find interaction_key id db'.interactions ≡ some (change a))
    go true hit k =
        let (a, found, passed) = affected-find interaction_key id test db.interactions hit in
        let q : with_row id test change db ≡ db' = cc in
        (
          a,
          passed,
          subst (λ d. find interaction_key id d.interactions ≡ some (change a)) q
              (find-update interaction_key id test change db.interactions a found passed (same a)),
        )
    go false missed k = cc

-- A statement whose test the row fails is refused.
update_row-refused :
    (id : String) (test : Interaction → Bool) (change : Interaction → Interaction) (e : Error)
    (db : InteractionDb) (a : Interaction)
    → find interaction_key id db.interactions ≡ some a
    → test a ≡ false
    → update_row id test change (affected interaction_key id test db.interactions) (err e) db
      ≡ err e
update_row-refused id test change e db a found h =
    ap (λ b. update_row id test change b (err e) db)
      (find-affected interaction_key id test db.interactions a found ∙ h)

-- Once an answer has been accepted, then whatever calls follow, on this question or on others, the
-- question stays answered with that reply at that time, and every further answer, expiry or
-- cancellation of it is refused with ErrNotPending: of all that race, one wins.
pub answer-final :
    (id reply : String) (revision now : ℕ) (db db' : InteractionDb) (calls : List Call)
    (reply' status : String) (revision' now' : ℕ) (answered_at expired_at : Option ℕ)
    → answer_interaction_at_revision id reply revision now db ≡ ok db'
    → (b : Interaction) × (find interaction_key id (run calls db').interactions ≡ some b)
      × (b.status ≡ answered)
      × (b.reply ≡ reply)
      × (b.answered_at ≡ some now)
      × (answer_interaction_at_revision id reply' revision' now' (run calls db') ≡ err not_pending)
      × (finalize_interaction id status reply' answered_at expired_at (run calls db')
          ≡ err not_pending)
unfolding answer_interaction_at_revision finalize_interaction
answer-final id reply revision now db db' calls reply' status revision' now' answered_at expired_at
      h =
    let (a, passed, found) =
      update_row-row id (can_answer revision) (answer_row reply now) not_pending db db' (λ x. refl)
        h in
    let (b, here, f) = run-Keeps calls db' id (answer_row reply now a) found in
    let (s, r, t) = f.settled refl in
    let closed : is_pending b ≡ false = ap (λ x. x == pending) s in
    (
      b,
      here,
      s,
      r,
      t,
      update_row-refused id (can_answer revision') (answer_row reply' now') not_pending
          (run calls db') b here (ap (λ t. t && eqb b.source_revision revision') closed),
      update_row-refused id is_pending (final_row status reply' answered_at expired_at) not_pending
          (run calls db') b here closed,
    )

-- Once a question has been marked as handled, then whatever calls follow, the time of the mark and
-- its error text stay, and every further mark and every further error text is refused as an
-- invalid state.
pub handled-once :
    (id error : String) (now : ℕ) (db db' : InteractionDb) (calls : List Call) (error' : String)
    (now' : ℕ)
    → mark_interaction_handled id now error db ≡ ok db'
    → (b : Interaction) × (find interaction_key id (run calls db').interactions ≡ some b)
      × (b.handled_at ≡ some now)
      × (b.handling_error ≡ error)
      × (mark_interaction_handled id now' error' (run calls db') ≡ err invalid_state)
      × (record_interaction_handling_error id error' (run calls db') ≡ err invalid_state)
unfolding mark_interaction_handled record_interaction_handling_error
handled-once id error now db db' calls error' now' h =
    let (a, passed, found) =
      update_row-row id is_unhandled (handled_row now error) invalid_state db db' (λ x. refl) h in
    let (b, here, f) = run-Keeps calls db' id (handled_row now error a) found in
    let (n, e) = f.handled refl in
    let done : is_unhandled b ≡ false =
      closed (b.status == answered || b.status == cancelled) (is_some b.handled_at)
        (ap is_some n) in
    (
      b,
      here,
      n,
      e,
      update_row-refused id is_unhandled (handled_row now' error') invalid_state (run calls db') b
          here done,
      update_row-refused id is_unhandled (failed_row error') invalid_state (run calls db') b here
          done,
    )
  where
    closed : (s t : Bool) → t ≡ true → (s && not t) ≡ false
    closed s t e = ground arith
