-- ===== src/Interactions/Answer.antt =====
-- internal/store/interaction.go: answers, expiry, cancellation, handling and the lists.
use semantic_framework.Prelude.{
  ℕ, ◌+◌, String, Bool, true, false, not, ◌&&◌, ◌||◌, Option, none, some, ◌==◌, eqb, select, length,
  is_some, Result, ok, err, ◌>>=◌, not_pending, invalid_state,
}
use semantic_framework.Prelude.Table.{update, affected, update_all}
use semantic_framework.Interactions.Rows.{
  Interaction, InteractionDb, interaction_key, pending, answered, expired, cancelled,
}

abbrev pub is_pending : Interaction → Bool
is_pending it = it.status == pending

abbrev pub with_row :
    String → (Interaction → Bool) → (Interaction → Interaction) → InteractionDb → InteractionDb
with_row id test change db = record db {
  interactions = update interaction_key id test change db.interactions;
}

-- An UPDATE of one row, and the error if it affects none.
abbrev pub update_row :
    String
    → (Interaction → Bool)
    → (Interaction → Interaction)
    → Bool
    → Result InteractionDb
    → InteractionDb
    → Result InteractionDb
update_row id test change true missed db = ok (with_row id test change db)
update_row id test change false missed db = missed

abbrev pub can_answer : ℕ → Interaction → Bool
can_answer source_revision it = is_pending it && eqb it.source_revision source_revision

abbrev pub answer_row : String → ℕ → Interaction → Interaction
answer_row reply now it = record it {
  status = answered;
  reply = reply;
  answered_at = some now;
  revision = it.revision + 1;
}

unfoldable pub answer_interaction_at_revision :
    String → String → ℕ → ℕ → InteractionDb → Result InteractionDb
unfolding affected update
answer_interaction_at_revision id reply source_revision now db =
    update_row id (can_answer source_revision) (answer_row reply now)
      (affected interaction_key id (can_answer source_revision) db.interactions) (err not_pending)
      db

unfoldable pub answer_interaction : String → String → ℕ → InteractionDb → Result InteractionDb
unfolding answer_interaction_at_revision
answer_interaction id reply now = answer_interaction_at_revision id reply 0 now

abbrev pub final_row : String → String → Option ℕ → Option ℕ → Interaction → Interaction
final_row status reply answered_at expired_at it = record it {
  status = status;
  reply = reply;
  answered_at = answered_at;
  expired_at = expired_at;
  revision = it.revision + 1;
}

unfoldable pub finalize_interaction :
    String → String → String → Option ℕ → Option ℕ → InteractionDb → Result InteractionDb
unfolding affected update
finalize_interaction id status reply answered_at expired_at db =
    update_row id is_pending (final_row status reply answered_at expired_at)
      (affected interaction_key id is_pending db.interactions) (err not_pending) db

unfoldable pub expire_interaction : String → ℕ → InteractionDb → Result InteractionDb
unfolding finalize_interaction
expire_interaction id now = finalize_interaction id expired "" none (some now)

-- The second statement of `CancelInteraction`.
abbrev pub cancelled_row : ℕ → Interaction → Interaction
cancelled_row now it = record it { cancelled_at = some now }

unfoldable pub stamp_cancelled : String → ℕ → InteractionDb → InteractionDb
unfolding update
stamp_cancelled id now db = with_row id (λ it. true) (cancelled_row now) db

unfoldable pub cancel_interaction : String → ℕ → InteractionDb → Result InteractionDb
unfolding finalize_interaction stamp_cancelled
cancel_interaction id now db = do
  db' ← finalize_interaction id cancelled "" none (some now) db
  ok (stamp_cancelled id now db')

abbrev pub in_session : String → Interaction → Bool
in_session session it = it.session_id == session && is_pending it

abbrev pub cancelled_with_session : ℕ → Interaction → Interaction
cancelled_with_session now it = record it {
  status = cancelled;
  expired_at = some now;
  revision = it.revision + 1;
}

unfoldable pub cancel_pending_interactions : String → ℕ → InteractionDb → ℕ × InteractionDb
unfolding update_all
cancel_pending_interactions session now db = (
  length (select (in_session session) db.interactions),
  record db {
    interactions = update_all (in_session session) (cancelled_with_session now) db.interactions;
  },
)

-- Answered or cancelled, and not yet routed on.
abbrev pub is_unhandled : Interaction → Bool
is_unhandled it = (it.status == answered || it.status == cancelled) && not (is_some it.handled_at)

abbrev pub handled_row : ℕ → String → Interaction → Interaction
handled_row now error it = record it { handled_at = some now; handling_error = error }

unfoldable pub mark_interaction_handled : String → ℕ → String → InteractionDb → Result InteractionDb
unfolding affected update
mark_interaction_handled id now error db =
    update_row id is_unhandled (handled_row now error)
      (affected interaction_key id is_unhandled db.interactions) (err invalid_state) db

abbrev pub failed_row : String → Interaction → Interaction
failed_row error it = record it { handling_error = error }

unfoldable pub record_interaction_handling_error :
    String → String → InteractionDb → Result InteractionDb
unfolding affected update
record_interaction_handling_error id error db =
    update_row id is_unhandled (failed_row error)
      (affected interaction_key id is_unhandled db.interactions) (err invalid_state) db
