-- ===== src/Interactions/History.antt =====
-- Any sequence of the writing methods of internal/store/interaction.go, failed calls included.
use semantic_framework.Prelude.{
  ℕ, String, Bool, true, false, List, [], ◌∷◌, ◌++◌, Option, none, some, ◌==◌, is_some, Result, ok,
  err, ◌≡◌, refl, ap, sym, ◌∙◌, ◌⊎◌, inl, inr, subst, and-eq-true, not-eq-true, constraint,
  if◌then◌else◌,
}
use semantic_framework.Prelude.Table.{find, affected, find-append_some}
use semantic_framework.Prelude.Statements.{find-update_any, find-update_all}
use semantic_framework.Interactions.Rows.{
  Interaction, InteractionDb, interaction_key, pending, expired, cancelled,
}
use semantic_framework.Interactions.Create.{create_interaction, insert_interaction, fresh_row}
use semantic_framework.Interactions.Created.{create_interaction-ok}
use semantic_framework.Interactions.Answer.{
  is_pending, with_row, update_row, can_answer, answer_row, answer_interaction_at_revision,
  final_row, finalize_interaction, expire_interaction, cancelled_row, stamp_cancelled, in_session,
  cancelled_with_session, cancel_pending_interactions, is_unhandled, handled_row,
  mark_interaction_handled, failed_row, record_interaction_handling_error,
}

-- One call with its arguments. `CancelInteraction` is its two statements, which other calls may
-- come between.
pub data Call : Type 0 where
  create : Interaction → Call
  answer : String → String → ℕ → ℕ → Call
  expire : String → ℕ → Call
  cancel : String → ℕ → Call
  stamp : String → ℕ → Call
  cancel_session : String → ℕ → Call
  mark_handled : String → ℕ → String → Call
  note_error : String → String → Call

abbrev pub after : Result InteractionDb → InteractionDb → InteractionDb
after (ok db') db = db'
after (err e) db = db

unfoldable pub call : Call → InteractionDb → InteractionDb
unfolding create_interaction answer_interaction_at_revision expire_interaction finalize_interaction
    stamp_cancelled cancel_pending_interactions mark_interaction_handled
    record_interaction_handling_error
call (create it) db = after (create_interaction it db) db
call (answer id reply revision now) db =
    after (answer_interaction_at_revision id reply revision now db) db
call (expire id now) db = after (expire_interaction id now db) db
call (cancel id now) db = after (finalize_interaction id cancelled "" none (some now) db) db
call (stamp id now) db = stamp_cancelled id now db
call (cancel_session session now) db = (cancel_pending_interactions session now db).1
call (mark_handled id now error) db = after (mark_interaction_handled id now error db) db
call (note_error id error) db = after (record_interaction_handling_error id error db) db

unfoldable pub run : List Call → InteractionDb → InteractionDb
unfolding call
run [] db = db
run (c ∷ cs) db = run cs (call c db)

-- A row and what may become of it: what was decided stays decided, and what was handled stays
-- handled.
pub record Follows (a b : Interaction) : Type 0 where
  pub settled :
      is_pending a ≡ false
      → (b.status ≡ a.status) × (b.reply ≡ a.reply) × (b.answered_at ≡ a.answered_at)
  pub handled :
      is_some a.handled_at ≡ true
      → (b.handled_at ≡ a.handled_at) × (b.handling_error ≡ a.handling_error)

Follows-refl : (a : Interaction) → Follows a a
Follows-refl a = record { settled = λ h. (refl, refl, refl); handled = λ h. (refl, refl) }

Follows-trans : (a b c : Interaction) → Follows a b → Follows b c → Follows a c
Follows-trans a b c f g = record {
  settled = λ h.
      let (s, r, t) = f.settled h in
      let (s', r', t') = g.settled (ap (λ x. x == pending) s ∙ h) in (s' ∙ s, r' ∙ r, t' ∙ t);
  handled = λ h.
      let (n, e) = f.handled h in let (n', e') = g.handled (ap is_some n ∙ h) in (n' ∙ n, e' ∙ e);
}

abbrev pub Keeps : InteractionDb → InteractionDb → Type 0
Keeps db db' =
    (id : String) (a : Interaction)
    → find interaction_key id db.interactions ≡ some a
    → (b : Interaction) × (find interaction_key id db'.interactions ≡ some b) × Follows a b

step-Follows :
    (test : Interaction → Bool) (change : Interaction → Interaction) (a b : Interaction)
    → ((x : Interaction) → test x ≡ true → Follows x (change x))
    → (b ≡ a) ⊎ ((test a ≡ true) × (b ≡ change a))
    → Follows a b
step-Follows test change a b ok_step (inl e) = subst (Follows a) (sym e) (Follows-refl a)
step-Follows test change a b ok_step (inr p) = subst (Follows a) (sym p.1) (ok_step a p.0)

module _ (test : Interaction → Bool) (change : Interaction → Interaction)
    (same_id : (x : Interaction) → (change x).id ≡ x.id)
    (ok_step : (x : Interaction) → test x ≡ true → Follows x (change x)) where
  with_row-Keeps : (id : String) (db : InteractionDb) → Keeps db (with_row id test change db)
  with_row-Keeps id db j a h =
      let (b, found, how) =
        find-update_any interaction_key id test change db.interactions j a same_id h in
      (b, found, step-Follows test change a b ok_step how)

  update_row-Keeps :
      (id : String) (hit : Bool) (missed : Result InteractionDb) (db : InteractionDb)
      → Keeps db (after missed db)
      → Keeps db (after (update_row id test change hit missed db) db)
  update_row-Keeps id true missed db k = with_row-Keeps id db
  update_row-Keeps id false missed db k = k

nothing-Keeps : (db : InteractionDb) → Keeps db db
nothing-Keeps db id a h = (a, h, Follows-refl a)

true-ne-false : (b : Bool) → b ≡ true → b ≡ false → ⊥
true-ne-false true h k = cc
true-ne-false false h k = cc

-- A change of a pending row that leaves the handling alone.
pending-Follows :
    (x y : Interaction)
    → is_pending x ≡ true
    → y.handled_at ≡ x.handled_at
    → y.handling_error ≡ x.handling_error
    → Follows x y
pending-Follows x y open_row n e = record {
  settled = λ s. absurd (true-ne-false (is_pending x) open_row s);
  handled = λ h. (n, e);
}

-- A change of a row that is not yet handled and leaves the decision alone.
unhandled-Follows :
    (x y : Interaction)
    → is_unhandled x ≡ true
    → y.status ≡ x.status
    → y.reply ≡ x.reply
    → y.answered_at ≡ x.answered_at
    → Follows x y
unhandled-Follows x y h s r t = record {
  settled = λ k. (s, r, t);
  handled =
      λ k. absurd (true-ne-false (is_some x.handled_at) k (not-eq-true _ (and-eq-true _ _ h).1));
}

finalize_interaction-Keeps :
    (id status reply : String) (a e : Option ℕ) (db : InteractionDb)
    → Keeps db (after (finalize_interaction id status reply a e db) db)
unfolding finalize_interaction
finalize_interaction-Keeps id status reply a e db =
    update_row-Keeps is_pending (final_row status reply a e) (λ x. refl)
      (λ x h. pending-Follows x _ h refl refl) id
      (affected interaction_key id is_pending db.interactions) _ db (nothing-Keeps db)

insert_interaction-Keeps :
    (it : Interaction) (db db' : InteractionDb) → insert_interaction it db ≡ ok db' → Keeps db db'
insert_interaction-Keeps it db db' h = go (is_some (find interaction_key it.id db.interactions)) h
  where
    grown : InteractionDb
    grown = record db { interactions = db.interactions ++ fresh_row it ∷ [] }

    go :
        (b : Bool)
        → if◌then◌else◌ {A = Result InteractionDb} b (err constraint) (ok grown) ≡ ok db'
        → Keeps db db'
    go true e = cc
    go false e =
        let same : grown ≡ db' = cc in
        subst (Keeps db) same (λ j a f. (
          a,
          find-append_some interaction_key j db.interactions (fresh_row it ∷ []) a f,
          Follows-refl a,
        ))

create_interaction-Keeps :
    (it : Interaction) (db : InteractionDb) → Keeps db (after (create_interaction it db) db)
create_interaction-Keeps it db = go (create_interaction it db) refl
  where
    go : (r : Result InteractionDb) → create_interaction it db ≡ r → Keeps db (after r db)
    go (ok db') e =
        let (placed, s, implicit, place, checked, stored) = create_interaction-ok it db db' e in
        insert_interaction-Keeps placed db db' stored
    go (err x) e = nothing-Keeps db

call-Keeps : (c : Call) (db : InteractionDb) → Keeps db (call c db)
unfolding call answer_interaction_at_revision expire_interaction stamp_cancelled
    cancel_pending_interactions mark_interaction_handled record_interaction_handling_error
call-Keeps (create it) db = create_interaction-Keeps it db
call-Keeps (answer id reply revision now) db =
    update_row-Keeps (can_answer revision) (answer_row reply now) (λ x. refl)
      (λ x h. pending-Follows x _ (and-eq-true _ _ h).0 refl refl) id
      (affected interaction_key id (can_answer revision) db.interactions) _ db (nothing-Keeps db)
call-Keeps (expire id now) db = finalize_interaction-Keeps id expired "" none (some now) db
call-Keeps (cancel id now) db = finalize_interaction-Keeps id cancelled "" none (some now) db
call-Keeps (stamp id now) db =
    with_row-Keeps (λ x. true) (cancelled_row now) (λ x. refl)
      (λ x h. record { settled = λ s. (refl, refl, refl); handled = λ n. (refl, refl) }) id db
call-Keeps (cancel_session session now) db = λ j a h.
    let (b, found, how) =
      find-update_all interaction_key (in_session session) (cancelled_with_session now)
        db.interactions j a (λ x. refl) h in
    (
      b,
      found,
      step-Follows (in_session session) (cancelled_with_session now) a b
          (λ x t. pending-Follows x _ (and-eq-true _ _ t).1 refl refl) how,
    )
call-Keeps (mark_handled id now error) db =
    update_row-Keeps is_unhandled (handled_row now error) (λ x. refl)
      (λ x h. unhandled-Follows x _ h refl refl refl) id
      (affected interaction_key id is_unhandled db.interactions) _ db (nothing-Keeps db)
call-Keeps (note_error id error) db =
    update_row-Keeps is_unhandled (failed_row error) (λ x. refl)
      (λ x h. unhandled-Follows x _ h refl refl refl) id
      (affected interaction_key id is_unhandled db.interactions) _ db (nothing-Keeps db)

pub run-Keeps : (calls : List Call) (db : InteractionDb) → Keeps db (run calls db)
unfolding run
run-Keeps [] db = nothing-Keeps db
run-Keeps (c ∷ cs) db = λ id a h.
    let (b, found, f) = call-Keeps c db id a h in
    let (d, found', g) = run-Keeps cs (call c db) id b found in (d, found', Follows-trans a b d f g)
