-- ===== src/Events/Refusal.antt =====
-- When internal/store/events.go refuses an event.
use semantic_framework.Prelude.{
  suc, ◌<◌, Bool, true, false, not, ◌&&◌, List, [], ◌∷◌, ◌==◌, eqb, any, Result, ok, err,
  if◌then◌else◌, ◌≡◌, ◌↔◌, refl, ap, sym, ◌∙◌, arith, length, constraint, Option, none, some,
}
use semantic_framework.Prelude.Table.{find}
use semantic_framework.Events.Log.{
  Event, EventDb, ProjectSequence, sequence_key, session_key, project_of, is_numbered, allot,
  assign_sequence, resolve_project, insert_project_event, insert_event_row, is_refused,
  max_sequence,
}
use semantic_framework.Events.Numbered.{IsNumbered, pushed, next_of, replayable}

abbrev pub id_taken : Event → EventDb → Bool
id_taken ev db = any (λ e. e.id == ev.id) db.events

-- A number above all others of the Project meets no row.
is_refused-max :
    (e : Event) (es : List Event)
    → max_sequence e.project_id es < e.sequence
    → is_refused e es ≡ any (λ x. x.id == e.id) es
is_refused-max e [] h = refl
is_refused-max e (d ∷ es) h =
    let rest = is_refused-max e es (ground arith) in
    let away : (d.project_id == e.project_id && eqb d.sequence e.sequence) ≡ false = ground arith in
    rw rest (ground arith)

-- Nor does an event without a number.
is_refused-zero :
    (e : Event) (es : List Event) → e.sequence ≡ 0 → is_refused e es ≡ any (λ x. x.id == e.id) es
is_refused-zero e [] h = refl
is_refused-zero e (d ∷ es) h = rw (is_refused-zero e es h) (ground (arith, h))

module _ (ev : Event) (db : EventDb) where
  allot-refused :
      (o : Option ProjectSequence)
      → find sequence_key ev.project_id db.project_event_sequences ≡ o
      → IsNumbered ev.project_id db
      → is_refused (allot o ev db).0 (allot o ev db).1.events ≡ id_taken ev db
  allot-refused none f n =
      let c : 1 ≡ suc (length (replayable ev.project_id db.events)) =
        ap next_of (sym f) ∙ n.counted in
      is_refused-max (allot none ev db).0 db.events (rw n.latest (omega (arith, c)))
  allot-refused (some row) f n =
      let c : row.next_sequence ≡ suc (length (replayable ev.project_id db.events)) =
        ap next_of (sym f) ∙ n.counted in
      is_refused-max (allot (some row) ev db).0 db.events (rw n.latest (omega (arith, c)))

  assign_sequence-refused :
      ev.sequence ≡ 0
      → IsNumbered ev.project_id db
      → is_refused (assign_sequence ev db).0 (assign_sequence ev db).1.events ≡ id_taken ev db
  unfolding assign_sequence
  assign_sequence-refused fresh n = go (is_numbered ev)
    where
      numbered : Bool → Event × EventDb
      numbered b =
          if b
          then allot (find sequence_key ev.project_id db.project_event_sequences) ev db
          else (ev, db)

      go : (b : Bool) → is_refused (numbered b).0 (numbered b).1.events ≡ id_taken ev db
      go true = allot-refused (find sequence_key ev.project_id db.project_event_sequences) refl n
      go false = is_refused-zero ev db.events fresh

resolve_project-keeps :
    (ev : Event) (db : EventDb)
    → ((resolve_project ev db).sequence ≡ ev.sequence) × ((resolve_project ev db).id ≡ ev.id)
unfolding resolve_project
resolve_project-keeps ev db = go (ev.project_id == "" && not (ev.session_id == ""))
  where
    other : Event
    other = record ev { project_id = project_of (find session_key ev.session_id db.chat_sessions) }

    go :
        (b : Bool)
        → ((if b then other else ev).sequence ≡ ev.sequence)
          × ((if b then other else ev).id ≡ ev.id)
    go true = (refl, refl)
    go false = (refl, refl)

-- Of the events whose numbers the log chooses, it refuses exactly those whose id is taken: in the
-- numbered log of the event's Project, the number that it draws is never refused as a duplicate.
pub insert_project_event-refused_iff :
    (ev : Event) (db : EventDb)
    → ev.sequence ≡ 0
    → IsNumbered (resolve_project ev db).project_id db
    → (insert_project_event ev db ≡ err constraint) ↔ (id_taken ev db ≡ true)
unfolding insert_project_event
insert_project_event-refused_iff ev db fresh n =
    let ev0 = resolve_project ev db in
    let (zero_again, same_id) = resolve_project-keeps ev db in
    let e : is_refused (assign_sequence ev0 db).0 (assign_sequence ev0 db).1.events
        ≡ id_taken ev db =
      assign_sequence-refused ev0 db (zero_again ∙ fresh) n
      ∙ ap (λ i. any (λ x. x.id == i) db.events) same_id in
    answer (assign_sequence ev0 db) (id_taken ev db) e
  where
    answer :
        (ed : Event × EventDb) (b : Bool)
        → is_refused ed.0 ed.1.events ≡ b
        → (insert_event_row ed ≡ err constraint) ↔ (b ≡ true)
    answer (e, d) true h = (λ x. refl, λ x. rw h)
    answer (e, d) false h = (λ x. absurd (stored (rw h at x)), λ x. cc)
      where
        stored : ¬ (◌≡◌ {A = Result (Event × EventDb)} (ok (e, pushed (e, d))) (err constraint))
        stored x = cc
