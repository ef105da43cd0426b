-- ===== src/Events/Live.antt =====
-- What the hub is given by internal/server/aggregate/aggregator.go, against what is stored.
use semantic_framework.Prelude.{
  ℕ, String, Bool, true, false, not, ◌&&◌, ◌||◌, List, [], ◌∷◌, ◌++◌, Option, none, some, ◌==◌,
  Result, ok, err, if◌then◌else◌, ◌≡◌, refl, ap, sym, ◌∙◌, map, append_nil, append_assoc,
  map-append, subst,
}
use semantic_framework.Prelude.Table.{find}
use semantic_framework.Events.Log.{
  Event, EventDb, ProjectSequence, sequence_key, session_key, project_of, is_numbered, allot,
  assign_sequence, resolve_project, insert_project_event,
}
use semantic_framework.Events.Numbered.{insert_project_event-stores}
use semantic_framework.Events.Sequencer.{next}
use semantic_framework.Events.Classify.{Payload, Fields}
use semantic_framework.Events.Aggregate.{
  ParentRef, Envelope, Message, envelope, foreign, Aggregator, normalize, to_record, record_with,
  with_record, forward, store_record, handle, consume,
}

-- The store fills in the Project and the number and leaves the rest of an event as it is.
assign_sequence-fills :
    (ev : Event) (db : EventDb)
    → (assign_sequence ev db).0 ≡ record ev { sequence = (assign_sequence ev db).0.sequence }
unfolding assign_sequence
assign_sequence-fills ev db =
    go (is_numbered ev) (find sequence_key ev.project_id db.project_event_sequences)
  where
    go :
        (b : Bool) (o : Option ProjectSequence)
        → (if b then allot o ev db else (ev, db)).0
          ≡ record ev { sequence = (if b then allot o ev db else (ev, db)).0.sequence }
    go false o = refl
    go true none = refl
    go true (some row) = refl

resolve_project-fills :
    (ev : Event) (db : EventDb)
    → resolve_project ev db ≡ record ev { project_id = (resolve_project ev db).project_id }
unfolding resolve_project
resolve_project-fills ev db = go (ev.project_id == "" && not (ev.session_id == ""))
  where
    other : Event
    other = record ev { project_id = project_of (find session_key ev.session_id db.chat_sessions) }

    go :
        (b : Bool)
        → (if b then other else ev)
          ≡ record ev { project_id = (if b then other else ev).project_id }
    go true = refl
    go false = refl

insert_project_event-fills :
    (ev : Event) (db : EventDb) (r : Event) (db' : EventDb)
    → insert_project_event ev db ≡ ok (r, db')
    → r ≡ record ev { project_id = r.project_id; sequence = r.sequence }
insert_project_event-fills ev db r db' h =
    let (same, rows) = insert_project_event-stores ev db r db' h in
    let e : r ≡ record (resolve_project ev db) { sequence = r.sequence } =
      same
      ∙ assign_sequence-fills (resolve_project ev db) db
      ∙ ap (λ (s : Event). record (resolve_project ev db) { sequence = s.sequence }) (sym same) in
    let p : r.project_id ≡ (resolve_project ev db).project_id = ap (λ s. s.project_id) e in
    e
    ∙ ap (λ (q : Event). record q { sequence = r.sequence }) (resolve_project-fills ev db)
    ∙ ap (λ (p : String). record ev { project_id = p; sequence = r.sequence }) (sym p)

-- What an envelope takes from the stored row.
refill :
    (ev r : Event)
    → r ≡ record ev { project_id = r.project_id; sequence = r.sequence }
    → record ev {
      project_id = r.project_id;
      resource_type = r.resource_type;
      resource_id = r.resource_id;
      revision = r.revision;
      sequence = r.sequence;
    }
      ≡ r
refill ev r fills =
    subst
      (λ y.
        record ev {
          project_id = y.project_id;
          resource_type = y.resource_type;
          resource_id = y.resource_id;
          revision = y.revision;
          sequence = y.sequence;
        }
        ≡ y)
      (sym fills) refl

-- The record of the envelope that is handed on is the stored row.
record_with-row :
    (parent payload : Option String) (env : Envelope) (ev r : Event)
    → record_with parent payload env ≡ some ev
    → r ≡ record ev { project_id = r.project_id; sequence = r.sequence }
    → record_with parent payload (with_record r env) ≡ some r
record_with-row none payload env ev r h fills = cc
record_with-row (some parent) none env ev r h fills = cc
record_with-row (some parent) (some payload) env ev r h fills =
    let row : Event = taken (record_with (some parent) (some payload) env) ev in
    let q : row ≡ ev = ap (λ o. taken o ev) h in
    ap some (
      refill row r (
        subst (λ (e : Event). r ≡ record e { project_id = r.project_id; sequence = r.sequence })
          (sym q) fills))
  where
    taken : Option Event → Event → Event
    taken none e = e
    taken (some x) e = x

module _ (unmarshal : String → Option Fields) (marshal_payload : Payload → Option String)
    (marshal_parent : ParentRef → Option String) where
  abbrev pub recorded : Envelope → Option Event
  recorded env = record_with (marshal_parent env.parent) (marshal_payload env.payload) env

  -- From one state to another, the hub was given the envelopes of exactly the rows that were
  -- stored, in the order in which they were stored.
  abbrev pub IsLive : Aggregator → Aggregator → Type 0
  IsLive a b =
      (sent : List Envelope) × (rows : List Event) × (b.published ≡ a.published ++ sent)
      × (b.db.events ≡ a.db.events ++ rows)
      × (map recorded sent ≡ map some rows)

  nothing-IsLive :
      (a b : Aggregator) → b.published ≡ a.published → b.db.events ≡ a.db.events → IsLive a b
  nothing-IsLive a b h k =
      ([], [], h ∙ sym (append_nil a.published), k ∙ sym (append_nil a.db.events), refl)

  forward-IsLive :
      (res : Result (Event × EventDb)) (ev : Event) (env : Envelope) (a : Aggregator)
      → insert_project_event ev a.db ≡ res
      → recorded env ≡ some ev
      → IsLive a (forward res env a)
  forward-IsLive (err x) ev env a h k = nothing-IsLive a a refl refl
  forward-IsLive (ok (r, db')) ev env a h k = (
    with_record r env ∷ [],
    r ∷ [],
    refl,
    (insert_project_event-stores ev a.db r db' h).1,
    ap (λ o. o ∷ [])
        (record_with-row (marshal_parent env.parent) (marshal_payload env.payload) env ev r k
          (insert_project_event-fills ev a.db r db' h)),
  )

  store_record-IsLive :
      (o : Option Event) (env : Envelope) (a : Aggregator)
      → recorded env ≡ o
      → IsLive a (store_record o env a)
  unfolding store_record
  store_record-IsLive none env a h = nothing-IsLive a a refl refl
  store_record-IsLive (some ev) env a h =
      forward-IsLive (insert_project_event ev a.db) ev env a refl h

  handle-IsLive :
      (drawn now : ℕ) (m : Message) (a : Aggregator)
      → IsLive a (handle unmarshal marshal_payload marshal_parent drawn now m a)
  unfolding handle to_record
  handle-IsLive drawn now foreign a = nothing-IsLive a a refl refl
  handle-IsLive drawn now (envelope env) a = go (env.channel == "" || env.kind == "")
    where
      env' : Envelope
      env' = normalize unmarshal marshal_payload marshal_parent a.seq drawn now env

      drew : Aggregator
      drew = record a { seq = (next drawn a.seq).0 }

      go : (b : Bool) → IsLive a (if b then a else store_record (recorded env') env' drew)
      go true = nothing-IsLive a a refl refl
      go false = store_record-IsLive (recorded env') env' drew refl

  trans-IsLive : (a b c : Aggregator) → IsLive a b → IsLive b c → IsLive a c
  trans-IsLive a b c (s, r, h, k, l) (s', r', h', k', l') = (
    s ++ s',
    r ++ r',
    h' ∙ ap (λ t. t ++ s') h ∙ append_assoc a.published s s',
    k' ∙ ap (λ t. t ++ r') k ∙ append_assoc a.db.events r r',
    map-append recorded s s'
        ∙ ap (λ t. t ++ map recorded s') l
        ∙ ap (λ t. map some r ++ t) l'
        ∙ sym (map-append some r r'),
  )

  -- Whatever the bus delivers, in whatever order, and whichever inserts the store refuses: the hub
  -- is given exactly the events that were stored, in the order in which they were stored, each
  -- with the Project, the number and the other columns of its row. Nothing is handed on that
  -- could not be read back, and no stored event is withheld.
  pub consume-IsLive :
      (ms : List (ℕ × ℕ × Message)) (a : Aggregator)
      → IsLive a (consume unmarshal marshal_payload marshal_parent ms a)
  unfolding consume
  consume-IsLive [] a = nothing-IsLive a a refl refl
  consume-IsLive ((drawn, now, m) ∷ ms) a =
      let next_state = handle unmarshal marshal_payload marshal_parent drawn now m a in
      trans-IsLive a next_state (consume unmarshal marshal_payload marshal_parent ms next_state)
        (handle-IsLive drawn now m a) (consume-IsLive ms next_state)
