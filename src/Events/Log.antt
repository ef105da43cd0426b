-- ===== src/Events/Log.antt =====
-- internal/store/events.go: the Project event log, its sequence numbers and its reads.
use semantic_framework.Prelude.{
  ℕ, ◌+◌, String, Bool, true, not, ◌&&◌, ◌||◌, List, [], ◌∷◌, ◌++◌, Option, none, some, ◌==◌, ltb,
  eqb, any, select, Result, ok, err, event_gap, constraint, if◌then◌else◌, order_by, limited,
  text_lt, map,
}
use semantic_framework.Prelude.Table.{find, update}

abbrev pub channel_trace : String
channel_trace = "trace"

-- A time is a tick of the clock.
pub record Event : Type 0 where
  pub id : String
  pub project_id : String
  pub session_id : String
  pub resource_type : String
  pub resource_id : String
  pub revision : ℕ
  pub sequence : ℕ
  pub channel : String
  pub kind : String
  pub importance : String
  pub agent_id : String
  pub agent_role : String
  pub parent : String
  pub payload : String
  pub ts : ℕ

-- The columns of `chat_sessions` that the log reads.
pub record SessionProject : Type 0 where
  pub id : String
  pub project_id : String

-- `project_event_sequences`
pub record ProjectSequence : Type 0 where
  pub project_id : String
  pub next_sequence : ℕ

pub record EventDb : Type 0 where
  pub chat_sessions : List SessionProject
  pub project_event_sequences : List ProjectSequence
  pub events : List Event

abbrev pub session_key : SessionProject → String
session_key s = s.id

abbrev pub sequence_key : ProjectSequence → String
sequence_key s = s.project_id

abbrev pub project_of : Option SessionProject → String
project_of none = ""
project_of (some s) = s.project_id

-- An event without a Project takes the one of its Conversation, if that is there.
unfoldable pub resolve_project : Event → EventDb → Event
unfolding find
resolve_project ev db =
    if ev.project_id == "" && not (ev.session_id == "")
    then record ev { project_id = project_of (find session_key ev.session_id db.chat_sessions) }
    else ev

-- The row of the Project's counter is made at the first event and moved on at the others.
abbrev pub allot : Option ProjectSequence → Event → EventDb → Event × EventDb
allot none ev db = (
  record ev { sequence = 1 },
  record db {
    project_event_sequences =
        db.project_event_sequences ++ record { project_id = ev.project_id; next_sequence = 2 } ∷ [];
  },
)
allot (some row) ev db = (
  record ev { sequence = row.next_sequence },
  record db {
    project_event_sequences =
        update sequence_key ev.project_id (λ r. true)
          (λ r. record r { next_sequence = row.next_sequence + 1 }) db.project_event_sequences;
  },
)

-- Only an event that can be replayed takes a number.
abbrev pub is_numbered : Event → Bool
is_numbered ev = not (ev.project_id == "") && eqb ev.sequence 0 && not (ev.channel == channel_trace)

unfoldable pub assign_sequence : Event → EventDb → Event × EventDb
unfolding find update
assign_sequence ev db =
    if is_numbered ev
    then allot (find sequence_key ev.project_id db.project_event_sequences) ev db
    else (ev, db)

-- The primary key and `idx_events_project_sequence`.
abbrev pub same_place : Event → Event → Bool
same_place ev e =
    not (ev.project_id == "")
    && ltb 0 ev.sequence
    && e.project_id == ev.project_id
    && eqb e.sequence ev.sequence

abbrev pub is_refused : Event → List Event → Bool
is_refused ev events = any (λ e. e.id == ev.id || same_place ev e) events

abbrev pub insert_event_row : Event × EventDb → Result (Event × EventDb)
insert_event_row (ev, db) =
    if is_refused ev db.events
    then err constraint
    else ok (ev, record db { events = db.events ++ ev ∷ [] })

unfoldable pub insert_project_event : Event → EventDb → Result (Event × EventDb)
unfolding resolve_project assign_sequence
insert_project_event ev db = insert_event_row (assign_sequence (resolve_project ev db) db)

unfoldable pub insert_event : Event → EventDb → Result (Unit {0} × EventDb)
unfolding insert_project_event
insert_event ev db = elim (insert_project_event ev db) [
  | ok (e, db') ↦ ok (tt, db')
  | err e ↦ err e
]

-- `COALESCE(MAX(sequence), 0)` over the rows of a Project.
abbrev pub max_sequence : String → List Event → ℕ
max_sequence p [] = 0
max_sequence p (e ∷ es) =
    let rest = max_sequence p es in
    if e.project_id == p && ltb rest e.sequence then e.sequence else rest

unfoldable pub latest_project_event_sequence : String → EventDb → ℕ
latest_project_event_sequence p db = max_sequence p db.events

abbrev pub sequence_order : Event → Event → Bool
sequence_order d e = ltb d.sequence e.sequence

unfoldable pub list_project_events_after : String → ℕ → ℕ → EventDb → Result (List Event)
unfolding order_by
list_project_events_after p after limit db =
    if ltb (max_sequence p db.events) after
    then err event_gap
    else ok (
        limited limit (
          order_by sequence_order (
            select
              (λ e. e.project_id == p && ltb after e.sequence && not (e.channel == channel_trace))
              db.events)))

-- The columns that this query reads; the others keep Go's zero values.
abbrev pub scanned : Event → Event
scanned e = record e {
  project_id = "";
  resource_type = "";
  resource_id = "";
  revision = 0;
  sequence = 0;
}

unfoldable pub list_events_after : String → String → ℕ → EventDb → List Event
unfolding order_by
list_events_after session last limit db = map scanned (
    limited limit (
      order_by (λ (d e : Event). text_lt d.id e.id)
        (select
          (λ e. e.session_id == session && text_lt last e.id && not (e.channel == channel_trace))
          db.events)))
