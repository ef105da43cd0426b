-- ===== src/Events/Tests.antt =====
-- A small log for the examples of the event log and of the aggregator.

use semantic_framework.Prelude.{
  ℕ, String, true, List, [], ◌∷◌, ◌++◌, Option, none, some, ok, err, ◌≡◌, ◌↔◌, refl, drop, map,
  event_gap, constraint, arith, text_lt,
}
use semantic_framework.Prelude.Table.{find, update}
use semantic_framework.Events.Log.{
  Event, EventDb, insert_project_event, list_project_events_after, latest_project_event_sequence,
  resolve_project, assign_sequence,
}
use semantic_framework.Events.Numbered.{IsNumbered, replayable, Counts}
use semantic_framework.Events.Replay.{
  record_all, record_all-IsNumbered, list_project_events_after-drop, resume_complete,
}
use semantic_framework.Events.Refusal.{id_taken, insert_project_event-refused_iff}
use semantic_framework.Events.Sequencer.{issue, event_id, next}
use semantic_framework.Events.Ids.{Ascending, issue-Ascending}
use semantic_framework.Events.Classify.{
  Payload, Fields, fields, raw_message, normal, critical, text, classify,
}
use semantic_framework.Events.Aggregate.{
  Envelope, Message, ParentRef, envelope, foreign, Aggregator, consume,
}
use semantic_framework.Events.Live.{recorded}
use semantic_framework.Events.Stream.{consume-consecutive}

abbrev an_event : String → String → String → Event
an_event id session channel = record {
  id = id;
  project_id = "";
  session_id = session;
  resource_type = "";
  resource_id = "";
  revision = 0;
  sequence = 0;
  channel = channel;
  kind = "agent.message";
  importance = "normal";
  agent_id = "system";
  agent_role = "";
  parent = "{}";
  payload = "{}";
  ts = 7;
}

abbrev a_log : EventDb
a_log = record {
  chat_sessions =
      record { id = "s1"; project_id = "p1" } ∷ record { id = "s2"; project_id = "p2" } ∷ [];
  project_event_sequences = [];
  events = [];
}

abbrev some_events : List Event
some_events =
    an_event "e1" "s1" "dialogue"
    ∷ an_event "e2" "s2" "dialogue"
    ∷ an_event "e3" "s1" "trace"
    ∷ an_event "e1" "s1" "dialogue"
    ∷ an_event "e4" "s1" "alert"
    ∷ []

abbrev a_full_log : EventDb
a_full_log = record_all some_events a_log

empty-IsNumbered : IsNumbered "p1" a_log
unfolding find
empty-IsNumbered = record { consecutive = tt; counted = refl; latest = refl }

full-IsNumbered : IsNumbered "p1" a_full_log
unfolding record_all insert_project_event resolve_project assign_sequence find update
full-IsNumbered = record { consecutive = (refl, (refl, tt)); counted = refl; latest = refl }

record_all-IsNumbered_example : IsNumbered "p1" a_full_log
record_all-IsNumbered_example =
    record_all-IsNumbered "p1" some_events a_log refl (refl, (refl, (refl, (refl, (refl, tt)))))
      empty-IsNumbered

list_project_events_after-drop_example :
    list_project_events_after "p1" 1 0 a_full_log ≡ ok (drop 1 (replayable "p1" a_full_log.events))
unfolding record_all insert_project_event resolve_project assign_sequence find update
list_project_events_after-drop_example =
    list_project_events_after-drop "p1" a_full_log full-IsNumbered 1 0

-- A number that the log has not reached yet.
list_project_events_after_gap : list_project_events_after "p1" 3 0 a_full_log ≡ err event_gap
unfolding list_project_events_after record_all insert_project_event resolve_project assign_sequence
    find update
list_project_events_after_gap = refl

resume_complete_example :
    (more : List Event) × ((record_all (an_event "e9" "s1" "dialogue" ∷ []) a_full_log).events
      ≡ a_full_log.events ++ more)
    × (list_project_events_after "p1"
          (latest_project_event_sequence "p1" a_full_log)
          0
          (record_all (an_event "e9" "s1" "dialogue" ∷ []) a_full_log)
        ≡ ok (replayable "p1" more))
resume_complete_example =
    resume_complete "p1" (an_event "e9" "s1" "dialogue" ∷ []) a_full_log refl (refl, tt)
      full-IsNumbered

insert_project_event-refused_iff_example :
    (insert_project_event (an_event "e4" "s1" "alert") a_full_log ≡ err constraint)
    ↔ (id_taken (an_event "e4" "s1" "alert") a_full_log ≡ true)
unfolding resolve_project find record_all
insert_project_event-refused_iff_example =
    insert_project_event-refused_iff (an_event "e4" "s1" "alert") a_full_log refl full-IsNumbered

issue-Ascending_example : Ascending (issue 0 (5 ∷ 5 ∷ 6 ∷ []))
issue-Ascending_example =
    issue-Ascending 0 (5 ∷ 5 ∷ 6 ∷ []) (omega arith, (omega arith, omega arith)) (omega arith)

-- A clock that goes back between two events.
abbrev set_back : List String
set_back = issue 0 (10 ∷ 9 ∷ [])

set_back_ids :
    set_back ≡ "evt-0000000000000000010-000000001" ∷ "evt-0000000000000000009-000000002" ∷ []
unfolding issue next event_id
set_back_ids = refl

set_back_order :
    text_lt "evt-0000000000000000009-000000002" "evt-0000000000000000010-000000001" ≡ true
set_back_order = refl

abbrev an_envelope : String → Envelope
an_envelope channel = record {
  id = "";
  project_id = "p1";
  session_id = "s1";
  resource_type = "";
  resource_id = "";
  revision = 0;
  sequence = 0;
  ts = 0;
  agent = record { id = ""; role = ""; name = "" };
  channel = channel;
  kind = "agent.message";
  importance = normal;
  parent = record { run_id = ""; trace_id = "" };
  payload = fields (("level", text "HIGH") ∷ []);
}

abbrev no_json : String → Option Fields
no_json s = none

-- The codec of these examples: what is not an object cannot be written.
abbrev write_payload : Payload → Option String
write_payload (fields f) = some "{}"
write_payload (raw_message s) = some s
write_payload p = none

abbrev write_parent : ParentRef → Option String
write_parent p = some "{}"

abbrev some_messages : List (ℕ × ℕ × Message)
some_messages =
    (3, 3, envelope (an_envelope "alert"))
    ∷ (4, 4, foreign)
    ∷ (5, 5, envelope (an_envelope "trace"))
    ∷ (6, 6, envelope (an_envelope "dialogue"))
    ∷ []

abbrev an_aggregator : Aggregator
an_aggregator = record { seq = 0; db = a_log; published = [] }

classify_runs : classify no_json "alert" (fields (("level", text "HIGH") ∷ [])) ≡ critical
unfolding classify find
classify_runs = refl

consume-consecutive_example :
    (sent : List Envelope) × (rows : List Event) × ((consume no_json write_payload write_parent
        some_messages an_aggregator).published
      ≡ [] ++ sent)
    × (map (recorded no_json write_payload write_parent) sent ≡ map some rows)
    × Counts 1 (replayable "p1" rows)
consume-consecutive_example =
    consume-consecutive "p1" no_json write_payload write_parent some_messages an_aggregator refl
      (refl, (tt, (refl, (refl, tt)))) empty-IsNumbered
