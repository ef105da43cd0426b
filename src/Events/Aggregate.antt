-- ===== src/Events/Aggregate.antt =====
-- internal/server/aggregate/aggregator.go: events of the bus are stored and then handed to the hub.
use semantic_framework.Prelude.{
  ℕ, String, ◌||◌, List, [], ◌∷◌, ◌++◌, Option, none, some, ◌==◌, eqb, Result, ok, err,
  if◌then◌else◌,
}
use semantic_framework.Events.Log.{Event, EventDb, insert_project_event}
use semantic_framework.Events.Sequencer.{next}
use semantic_framework.Events.Classify.{
  Importance, critical, normal, low, Payload, Fields, classify,
}

pub record AgentRef : Type 0 where
  pub id : String
  pub role : String
  pub name : String

pub record ParentRef : Type 0 where
  pub run_id : String
  pub trace_id : String

-- The zero time is tick 0.
pub record Envelope : Type 0 where
  pub id : String
  pub project_id : String
  pub session_id : String
  pub resource_type : String
  pub resource_id : String
  pub revision : ℕ
  pub sequence : ℕ
  pub ts : ℕ
  pub agent : AgentRef
  pub channel : String
  pub kind : String
  pub importance : Importance
  pub parent : ParentRef
  pub payload : Payload

-- What the bus delivers: an envelope or a payload of another type.
pub data Message : Type 0 where
  envelope : Envelope → Message
  foreign : Message

-- The aggregator's counter, the store and what the hub has been given, oldest first.
pub record Aggregator : Type 0 where
  pub seq : ℕ
  pub db : EventDb
  pub published : List Envelope

abbrev pub default_agent_id : String
default_agent_id = "system"

abbrev pub importance_text : Importance → String
importance_text critical = "critical"
importance_text normal = "normal"
importance_text low = "low"

abbrev pub or_text : String → String → String
or_text s fallback = if s == "" then fallback else s

abbrev pub record_with : Option String → Option String → Envelope → Option Event
record_with none payload env = none
record_with (some parent) none env = none
record_with (some parent) (some payload) env = some (record {
  id = env.id;
  project_id = env.project_id;
  session_id = env.session_id;
  resource_type = env.resource_type;
  resource_id = env.resource_id;
  revision = env.revision;
  sequence = env.sequence;
  channel = env.channel;
  kind = env.kind;
  importance = importance_text env.importance;
  agent_id = env.agent.id;
  agent_role = env.agent.role;
  parent = parent;
  payload = payload;
  ts = env.ts;
})

-- What the store has filled in goes into the envelope.
abbrev pub with_record : Event → Envelope → Envelope
with_record r env = record env {
  project_id = r.project_id;
  resource_type = r.resource_type;
  resource_id = r.resource_id;
  revision = r.revision;
  sequence = r.sequence;
}

-- An event that could not be stored is not handed on.
abbrev pub forward : Result (Event × EventDb) → Envelope → Aggregator → Aggregator
forward (err e) env a = a
forward (ok (r, db')) env a = record a {
  db = db';
  published = a.published ++ with_record r env ∷ [];
}

unfoldable pub store_record : Option Event → Envelope → Aggregator → Aggregator
unfolding insert_project_event
store_record none env a = a
store_record (some r) env a = forward (insert_project_event r a.db) env a

-- The codec of encoding/json.
module _ (unmarshal : String → Option Fields) (marshal_payload : Payload → Option String)
    (marshal_parent : ParentRef → Option String) where
  -- The id is drawn at clock reading `drawn`.
  unfoldable pub normalize : ℕ → ℕ → ℕ → Envelope → Envelope
  unfolding next classify
  normalize seq drawn now env =
      let agent_id = or_text env.agent.id default_agent_id in
      record env {
        id = (next drawn seq).1;
        ts = if eqb env.ts 0 then now else env.ts;
        agent = record {
          id = agent_id;
          role = env.agent.role;
          name = or_text env.agent.name agent_id;
        };
        importance = classify unmarshal env.channel env.payload;
      }

  unfoldable pub to_record : Envelope → Option Event
  to_record env = record_with (marshal_parent env.parent) (marshal_payload env.payload) env

  -- Every envelope that is normalized draws an id.
  unfoldable pub handle : ℕ → ℕ → Message → Aggregator → Aggregator
  unfolding normalize next to_record store_record
  handle drawn now foreign a = a
  handle drawn now (envelope env) a =
      if env.channel == "" || env.kind == ""
      then a
      else (let env' = normalize a.seq drawn now env in
          store_record (to_record env') env' (record a { seq = (next drawn a.seq).0 }))

  -- The loop of `Run` over the events of the inbox, with the readings of the clock.
  unfoldable pub consume : List (ℕ × ℕ × Message) → Aggregator → Aggregator
  unfolding handle
  consume [] a = a
  consume ((drawn, now, m) ∷ ms) a = consume ms (handle drawn now m a)
