-- ===== src/Robot/State.antt =====
-- internal/robot/state.go: the reading of a robot's state for a conversation.
use semantic_framework.Prelude.{
  ℕ, ◌+◌, String, Bool, not, ◌&&◌, ◌||◌, Option, none, some, ◌==◌, eqb, ltb, if◌then◌else◌,
}

-- The zero time is tick 0, and a tick is a nanosecond.
pub record StateObservation : Type 0 where
  pub robot_id : String
  pub observed_at : ℕ
  pub generation : ℕ
  pub holding_object : Option String
  pub in_hold : Bool

pub record StateReading : Type 0 where
  pub status : String
  pub source : String
  pub observed_at : Option ℕ
  pub generation : Option ℕ
  pub holding_object : Option String
  pub in_hold : Option Bool
  pub reason : String
  pub limitation : String

-- The columns of the robot's latest runtime instance.
pub record RuntimeInstance : Type 0 where
  pub project_id : String
  pub scene_instance_id : String

-- A reader takes a project, a scene and a robot; an error is `none`.
abbrev pub StateReader : Type 0
StateReader = String → String → String → Option StateObservation

abbrev pub robot_state_max_age : ℕ
robot_state_max_age = 10000000000

abbrev pub limitation_text : String
limitation_text = "holding_object 仅表示此接口报告的携物对象；null 不能证明两个工具都空载。此接口不提供双工具负载验证。"

abbrev pub unavailable : String → String → StateReading
unavailable source reason = record {
  status = "unavailable";
  source = source;
  observed_at = none;
  generation = none;
  holding_object = none;
  in_hold = none;
  reason = reason;
  limitation = limitation_text;
}

abbrev pub reading_of : String → String → String → Option ℕ → StateObservation → StateReading
reading_of status source reason observed_at o = record {
  status = status;
  source = source;
  observed_at = observed_at;
  generation = some o.generation;
  holding_object = o.holding_object;
  in_hold = some o.in_hold;
  reason = reason;
  limitation = limitation_text;
}

-- `age > robotStateMaxAge || age < -robotStateMaxAge`
abbrev pub out_of_range : ℕ → ℕ → Bool
out_of_range now observed =
    ltb (observed + robot_state_max_age) now || ltb (now + robot_state_max_age) observed

abbrev pub judge : ℕ → String → StateObservation → StateReading
judge now source o =
    if eqb o.observed_at 0
    then reading_of "stale" source "observation_timestamp_missing" none o
    else if out_of_range now o.observed_at
    then reading_of "stale" source "observation_timestamp_out_of_range" (some o.observed_at) o
    else reading_of "observed" source "" (some o.observed_at) o

abbrev pub observed_by : ℕ → String → String → Option StateObservation → StateReading
observed_by now source robot none = unavailable source "state_read_failed"
observed_by now source robot (some o) =
    if o.robot_id == robot then judge now source o else unavailable source "state_robot_mismatch"

abbrev pub outside : String → RuntimeInstance → Bool
outside project i = project == "" || not (i.project_id == "") && not (i.project_id == project)

abbrev pub read_from :
    ℕ → String → StateReader → String → String → Option RuntimeInstance → StateReading
read_from now source reader project robot none = unavailable source "runtime_state_unavailable"
read_from now source reader project robot (some i) =
    if i.scene_instance_id == ""
    then unavailable source "runtime_state_unavailable"
    else if outside project i
    then unavailable source "robot_outside_project"
    else observed_by now source robot (reader project i.scene_instance_id robot)

-- `GetLatestRuntimeByRobot` is `latest`; an error is `none`.
unfoldable pub read_robot_state :
    ℕ
    → String
    → Option StateReader
    → (String → Option RuntimeInstance)
    → String
    → String
    → StateReading
read_robot_state now source none latest project robot =
    unavailable "unconfigured" "state_reader_not_configured"
read_robot_state now source (some reader) latest project robot =
    read_from now source reader project robot (latest robot)
