-- ===== src/Robot/Tests.antt =====
-- A reader that observes one robot.
use semantic_framework.Prelude.{
  String, true, Option, none, some, ◌≡◌, refl, ◌⊎◌, ◌==◌, if◌then◌else◌,
}
use semantic_framework.Robot.State.{
  StateObservation, StateReading, RuntimeInstance, StateReader, read_robot_state, reading_of,
}
use semantic_framework.Robot.Reading.{IsSilent, Missing, IsObservation, read_robot_state-outcome}

abbrev an_observation : StateObservation
an_observation = record {
  robot_id = "robot-1";
  observed_at = 100;
  generation = 3;
  holding_object = some "cup";
  in_hold = true;
}

abbrev a_reader : StateReader
a_reader project scene robot = if scene == "scene-1" then some an_observation else none

abbrev a_runtime : String → Option RuntimeInstance
a_runtime robot = some (record { project_id = "p1"; scene_instance_id = "scene-1" })

abbrev the_reading : StateReading
the_reading = read_robot_state 200 "simulation" (some a_reader) a_runtime "p1" "robot-1"

the_reading_runs : the_reading ≡ reading_of "observed" "simulation" "" (some 100) an_observation
unfolding read_robot_state
the_reading_runs = refl

read_robot_state-outcome_example :
    (IsSilent the_reading × Missing a_reader a_runtime "p1" "robot-1" the_reading.reason)
    ⊎ IsObservation 200 a_reader a_runtime "p1" "robot-1" the_reading
read_robot_state-outcome_example =
    read_robot_state-outcome 200 "simulation" a_reader a_runtime "p1" "robot-1"
