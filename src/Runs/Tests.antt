-- ===== src/Runs/Tests.antt =====
-- Some runs, and a restart of the server.
use semantic_framework.Prelude.{
  String, true, List, [], ◌∷◌, none, some, ok, ◌≡◌, refl, all, map, select, length, ◌==◌,
}
use semantic_framework.Prelude.Table.{find, update, affected, update_all}
use semantic_framework.Runs.Rows.{
  RunSession, RunDb, run_key, running, cancelling, completed, valid_run_status, terminal_run_status,
}
use semantic_framework.Runs.Lifecycle.{
  mark_interrupted_runs, transition_run_status, status_placeholders, moved_run, get_run_checkpoint,
  save_run_checkpoint, finish_run_session,
}
use semantic_framework.Runs.History.{
  Call, call, run, transition, finish, restart, checkpoint, run-terminal,
}
use semantic_framework.Runs.Restart.{was_working, restarted, mark_interrupted_runs-restarted}

abbrev a_run : String → String → RunSession
a_run id status = record {
  id = id;
  project_id = "p1";
  chat_session_id = "c1";
  workflow_id = "";
  task_id = "";
  source_interaction_id = "";
  kind = "conversation";
  context_id = "leader:c1";
  agent_id = "leader";
  robot_id = "";
  agent_name = "leader";
  provider = "";
  endpoint = "";
  model = "";
  trace_id = "";
  status = status;
  error = "";
  revision = 1;
  started_at = 1;
  updated_at = 1;
  ended_at = none;
}

abbrev some_runs : RunDb
some_runs = record {
  run_sessions = a_run "r1" running ∷ a_run "r2" completed ∷ a_run "r3" cancelling ∷ [];
  chat_sessions = [];
  workflows = [];
  tasks = [];
  checkpoints = λ id. none;
}

abbrev some_calls : List Call
some_calls =
    transition "r2" [] running 5
    ∷ finish "r2" (running ∷ []) "failed" "late" 6
    ∷ checkpoint "r2" (some "bytes")
    ∷ restart 7
    ∷ []

run-terminal_example :
    find run_key "r2" (run some_calls some_runs).run_sessions ≡ some (a_run "r2" completed)
unfolding find terminal_run_status
run-terminal_example =
    run-terminal some_calls some_runs "r2" (a_run "r2" completed) (refl, (refl, (tt, (tt, tt))))
      refl refl

-- The method itself takes an ended status to start from.
moved_from_completed :
    transition_run_status "r2" (completed ∷ []) running 9 some_runs
    ≡ ok (
      moved_run running 9 (a_run "r2" completed),
      record some_runs {
        run_sessions =
            a_run "r1" running
            ∷ moved_run running 9 (a_run "r2" completed)
            ∷ a_run "r3" cancelling
            ∷ [];
      },
    )
unfolding transition_run_status status_placeholders valid_run_status terminal_run_status find update
    affected
moved_from_completed = refl

mark_interrupted_runs-restarted_example :
    ((mark_interrupted_runs 9 some_runs).2.run_sessions ≡ map (restarted 9) some_runs.run_sessions)
    × (all (λ r. terminal_run_status r.status) (mark_interrupted_runs 9 some_runs).2.run_sessions
        ≡ true)
    × ((mark_interrupted_runs 9 some_runs).0 ≡ length (select was_working some_runs.run_sessions))
    × ((mark_interrupted_runs 9 some_runs).1
        ≡ length (select (λ r. r.status == "cancelling") some_runs.run_sessions))
unfolding valid_run_status
mark_interrupted_runs-restarted_example = mark_interrupted_runs-restarted 9 some_runs refl

-- The checkpoint of an ended run is replaced.
saved_checkpoint : get_run_checkpoint "r2" (run some_calls some_runs) ≡ some "bytes"
unfolding run call find update affected update_all get_run_checkpoint save_run_checkpoint
    transition_run_status finish_run_session mark_interrupted_runs status_placeholders
    valid_run_status terminal_run_status
saved_checkpoint = refl
