-- ===== src/Runs/Lifecycle.antt =====
-- internal/store/chat.go: how the status of a run changes.
use semantic_framework.Prelude.{
  ℕ, ◌+◌, String, Bool, true, false, not, ◌&&◌, List, [], ◌∷◌, Option, none, some, ◌==◌, all,
  mem_text, is_some, is_blank, trim_space, select, length, Result, ok, err, guard, ◌>>=◌, ◌>>◌,
  if◌then◌else◌, invalid_state, not_found,
}
use semantic_framework.Prelude.Table.{find, update, affected, update_all}
use semantic_framework.Runs.Rows.{
  RunSession, RunDb, set_checkpoint, run_key, queued, running, waiting_input, cancelling, failed,
  cancelled, active_statuses, valid_run_status, terminal_run_status,
}

abbrev or_not_found : Option RunSession → Result RunSession
or_not_found none = err not_found
or_not_found (some r) = ok r

unfoldable pub get_run_session : String → RunDb → Result RunSession
unfolding find
get_run_session id db = or_not_found (find run_key id db.run_sessions)

-- The statuses that the statement allows: all active ones if the caller names none.
abbrev pub allowed_from : List String → List String
allowed_from [] = active_statuses
allowed_from (s ∷ ss) = s ∷ ss

unfoldable pub status_placeholders : List String → Result (List String)
unfolding valid_run_status
status_placeholders from =
    if all valid_run_status (allowed_from from) then ok (allowed_from from) else err invalid_state

abbrev pub with_runs : String → (RunSession → Bool) → (RunSession → RunSession) → RunDb → RunDb
with_runs id test change db = record db {
  run_sessions = update run_key id test change db.run_sessions;
}

-- What a method returns when its statement affected no row: a missing run or a wrong status.
abbrev pub missed : Option RunSession → Result (RunSession × RunDb)
missed none = err not_found
missed (some r) = err invalid_state

abbrev pub read_back : String → RunDb → Option RunSession → Result (RunSession × RunDb)
read_back id db none = err not_found
read_back id db (some r) = ok (r, db)

-- An UPDATE of one run with the row that is read afterwards.
abbrev pub update_run :
    String
    → (RunSession → Bool)
    → (RunSession → RunSession)
    → Result (RunSession × RunDb)
    → Bool
    → RunDb
    → Result (RunSession × RunDb)
update_run id test change none_hit true db =
    let db' = with_runs id test change db in read_back id db' (find run_key id db'.run_sessions)
update_run id test change none_hit false db = none_hit

abbrev pub is_in : List String → RunSession → Bool
is_in statuses r = mem_text r.status statuses

abbrev pub moved_run : String → ℕ → RunSession → RunSession
moved_run to now r = record r { status = to; revision = r.revision + 1; updated_at = now }

unfoldable pub transition_run_status :
    String → List String → String → ℕ → RunDb → Result (RunSession × RunDb)
unfolding valid_run_status terminal_run_status status_placeholders find update affected
transition_run_status id from to now db = do
  guard (valid_run_status to && not (terminal_run_status to)) invalid_state
  statuses ← status_placeholders from
  update_run id (is_in statuses) (moved_run to now) (missed (find run_key id db.run_sessions))
      (affected run_key id (is_in statuses) db.run_sessions) db

abbrev pub finished_run : String → String → ℕ → RunSession → RunSession
finished_run status error now r = record r {
  status = status;
  error = error;
  ended_at = some now;
  updated_at = now;
  revision = r.revision + 1;
}

unfoldable pub finish_run_session :
    String → List String → String → String → ℕ → RunDb → Result (RunSession × RunDb)
unfolding valid_run_status terminal_run_status status_placeholders find update affected
finish_run_session id from status error now db = do
  guard (valid_run_status status && terminal_run_status status) invalid_state
  statuses ← status_placeholders from
  update_run id (is_in statuses) (finished_run status error now)
      (missed (find run_key id db.run_sessions))
      (affected run_key id (is_in statuses) db.run_sessions) db

unfoldable pub end_run_session : String → String → ℕ → RunDb → Result (RunSession × RunDb)
unfolding finish_run_session
end_run_session id status now = finish_run_session id [] status "" now

unfoldable pub update_run_session_status : String → String → ℕ → RunDb → Result (RunSession × RunDb)
unfolding transition_run_status
update_run_session_status id status now = transition_run_status id [] status now

abbrev pub with_metadata : String → String → String → String → ℕ → RunSession → RunSession
with_metadata provider endpoint model trace_id now r = record r {
  provider = provider;
  endpoint = endpoint;
  model = model;
  trace_id = trace_id;
  revision = r.revision + 1;
  updated_at = now;
}

abbrev pub starting : List String
starting = queued ∷ running ∷ []

unfoldable pub update_run_execution_metadata :
    String → String → String → String → String → ℕ → RunDb → Result (RunSession × RunDb)
unfolding find update affected trim_space
update_run_execution_metadata id provider endpoint model trace_id now db = do
  guard (not (is_blank trace_id)) invalid_state
  update_run id (is_in starting) (with_metadata provider endpoint model trace_id now)
      (err invalid_state) (affected run_key id (is_in starting) db.run_sessions) db

abbrev pub interrupted : List String
interrupted = queued ∷ running ∷ waiting_input ∷ []

abbrev pub restart_error : String
restart_error = "Server 重启，原运行已结束"

abbrev pub failed_run : ℕ → RunSession → RunSession
failed_run now = finished_run failed restart_error now

abbrev pub cancelled_run : ℕ → RunSession → RunSession
cancelled_run now r = record r {
  status = cancelled;
  ended_at = some now;
  updated_at = now;
  revision = r.revision + 1;
}

abbrev pub is_cancelling : RunSession → Bool
is_cancelling r = r.status == cancelling

-- The numbers of failed and of cancelled runs, and the database.
unfoldable pub mark_interrupted_runs : ℕ → RunDb → ℕ × ℕ × RunDb
unfolding update_all
mark_interrupted_runs now db =
    let once = update_all (is_in interrupted) (failed_run now) db.run_sessions in
    (
      length (select (is_in interrupted) db.run_sessions),
      length (select is_cancelling once),
      record db { run_sessions = update_all is_cancelling (cancelled_run now) once },
    )

-- The bytes of `nil` make the column NULL. No status is asked for and the row keeps its revision.
unfoldable pub save_run_checkpoint : String → Option String → RunDb → Result RunDb
unfolding find
save_run_checkpoint id bytes db =
    if is_some (find run_key id db.run_sessions)
    then ok (record db { checkpoints = set_checkpoint id bytes db.checkpoints })
    else err not_found

-- A missing row and a NULL are both "no checkpoint".
unfoldable pub get_run_checkpoint : String → RunDb → Option String
unfolding find
get_run_checkpoint id db =
    if is_some (find run_key id db.run_sessions) then db.checkpoints id else none
