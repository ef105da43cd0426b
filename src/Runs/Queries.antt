-- ===== src/Runs/Queries.antt =====
-- internal/store/chat.go: the queries on runs.
use semantic_framework.Prelude.{
  ℕ, String, Bool, not, ◌&&◌, ◌||◌, List, [], ◌∷◌, ◌==◌, ltb, mem_text, is_blank, trim_space,
  select, length, take, drop, Result, ok, err, guard, ◌>>◌, if◌then◌else◌, order_by, column_order,
  not_found, invalid_state,
}
use semantic_framework.Runs.Rows.{
  RunSession, RunDb, active_statuses, conversation, valid_run_status,
}

abbrev first_run : List RunSession → Result RunSession
first_run [] = err not_found
first_run (r ∷ rs) = ok r

-- `started_at DESC,id DESC`
abbrev pub latest_first : RunSession → RunSession → Bool
latest_first a b = column_order b.started_at b.id a.started_at a.id

abbrev pub is_active : RunSession → Bool
is_active r = mem_text r.status active_statuses

abbrev pub active_first : RunSession → RunSession → Bool
active_first a b =
    if is_active a
    then not (is_active b) || latest_first a b
    else not (is_active b) && latest_first a b

unfoldable pub get_run_session_by_source_interaction : String → RunDb → Result RunSession
unfolding order_by trim_space
get_run_session_by_source_interaction id db =
    if is_blank id
    then err not_found
    else first_run
        (order_by active_first (select (λ r. r.source_interaction_id == id) db.run_sessions))

unfoldable pub get_workflow_summary_run : String → RunDb → Result RunSession
unfolding order_by trim_space
get_workflow_summary_run id db =
    if is_blank id
    then err not_found
    else first_run (
        order_by latest_first (
          select (λ r. r.workflow_id == id && r.task_id == "" && r.kind == conversation)
            db.run_sessions))

unfoldable pub get_run_session_by_trace_id : String → RunDb → Result RunSession
unfolding order_by
get_run_session_by_trace_id trace db = first_run (
    order_by (λ (a b : RunSession). ltb b.started_at a.started_at)
      (select (λ r. r.trace_id == trace) db.run_sessions))

pub record RunFilter : Type 0 where
  pub project_id : String
  pub chat_session_id : String
  pub status : String

abbrev pub matches : String → String → Bool
matches wanted value = wanted == "" || value == wanted

abbrev pub passes : RunFilter → RunSession → Bool
passes f r =
    matches f.project_id r.project_id
    && matches f.chat_session_id r.chat_session_id
    && matches f.status r.status

-- Without a positive limit the offset is not looked at.
abbrev pub page : ℕ → ℕ → List RunSession → List RunSession
page limit offset rows = if ltb 0 limit then take limit (drop offset rows) else rows

unfoldable pub list_run_sessions : RunFilter → ℕ → ℕ → RunDb → Result (List RunSession × ℕ)
unfolding order_by valid_run_status
list_run_sessions f limit offset db = do
  guard (f.status == "" || valid_run_status f.status) invalid_state
  let rows = select (passes f) db.run_sessions
  ok (page limit offset (order_by latest_first rows), length rows)
