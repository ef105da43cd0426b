-- ===== src/Runs/Rows.antt =====
-- The runs of internal/store/chat.go: the row, its statuses and `CreateRunSession`.
use semantic_framework.Prelude.{
  ℕ, String, Bool, false, not, ◌&&◌, ◌||◌, List, [], ◌∷◌, ◌++◌, Option, none, some, ◌==◌, eqb, any,
  mem_text, is_some, Result, ok, err, guard, ◌>>=◌, ◌>>◌, if◌then◌else◌, invalid_state, not_found,
  constraint,
}
use Prim.Native.String
use semantic_framework.Prelude.Table.{find}
use semantic_framework.Store.Rows.{Workflow, Task}
use semantic_framework.Interactions.Rows.{ChatSession, system_default_project_id}

-- The zero time is tick 0.
pub record RunSession : Type 0 where
  pub id : String
  pub project_id : String
  pub chat_session_id : String
  pub workflow_id : String
  pub task_id : String
  pub source_interaction_id : String
  pub kind : String
  pub context_id : String
  pub agent_id : String
  pub robot_id : String
  pub agent_name : String
  pub provider : String
  pub endpoint : String
  pub model : String
  pub trace_id : String
  pub status : String
  pub error : String
  pub revision : ℕ
  pub started_at : ℕ
  pub updated_at : ℕ
  pub ended_at : Option ℕ

pub record RunDb : Type 0 where
  pub run_sessions : List RunSession
  pub chat_sessions : List ChatSession
  pub workflows : List Workflow
  pub tasks : List Task
  -- The column `checkpoint` by the id of the run; it is not part of the run that is read.
  pub checkpoints : String → Option String

abbrev pub run_key : RunSession → String
run_key r = r.id

abbrev pub queued : String
queued = "queued"

abbrev pub running : String
running = "running"

abbrev pub waiting_input : String
waiting_input = "waiting_input"

abbrev pub cancelling : String
cancelling = "cancelling"

abbrev pub completed : String
completed = "completed"

abbrev pub failed : String
failed = "failed"

abbrev pub cancelled : String
cancelled = "cancelled"

abbrev pub active_statuses : List String
active_statuses = queued ∷ running ∷ waiting_input ∷ cancelling ∷ []

unfoldable pub valid_run_status : String → Bool
valid_run_status s =
    mem_text s (queued ∷ running ∷ waiting_input ∷ cancelling ∷ completed ∷ failed ∷ cancelled ∷ [])

unfoldable pub terminal_run_status : String → Bool
terminal_run_status s = s == completed || s == failed || s == cancelled

abbrev pub conversation : String
conversation = "conversation"

abbrev pub task_planning : String
task_planning = "task_planning"

abbrev pub task_execution : String
task_execution = "task_execution"

abbrev pub is_task_kind : String → Bool
is_task_kind kind = kind == task_planning || kind == task_execution

abbrev pub place_run : Option ChatSession → RunSession → Result RunSession
place_run none run =
    if run.project_id == ""
    then ok (record run { project_id = system_default_project_id })
    else err not_found
place_run (some s) run =
    let project = if run.project_id == "" then s.project_id else run.project_id in
    if project == s.project_id then ok (record run { project_id = project }) else err invalid_state

abbrev pub or_else : String → String → String
or_else s fallback = if s == "" then fallback else s

-- The fields that a caller may leave out, in the order in which they are filled.
abbrev pub fill_run : ℕ → RunSession → RunSession
fill_run now run =
    let agent_id = or_else run.agent_id run.agent_name in
    let started_at = if eqb run.started_at 0 then now else run.started_at in
    record run {
      context_id = or_else run.context_id (Prim.Native.String.◌++◌ "leader:" run.chat_session_id);
      agent_id = agent_id;
      agent_name = or_else run.agent_name agent_id;
      started_at = started_at;
      updated_at = if eqb run.updated_at 0 then started_at else run.updated_at;
      kind = or_else run.kind conversation;
    }

abbrev pub task_owns : RunSession → Option Task → Bool
task_owns run none = false
task_owns run (some t) =
    t.workflow_id == run.workflow_id
    && t.context_id == run.context_id
    && t.assigned_agent_id == run.agent_id

abbrev pub workflow_owns : RunSession → Option Workflow → Bool
workflow_owns run none = false
workflow_owns run (some w) =
    w.project_id == run.project_id && w.conversation_id == run.chat_session_id

abbrev pub find_run_task : String → RunDb → Option Task
find_run_task id db = find (λ t. t.id) id db.tasks

abbrev pub find_run_workflow : String → RunDb → Option Workflow
find_run_workflow id db = find (λ w. w.id) id db.workflows

abbrev pub check_run_task : RunSession → RunDb → Result (Unit {0})
check_run_task run db =
    if run.task_id == "" then guard (not (is_task_kind run.kind)) invalid_state else do
      guard (task_owns run (find_run_task run.task_id db)) invalid_state
      guard (workflow_owns run (find_run_workflow run.workflow_id db)) invalid_state
      guard (is_task_kind run.kind) invalid_state

-- `idx_runs_source_interaction_active`: one active run for an interaction.
-- (An UPDATE makes an ended run active again only for a caller that names an ended status as the one
-- to start from; the index is not looked at there.)
abbrev pub source_held : RunSession → List RunSession → Bool
source_held run rs =
    not (run.source_interaction_id == "")
    && mem_text run.status active_statuses
    && any
        (λ r.
          r.source_interaction_id == run.source_interaction_id && mem_text r.status active_statuses)
        rs

abbrev pub summarises : RunSession → Bool
summarises r = not (r.workflow_id == "") && r.task_id == "" && r.kind == conversation

-- `idx_run_sessions_workflow_terminal_summary`: one summary for a workflow.
abbrev pub summary_held : RunSession → List RunSession → Bool
summary_held run rs =
    summarises run && any (λ r. summarises r && r.workflow_id == run.workflow_id) rs

abbrev pub row_refused : RunSession → List RunSession → Bool
row_refused run rs = is_some (find run_key run.id rs) || source_held run rs || summary_held run rs

abbrev pub set_checkpoint :
    String → Option String → (String → Option String) → String → Option String
set_checkpoint id bytes column key = if key == id then bytes else column key

-- The row that is inserted has no robot and no checkpoint.
abbrev pub insert_run : RunSession → RunDb → Result RunDb
insert_run run db =
    if row_refused run db.run_sessions
    then err constraint
    else ok (record db {
      run_sessions = db.run_sessions ++ record run { revision = 1; robot_id = "" } ∷ [];
      checkpoints = set_checkpoint run.id none db.checkpoints;
    })

unfoldable pub create_run_session : ℕ → RunSession → RunDb → Result RunDb
unfolding find valid_run_status
create_run_session now run db = do
  guard (valid_run_status run.status) invalid_state
  placed ← place_run (find (λ s. s.id) run.chat_session_id db.chat_sessions) run
  let filled = fill_run now placed
  guard (filled.kind == conversation || is_task_kind filled.kind) invalid_state
  check_run_task filled db
  insert_run filled db
