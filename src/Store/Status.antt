-- ===== src/Store/Status.antt =====
-- The statuses of Workflow, Task and SubTask and the tables of allowed transitions
-- (internal/store/workflow.go).
use semantic_framework.Prelude.{
  String, ◌≡◌, Bool, true, false, Option, none, some, ◌||◌, ◌==◌, is_some, arith, if◌then◌else◌,
}

-- The constants `WorkflowStatus…` and `TaskStatus…`, which are the same seven texts.
pub data Status : Type 0 where
  pending running paused stopping completed failed stopped : Status

unfoldable pub status_of_text : String → Option Status
status_of_text s =
    if s == "pending"
    then some pending
    else if s == "running"
    then some running
    else if s == "paused"
    then some paused
    else if s == "stopping"
    then some stopping
    else if s == "completed"
    then some completed
    else if s == "failed"
    then some failed
    else if s == "stopped"
    then some stopped
    else none

abbrev pub text_of_status : Status → String
text_of_status pending = "pending"
text_of_status running = "running"
text_of_status paused = "paused"
text_of_status stopping = "stopping"
text_of_status completed = "completed"
text_of_status failed = "failed"
text_of_status stopped = "stopped"

unfoldable pub valid_workflow_status : String → Bool
unfolding status_of_text
valid_workflow_status s = is_some (status_of_text s)

unfoldable pub valid_task_status : String → Bool
unfolding valid_workflow_status
valid_task_status s = valid_workflow_status s

abbrev pub eq_status : Status → Status → Bool
eq_status pending pending = true
eq_status running running = true
eq_status paused paused = true
eq_status stopping stopping = true
eq_status completed completed = true
eq_status failed failed = true
eq_status stopped stopped = true
eq_status _ _ = false

abbrev pub terminal_work_status : Status → Bool
terminal_work_status s = eq_status s completed || eq_status s failed || eq_status s stopped

-- The list `('pending','running','paused','stopping')` of the queries and of the index on robots.
abbrev pub unfinished : Status → Bool
unfinished pending = true
unfinished running = true
unfinished paused = true
unfinished stopping = true
unfinished _ = false

-- A pair that the Go map does not hold reads as `false`.
abbrev pub allowed_workflow_transitions : Status → Status → Bool
allowed_workflow_transitions running paused = true
allowed_workflow_transitions running stopping = true
allowed_workflow_transitions running completed = true
allowed_workflow_transitions running failed = true
allowed_workflow_transitions paused running = true
allowed_workflow_transitions paused stopping = true
allowed_workflow_transitions stopping stopped = true
allowed_workflow_transitions stopping paused = true
allowed_workflow_transitions _ _ = false

abbrev pub allowed_task_transitions : Status → Status → Bool
allowed_task_transitions pending running = true
allowed_task_transitions pending paused = true
allowed_task_transitions pending stopping = true
allowed_task_transitions pending failed = true
allowed_task_transitions pending stopped = true
allowed_task_transitions running paused = true
allowed_task_transitions running stopping = true
allowed_task_transitions running completed = true
allowed_task_transitions running failed = true
allowed_task_transitions paused running = true
allowed_task_transitions paused stopping = true
allowed_task_transitions paused failed = true
allowed_task_transitions stopping stopped = true
allowed_task_transitions stopping paused = true
allowed_task_transitions _ _ = false

pub eq_status_self : (s : Status) → eq_status s s ≡ true
eq_status_self s = ground arith

pub eq_status→≡ : (s t : Status) → eq_status s t ≡ true → s ≡ t
eq_status→≡ s t h = ground arith

pub unfinished-terminal : (s : Status) → terminal_work_status s ≡ true → unfinished s ≡ false
unfinished-terminal s h = ground arith

pub allowed-unfinished :
    (s t : Status) → allowed_task_transitions s t ≡ true → terminal_work_status s ≡ false
allowed-unfinished s t h = ground arith
