-- ===== src/Store/Rows.antt =====
-- The rows and drafts of internal/store/workflow.go, and the columns of the other tables that it
-- reads. Raw JSON and identifiers are texts, times are ticks of the clock that the caller passes,
-- and a nil time is `none`.
use semantic_framework.Prelude.{ℕ, String, Bool, List, Option}
use semantic_framework.Store.Status.{Status}

pub record Workflow : Type 0 where
  pub id : String
  pub project_id : String
  pub conversation_id : String
  pub goal : String
  pub approved_scope : String
  pub constraints : String
  pub completion_criteria : String
  pub map_scope : String
  pub status : Status
  pub reason : String
  pub revision : ℕ
  pub confirmed_revision : ℕ
  pub source_interaction_id : String
  pub created_at : ℕ
  pub started_at : Option ℕ
  pub updated_at : ℕ
  pub ended_at : Option ℕ

pub record Task : Type 0 where
  pub id : String
  pub workflow_id : String
  pub position : ℕ
  pub required_role : String
  pub required_capabilities : String
  pub resource_requirements : String
  pub assigned_agent_id : String
  pub assigned_robot_id : String
  pub assignment_revision : ℕ
  pub goal : String
  pub input : String
  pub completion_criteria : String
  pub status : Status
  pub waiting_reason : String
  pub result_summary : String
  pub evidence : String
  pub context_id : String
  pub revision : ℕ
  pub created_at : ℕ
  pub updated_at : ℕ
  pub ended_at : Option ℕ

pub record SubTask : Type 0 where
  pub id : String
  pub task_id : String
  pub position : ℕ
  pub kind : String
  pub goal : String
  pub spec : String
  pub completion_criteria : String
  pub evidence : String
  pub execution_ref : String
  pub status : Status
  pub waiting_reason : String
  pub result : String
  pub revision : ℕ
  pub created_at : ℕ
  pub updated_at : ℕ
  pub ended_at : Option ℕ

-- `workflow_id` is the column that the Go struct leaves out.
pub record TaskDependency : Type 0 where
  pub workflow_id : String
  pub task_id : String
  pub depends_on_task_id : String

pub record SubTaskDependency : Type 0 where
  pub task_id : String
  pub sub_task_id : String
  pub depends_on_sub_task_id : String

pub record WorkflowView : Type 0 where
  pub workflow : Workflow
  pub tasks : List Task
  pub sub_tasks : List SubTask
  pub dependencies : List TaskDependency
  pub sub_task_dependencies : List SubTaskDependency

pub record SubTaskDraft : Type 0 where
  pub id : String
  pub kind : String
  pub goal : String
  pub spec : String
  pub completion_criteria : String
  pub depends_on : List String

pub record TaskDraft : Type 0 where
  pub id : String
  pub required_role : String
  pub required_capabilities : String
  pub resource_requirements : String
  pub goal : String
  pub input : String
  pub completion_criteria : String
  pub sub_tasks : List SubTaskDraft

-- One edge `(task, depends_on)` of a draft.
pub record DraftDependency : Type 0 where
  pub task_id : String
  pub depends_on_task_id : String

pub record WorkflowDraft : Type 0 where
  pub goal : String
  pub constraints : String
  pub completion_criteria : String
  pub map_scope : String
  pub tasks : List TaskDraft
  pub dependencies : List DraftDependency

-- `robot_executions`, without progress, artifacts, input and output, which are only handed on.
pub record RobotExecution : Type 0 where
  pub id : String
  pub project_id : String
  pub workflow_id : String
  pub task_id : String
  pub sub_task_id : String
  pub run_id : String
  pub robot_id : String
  pub pilot_instance_id : String
  pub skill_name : String
  pub skill_version : String
  pub request_key : String
  pub status : String
  pub revision : ℕ
  pub created_at : ℕ
  pub updated_at : ℕ

-- Columns of `run_sessions`.
pub record RunSession : Type 0 where
  pub id : String
  pub project_id : String
  pub workflow_id : String
  pub task_id : String
  pub kind : String
  pub agent_id : String
  pub robot_id : String
  pub status : String
  pub revision : ℕ
  pub updated_at : ℕ

-- Columns of `robot_pilots`, newest report first.
pub record RobotPilot : Type 0 where
  pub pilot_instance_id : String
  pub robot_id : String
  pub robot_status : String
  pub current_execution_id : String

-- Columns of `robot_runtime_instances`, newest first.
pub record RobotRuntime : Type 0 where
  pub robot_id : String
  pub project_id : String

pub record Project : Type 0 where
  pub id : String
  pub mode : String
  pub is_active : Bool
  pub archived_at : Option ℕ
  pub revision : ℕ
  pub updated_at : ℕ

pub record WorkflowRevision : Type 0 where
  pub workflow_id : String
  pub revision : ℕ
  pub snapshot : WorkflowView
  pub created_at : ℕ

pub record Db : Type 0 where
  pub workflows : List Workflow
  pub tasks : List Task
  pub sub_tasks : List SubTask
  pub task_dependencies : List TaskDependency
  pub sub_task_dependencies : List SubTaskDependency
  pub workflow_revisions : List WorkflowRevision
  pub projects : List Project
  pub robot_executions : List RobotExecution
  pub run_sessions : List RunSession
  pub robot_pilots : List RobotPilot
  pub robot_runtimes : List RobotRuntime
