-- ===== src/Store/Samples.antt =====
-- A small database for the examples of internal/store/workflow.go.
use semantic_framework.Prelude.{true, ℕ, String, List, [], ◌∷◌, none, some}
use semantic_framework.Store.Status.{Status, pending, running, completed}
use semantic_framework.Store.Rows.{Workflow, Task, SubTask, Project, SubTaskDraft, Db}

abbrev pub a_workflow : Workflow
a_workflow = record {
  id = "w1";
  project_id = "p1";
  conversation_id = "c1";
  goal = "tidy the room";
  approved_scope = "";
  constraints = "{}";
  completion_criteria = "[]";
  map_scope = "[]";
  status = running;
  reason = "";
  revision = 3;
  confirmed_revision = 3;
  source_interaction_id = "i1";
  created_at = 1;
  started_at = some 1;
  updated_at = 4;
  ended_at = none;
}

abbrev pub a_task : String → ℕ → Status → Task
a_task id position status = record {
  id = id;
  workflow_id = "w1";
  position = position;
  required_role = "worker";
  required_capabilities = "[]";
  resource_requirements = "{}";
  assigned_agent_id = "";
  assigned_robot_id = "";
  assignment_revision = 0;
  goal = "look";
  input = "{}";
  completion_criteria = "[]";
  status = status;
  waiting_reason = "";
  result_summary = "";
  evidence = "[]";
  context_id = id;
  revision = 1;
  created_at = 1;
  updated_at = 1;
  ended_at = none;
}

abbrev pub a_sub_task : String → String → ℕ → Status → SubTask
a_sub_task id task_id position status = record {
  id = id;
  task_id = task_id;
  position = position;
  kind = "agent_step";
  goal = "read";
  spec = "{}";
  completion_criteria = "[]";
  evidence = "[]";
  execution_ref = "";
  status = status;
  waiting_reason = "";
  result = "{}";
  revision = 1;
  created_at = 1;
  updated_at = 1;
  ended_at = none;
}

abbrev pub a_draft : String → List String → SubTaskDraft
a_draft id depends_on = record {
  id = id;
  kind = "agent_step";
  goal = "read";
  spec = "";
  completion_criteria = "[]";
  depends_on = depends_on;
}

abbrev pub a_project : Project
a_project = record {
  id = "p1";
  mode = "running";
  is_active = true;
  archived_at = none;
  revision = 7;
  updated_at = 1;
}

-- A pending, a running and a completed task; the running one has a completed and a pending step.
abbrev pub a_db : Db
a_db = record {
  workflows = a_workflow ∷ [];
  tasks = a_task "t1" 1 pending ∷ a_task "t2" 2 running ∷ a_task "t3" 3 completed ∷ [];
  sub_tasks = a_sub_task "s1" "t2" 1 completed ∷ a_sub_task "s2" "t2" 2 pending ∷ [];
  task_dependencies = [];
  sub_task_dependencies = [];
  workflow_revisions = [];
  projects = a_project ∷ [];
  robot_executions = [];
  run_sessions = [];
  robot_pilots = [];
  robot_runtimes = [];
}
