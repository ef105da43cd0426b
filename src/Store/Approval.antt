-- ===== src/Store/Approval.antt =====
-- What `AdmitRobotExecution` (internal/store/robot_admission.go) stands for: the rows that approve an
-- execution, column by column, and the rows that would stand in its way.
use semantic_framework.Prelude.{
  ℕ, String, ◌≡◌, ◌≢◌, refl, sym, ap, ◌∙◌, ◌⊎◌, inl, inr, Bool, true, false, not, ◌&&◌, ◌||◌,
  Option, none, some, List, [], ◌∷◌, ◌++◌, ◌==◌, any, mem_text, trim_space, ok, robot_reserved, eqb,
  arith, if◌then◌else◌, Bool-cases, All, All-map, any-eq-false, or-eq-true, not-eq-true,
  and-eq-true, and_three-eq-true, and_four-eq-true, eq_iff,
}
use semantic_framework.Store.Status.{
  Status, pending, running, paused, stopping, completed, failed, stopped, unfinished, eq_status,
  eq_status→≡,
}
use semantic_framework.Store.Rows.{Workflow, Task, SubTask, RobotExecution, Db}
use semantic_framework.Store.Tables.{find_task, find_sub_task}
use semantic_framework.Store.Workflow.{find_workflow}
use semantic_framework.Store.Admission.{
  robot_execution_reservation, holds_robot, active_execution_statuses,
}
use semantic_framework.Store.Execution.{
  Skill, Scope, find_request, is_allowed, approved_scope_of, admit_robot_execution,
}
use semantic_framework.Store.ExecutionSteps.{Approved, IsFree, guard-eq-ok}
use semantic_framework.Store.Admitted.{admitted}

-- A value stands in a list, up to blanks around it.
abbrev pub Listed : String → List String → Type 0
Listed v [] = ⊥
Listed v (w ∷ ws) = (trim_space w ≡ trim_space v) ⊎ Listed v ws

-- A scope that names nothing allows everything.
abbrev pub Allows : List String → String → Type 0
Allows ws v = (ws ≡ []) ⊎ Listed v ws

-- A task whose robot is free again.
abbrev pub IsEnded : Status → Type 0
IsEnded s = (s ≡ completed) ⊎ ((s ≡ failed) ⊎ (s ≡ stopped))

-- An execution that no longer occupies its robot.
abbrev pub IsVacant : String → Type 0
IsVacant s =
    (s ≢ "queued") × (s ≢ "starting") × (s ≢ "running") × (s ≢ "waiting_agent") × (s ≢ "stopping")

listed :
    (v : String) (ws : List String)
    → any (λ w. trim_space w == trim_space v) ws ≡ true
    → Listed v ws
listed v [] h = cc
listed v (w ∷ ws) h = elim (or-eq-true (trim_space w == trim_space v) _ h) [
  | inl e ↦ inl ((eq_iff (trim_space w) (trim_space v)).0 e)
  | inr e ↦ inr (listed v ws e)
]

is_allowed-Allows : (ws : List String) (v : String) → is_allowed ws v ≡ true → Allows ws v
is_allowed-Allows [] v h = inl refl
is_allowed-Allows (w ∷ ws) v h = inr (listed v (w ∷ ws) h)

unfinished-IsEnded : (s : Status) → unfinished s ≡ false → IsEnded s
unfinished-IsEnded pending h = cc
unfinished-IsEnded running h = cc
unfinished-IsEnded paused h = cc
unfinished-IsEnded stopping h = cc
unfinished-IsEnded completed h = inl refl
unfinished-IsEnded failed h = inr (inl refl)
unfinished-IsEnded stopped h = inr (inr refl)

vacant : (s : String) → mem_text s active_execution_statuses ≡ false → IsVacant s
vacant s h = (
  λ e. out "queued" e refl,
  λ e. out "starting" e refl,
  λ e. out "running" e refl,
  λ e. out "waiting_agent" e refl,
  λ e. out "stopping" e refl,
)
  where
    out : (t : String) → s ≡ t → mem_text t active_execution_statuses ≡ true → ⊥
    out t e k =
        let f : mem_text t active_execution_statuses ≡ false =
          ap (λ x. mem_text x active_execution_statuses) (sym e) ∙ h in
        cc

-- Every task but the one named that has the robot is at an end.
abbrev pub OthersEnded : String → String → List Task → Type 0
OthersEnded robot id ts =
    All (λ (t : Task). t.assigned_robot_id ≡ robot → t.id ≢ id → IsEnded t.status) ts

apart : (s t : String) → s ≢ t → (s == t) ≡ false
apart s t n = elim (Bool-cases (s == t)) [ inl e ↦ absurd (n ((eq_iff s t).0 e)) | inr e ↦ e ]

pub holds_robot-Others :
    (robot id : String) (ts : List Task)
    → any (holds_robot robot id) ts ≡ false
    → OthersEnded robot id ts
holds_robot-Others robot id ts held =
    All-map _ _ ts (any-eq-false (holds_robot robot id) ts held) (λ t h same other.
      unfinished-IsEnded t.status (
        third (t.assigned_robot_id == robot) (t.id == id) (unfinished t.status)
          ((eq_iff t.assigned_robot_id robot).1 same) (apart t.id id other) h))
  where
    third : (a b c : Bool) → a ≡ true → b ≡ false → (a && not b && c) ≡ false → c ≡ false
    third true false c p q h = h
    third true true c p q h = cc
    third false b c p q h = cc

module _ (read_skill : String → Option Skill) (read_scope : String → Option Scope) where
  -- The rows of a task's step that is to be executed.
  pub record TaskApproval (item : RobotExecution) (db : Db) : Type 0 where
    pub workflow : Workflow
    pub task : Task
    pub sub_task : SubTask
    pub skill : Skill
    pub scope : Scope
    pub has_workflow : find_workflow item.workflow_id db ≡ some workflow
    pub same_project : workflow.project_id ≡ item.project_id
    pub workflow_running : workflow.status ≡ running
    pub confirmed : workflow.confirmed_revision ≡ workflow.revision
    pub has_task : find_task item.task_id db ≡ some task
    pub of_workflow : task.workflow_id ≡ workflow.id
    pub has_robot : task.assigned_robot_id ≡ item.robot_id
    pub robot_task : task.required_role ≡ "robot"
    pub task_running : task.status ≡ running
    pub has_sub_task : find_sub_task item.sub_task_id db ≡ some sub_task
    pub of_task : sub_task.task_id ≡ task.id
    pub sub_task_running : sub_task.status ≡ running
    pub robot_skill : sub_task.kind ≡ "robot_skill"
    pub reads_skill : read_skill sub_task.spec ≡ some skill
    pub same_skill : trim_space skill.name ≡ trim_space item.skill_name
    pub same_version :
        (trim_space skill.version ≡ "") ⊎ (trim_space skill.version ≡ trim_space item.skill_version)
    pub reads_scope :
        ((workflow.approved_scope ≡ "") × (scope ≡ record { robot_ids = []; allowed_skills = [] }))
        ⊎ (read_scope workflow.approved_scope ≡ some scope)
    pub robot_allowed : Allows scope.robot_ids item.robot_id
    pub skill_allowed : Allows scope.allowed_skills item.skill_name

  scope_of :
      (w : Workflow) (c : Scope)
      → approved_scope_of read_skill read_scope w ≡ some c
      → ((w.approved_scope ≡ "") × (c ≡ record { robot_ids = []; allowed_skills = [] }))
        ⊎ (read_scope w.approved_scope ≡ some c)
  scope_of w c h = go (w.approved_scope == "") refl h
    where
      go :
          (b : Bool)
          → (w.approved_scope == "") ≡ b
          → (if b
              then some record { robot_ids = []; allowed_skills = [] }
              else read_scope w.approved_scope)
            ≡ some c
          → ((w.approved_scope ≡ "") × (c ≡ record { robot_ids = []; allowed_skills = [] }))
            ⊎ (read_scope w.approved_scope ≡ some c)
      go true e k = inl ((eq_iff w.approved_scope "").0 e, cc)
      go false e k = inr k

  Approved-TaskApproval :
      (item : RobotExecution) (db : Db)
      → Approved read_skill read_scope item db
      → TaskApproval item db
  Approved-TaskApproval item db a =
      let w = a.workflow in
      let t = a.task in
      let s = a.sub_task in
      let k = a.skill in
      let (wp, wr, wc) =
        and_three-eq-true (w.project_id == item.project_id) (eq_status w.status running)
          (eqb w.confirmed_revision w.revision) a.workflow_runs in
      let (tw, tr, tk, ts) =
        and_four-eq-true (t.workflow_id == w.id) (t.assigned_robot_id == item.robot_id)
          (t.required_role == "robot") (eq_status t.status running) a.task_runs in
      let (st, sr, sk) =
        and_three-eq-true (s.task_id == t.id) (eq_status s.status running) (s.kind == "robot_skill")
          a.sub_task_runs in
      let (kn, kv) =
        and-eq-true (trim_space k.name == trim_space item.skill_name)
          (trim_space k.version == "" || trim_space k.version == trim_space item.skill_version)
          a.skill_fits in
      let (cr, cs) =
        and-eq-true (is_allowed a.scope.robot_ids item.robot_id)
          (is_allowed a.scope.allowed_skills item.skill_name) a.scope_fits in
      record {
        workflow = w;
        task = t;
        sub_task = s;
        skill = k;
        scope = a.scope;
        has_workflow = a.has_workflow;
        same_project = (eq_iff w.project_id item.project_id).0 wp;
        workflow_running = eq_status→≡ w.status running wr;
        confirmed = same_number w.confirmed_revision w.revision wc;
        has_task = a.has_task;
        of_workflow = (eq_iff t.workflow_id w.id).0 tw;
        has_robot = (eq_iff t.assigned_robot_id item.robot_id).0 tr;
        robot_task = (eq_iff t.required_role "robot").0 tk;
        task_running = eq_status→≡ t.status running ts;
        has_sub_task = a.has_sub_task;
        of_task = (eq_iff s.task_id t.id).0 st;
        sub_task_running = eq_status→≡ s.status running sr;
        robot_skill = (eq_iff s.kind "robot_skill").0 sk;
        reads_skill = a.reads_skill;
        same_skill = (eq_iff (trim_space k.name) (trim_space item.skill_name)).0 kn;
        same_version = version k kv;
        reads_scope = scope_of w a.scope a.reads_scope;
        robot_allowed = is_allowed-Allows a.scope.robot_ids item.robot_id cr;
        skill_allowed = is_allowed-Allows a.scope.allowed_skills item.skill_name cs;
      }
    where
      same_number : (m n : ℕ) → eqb m n ≡ true → m ≡ n
      same_number m n h = ground arith

      version :
          (k : Skill)
          → (trim_space k.version == "" || trim_space k.version == trim_space item.skill_version)
            ≡ true
          → (trim_space k.version ≡ "") ⊎ (trim_space k.version ≡ trim_space item.skill_version)
      version k h = elim (or-eq-true (trim_space k.version == "") _ h) [
        | inl e ↦ inl ((eq_iff (trim_space k.version) "").0 e)
        | inr e ↦ inr ((eq_iff (trim_space k.version) (trim_space item.skill_version)).0 e)
      ]

  -- Nothing occupies the robot, and every other task that has it is at an end.
  pub record RobotFree (item : RobotExecution) (db : Db) : Type 0 where
    pub executions :
        All
          (λ (e : RobotExecution). e.robot_id ≡ item.robot_id → IsVacant e.status)
          db.robot_executions
    pub tasks : OthersEnded item.robot_id item.task_id db.tasks

  IsFree-RobotFree :
      (item : RobotExecution) (db : Db) → IsFree read_skill read_scope item db → RobotFree item db
  unfolding robot_execution_reservation
  IsFree-RobotFree item db (idle, held) = record {
    executions =
        All-map _ _ db.robot_executions
          (any-eq-false _ db.robot_executions
            (not-eq-true _ (guard-eq-ok read_skill read_scope _ robot_reserved tt idle)))
          (λ e h same. vacant e.status (
            second (e.robot_id == item.robot_id) (mem_text e.status active_execution_statuses)
              (not (e.task_id == "")) ((eq_iff e.robot_id item.robot_id).1 same) h));
    tasks = holds_robot-Others item.robot_id item.task_id db.tasks held;
  }
    where
      second : (a b c : Bool) → a ≡ true → (a && b && (true || c)) ≡ false → b ≡ false
      second true false c p h = refl
      second true true c p h = cc
      second false b c p h = cc

  find_request-none :
      (project key : String) (es : List RobotExecution)
      → find_request project key es ≡ none
      → All (λ (e : RobotExecution). e.project_id ≡ project → e.request_key ≢ key) es
  unfolding find_request
  find_request-none project key [] h = tt
  find_request-none project key (e ∷ es) h =
      go (e.project_id == project && e.request_key == key) refl (find_request-none project key es) h
    where
      hit :
          e.project_id ≡ project
          → e.request_key ≡ key
          → (e.project_id == project && e.request_key == key) ≡ true
      hit p k = rw ((eq_iff e.project_id project).1 p, (eq_iff e.request_key key).1 k) refl

      go :
          (b : Bool)
          → (e.project_id == project && e.request_key == key) ≡ b
          → (find_request project key es ≡ none
              → All (λ (e : RobotExecution). e.project_id ≡ project → e.request_key ≢ key) es)
          → (if b then some e else find_request project key es) ≡ none
          → All (λ (e : RobotExecution). e.project_id ≡ project → e.request_key ≢ key) (e ∷ es)
      go true q rest k = cc
      go false q rest k = (λ p r. clash (hit p r), rest k)
        where
          clash : (e.project_id == project && e.request_key == key) ≡ true → ⊥
          clash r = cc

  -- What an admission has found and done.
  pub record AdmissionFacts (item : RobotExecution) (db db' : Db) : Type 0 where
    pub approval : (item.task_id ≢ "") → TaskApproval item db
    pub is_free : RobotFree item db
    pub is_new :
        All
          (λ (e : RobotExecution).
            e.project_id ≡ item.project_id → e.request_key ≢ item.request_key)
          db.robot_executions
    pub grown : db'.robot_executions ≡ db.robot_executions ++ item ∷ []
    pub same_tasks : db'.tasks ≡ db.tasks

  -- A robot execution is admitted only if, in the database of the same transaction: no execution of
  -- the robot is queued, starting, running, waiting for an agent or stopping, every task but the
  -- execution's own that has the robot has completed, failed or been stopped, and no execution of
  -- the project has the request key; and if it is for a task, then its workflow is of the same
  -- project and running at its confirmed revision, the task is of that workflow, running, for a
  -- robot and given to this one, the subtask is a running robot skill of the task that asks for
  -- the same skill and for no other version, and the approved scope lists the robot and the skill
  -- or lists none. The table of executions has then grown by the new one alone, and the tasks are
  -- as they were.
  pub admit_robot_execution-AdmissionFacts :
      (item e : RobotExecution) (agent_id : String) (db db' : Db)
      → admit_robot_execution read_skill read_scope item agent_id db ≡ ok ((e, true), db')
      → (e ≡ item) × AdmissionFacts item db db'
  admit_robot_execution-AdmissionFacts item e agent_id db db' h =
      let (same, (rows, (free, fresh, (rows', tasks)))) =
        admitted read_skill read_scope item e agent_id db db' h in
      (
        same,
        record {
          approval = λ named. Approved-TaskApproval item db (rows (unnamed named));
          is_free = IsFree-RobotFree item db free;
          is_new = find_request-none item.project_id item.request_key db.robot_executions fresh;
          grown = rows';
          same_tasks = tasks;
        },
      )
    where
      unnamed : item.task_id ≢ "" → (item.task_id == "") ≡ false
      unnamed n = elim (Bool-cases (item.task_id == "")) [
        | inl e ↦ absurd (n ((eq_iff item.task_id "").0 e))
        | inr e ↦ e
      ]
