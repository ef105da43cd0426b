-- ===== src/Lib.antt =====
-- Semantic-Framework plans work of agents and robots as a Workflow of Tasks and SubTasks, keeps it
-- in a relational store under optimistic revisions, and tells its parts what happened over an
-- event bus, from which they are stored, numbered and handed to browsers. This library models the
-- workflow store, parts of the scheduler above it, the event bus, the event log with the
-- aggregator, the questions to the user, the runs of agents and the reading of a robot's state.
--
-- Prelude holds what the parts share: Boolean tests (Prelude/Tests), lists over native numbers
-- (Prelude/Lists), texts (Prelude/Text), Go's pairs of a value and an error (Prelude/Outcome), and
-- the SQL statements on a table (Prelude/Table, Prelude/Statements) and on their order and number
-- (Prelude/Sort).
--
-- Store is internal/store/workflow.go. Store/Status has the statuses and the tables of
-- transitions, Store/Rows the structs, with a `Db` of tables. A method is a function from a
-- database to an error or a value with the new database (Store/Tx); its name is that of the Go
-- method, so `TransitionTask` is `transition_task`. Store/Tables has the reads, guarded updates
-- and inserts with the keys and unique indexes of internal/store/migrate.go, Store/Admission the
-- checks of internal/store/robot_admission.go, Store/Task the methods that write one task,
-- Store/Draft and Store/Graph the validation of plans, Store/SubTask the methods on subtasks,
-- Store/Recovery the recovery after a failed robot step, Store/Runnable the lists of what can run,
-- Store/Workflow reads and transitions of workflows, and Store/Plan the replacement of a plan.
-- Store/GraphBounds is about the number of rounds of Kahn's algorithm, Store/Kahn, Store/Rounds,
-- Store/Acyclic, Store/CycleCheck, Store/Cycles and Store/Acceptance about what it accepts, and
-- Store/Accepted and Store/PlanOrder about the plans of subtasks that pass. Store/WorkflowSteps is
-- about a transition of a workflow. Store/Moves and Store/Evolution say how rows may develop,
-- Store/TaskSteps, Store/AssignSteps, Store/WaitSteps, Store/SubTaskSteps and Store/PlanSteps
-- relate each method to that, and Store/History is about any sequence of calls. Store/Branches has
-- the branches of `TransitionTask`, Store/Exclusive what an assignment excludes, Store/Guards what has
-- to hold before a plan is written or replaced. Store/Execution is the admission of a robot
-- execution, Store/Approval what it has checked, Store/ExecutionSteps and Store/Admitted what it
-- leaves.
--
-- Bus is internal/event/bus.go. Bus/Subscription has the methods of `subscription`, each one
-- critical section of its lock. Bus/Pump joins them to the worker `run`, the publishers and the
-- reader in a step relation, in which a publisher may be interrupted between queueing an event and
-- sending the wake-up. Bus/Next, Bus/Order, Bus/Delivery, Bus/Wakeup and Bus/Drain are about what
-- the reader sees. Bus/Topics is the routing table of `Bus`, and Bus/Routing is about who gets an
-- event.
--
-- Scheduler is internal/workflow/scheduler.go. Scheduler/Gate has what the service holds in memory
-- under its lock, one function for each critical section, and Scheduler/Exclusive and
-- Scheduler/Resources are about what those functions exclude. Scheduler/Stop has the three
-- attempts of a stop, with other writers' calls of the store around each statement; Scheduler/Contention,
-- Scheduler/Attempt and Scheduler/StopSteps are about how they end. Scheduler/Finish ends tasks and workflows and lists what the service then
-- tells others; Scheduler/FinishSteps is about when a workflow that is being stopped has stopped.
-- The store's errors come back as values, so an attempt that fails leaves the database as the
-- other writers left it.
--
-- Events is internal/store/events.go and the aggregator in internal/server/aggregate. Events/Log
-- has the table of events with the counter of each Project and the reads, Events/Numbered,
-- Events/Replay and Events/Refusal are about the numbers, about what is read back and about what is
-- refused. Events/Sequencer draws the ids of events, Events/Ids is about their order,
-- Events/Classify has the rules of internal/server/aggregate/rules.go, and Events/Aggregate the loop
-- of `Aggregator`, from a message of the bus to the store and the hub. Events/Live and Events/Stream
-- are about what the hub is given.
--
-- Interactions is internal/store/interaction.go. Interactions/Rows has the row and the columns of
-- the other tables, Interactions/Create the checks of `CreateInteraction`, Interactions/Answer the
-- methods that write, Interactions/Lists the queries. Interactions/Created and Interactions/Owned
-- are about what was checked, Interactions/History is about any sequence of calls, and
-- Interactions/Outcome about answers and their handling. `CancelInteraction` has two statements
-- outside a transaction, which are two calls there.
--
-- Runs is the part of internal/store/chat.go on runs: Runs/Rows with `CreateRunSession` and the unique
-- indexes of its INSERT, Runs/Lifecycle with the methods that write, checkpoints included, Runs/Queries, Runs/History on any sequence of calls,
-- and Runs/Restart on the end of a process's runs.
--
-- Robot is internal/robot/state.go: Robot/State has `ReadRobotState`, with the reader, the clock
-- and the query of the latest runtime instance as arguments, Robot/Reading is about its outcomes.
--
-- Proposals is internal/store/plan_proposal.go: Proposals/Rows with the tables and reads,
-- Proposals/Submit with `SubmitPlanProposalForRun` and `DiscardPlanProposal`, Proposals/Approve with
-- `ApprovePlanProposal`, which opens a workflow through the plans of Store. Proposals/Kept,
-- Proposals/Written and Proposals/Closed are about what a call leaves of the rows, and
-- Proposals/History about any sequence of calls, in which any other write to the remaining tables
-- may come between. encoding/json is `encode` and `decode`, which may fail and of which nothing is
-- assumed.
-- `SubmitPlanProposal` is a submission whose run has the empty id.
--
-- Projects is internal/store/project.go: Projects/Rows with the queries, Projects/Create with
-- `EnsureDefaultProject`, `CreateProject` and the maps of internal/store/semantic_map.go that they
-- insert, Projects/Active with names, modes, `ActivateProject` and `ArchiveProject`, and
-- Projects/Bindings. Projects/Distinct and Projects/Counting have the lemmas on tables with keys and
-- on the number of active rows, Projects/Single, Projects/Archive, Projects/Created and
-- Projects/Steps are about what each statement and each call leaves, Projects/History about any
-- sequence of calls, Projects/Activated about `ActivateProject`, Projects/Normal and Projects/Bound
-- about bindings, and
-- Projects/Migrated has `ensureMigratedDefaultProjects`. The unique index on active
-- projects is not in the model. `workspace` stands for the path beside the database.
--
-- Choices. Identifiers that `uuid` draws are arguments (`new`, `fresh`, `new_sub_task_id`), as is
-- the time. Raw JSON is a text, and only whether it is empty is looked at where the source does no
-- more; what a decoder reads from it is a parameter. Where the source ranges over a map, the model
-- takes the order of the draft. A revision is an unbounded number. Failures of the database driver
-- are not modelled: a call fails only as the source's checks or the schema make it fail, and then
-- leaves the database as it was. The methods read and write one row by its primary key. A
-- statement that the source runs outside a transaction is a definition of its own where a theorem
-- lets other calls come between: the checks, the UPDATE and the read-back of `TransitionTask` in a
-- stop, its checks and the rest elsewhere, and the two statements of `CancelInteraction`. Otherwise
-- the statements of one method are one step, and what is proved of it holds with no other writer
-- between them: the reads and the insertion of `CreateInteraction` and of `CreateRunSession`, the
-- reads before the transaction of `SubmitPlanProposalForRun`, and each query of
-- `ReadRobotState`. Loops are structural, except for Kahn's algorithm, whose fuel is the
-- number of nodes and one, and for the width of a number that is printed with leading zeros: eleven
-- digits more than nine are enough for a `uint64`. The aggregator's counter wraps around at 2 ^ 64.
-- The columns that a table has beyond those of the Go struct are left out. A number that JSON gives
-- is its integer part, and `strings.ToLower` is written out for the characters whose lower case is
-- ASCII, since no other can be in the table that it is looked up in. encoding/json itself is a
-- parameter of the aggregator. The numbers of events are not negative.
--
-- Not modelled: planning and running of tasks, the services above the scheduler and in front of the
-- questions, Conversations and messages, agents, the execution of robot skills, simulation, HTTP and
-- WebSocket servers, configuration and installation.
pub mod Prelude
pub mod Store
pub mod Bus
pub mod Scheduler
pub mod Events
pub mod Interactions
pub mod Runs
pub mod Robot
pub mod Proposals
pub mod Projects
