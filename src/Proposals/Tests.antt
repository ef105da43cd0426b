-- ===== src/Proposals/Tests.antt =====
-- A plan in a small database: submitted, submitted again, approved, and approved again.
use semantic_framework.Prelude.{
  String, Bool, true, false, List, Option, [], ◌∷◌, none, some, Result, ok, err, ◌≡◌, refl,
  trim_space, order_by, revision_conflict,
}
use semantic_framework.Prelude.Table.{find, update, affected}
use semantic_framework.Store.Rows.{WorkflowDraft, WorkflowView}
use semantic_framework.Store.Samples.{a_db, a_workflow}
use semantic_framework.Store.Graph.{drain, delete, is_drained, relax, lower, released}
use semantic_framework.Store.Draft.{
  fill_drafts, check_task_dependencies, validate_draft, fill_sub_drafts,
}
use semantic_framework.Store.Plan.{
  insert_tasks, insert_task_dependencies, allocate_task_ids, replace_plan,
}
use semantic_framework.Store.Tables.{
  list_tasks, list_sub_tasks, insert_task, insert_task_dependency,
}
use semantic_framework.Store.SubTask.{allocate_sub_task_ids, insert_plan}
use semantic_framework.Store.Workflow.{save_workflow_revision, get_workflow_view, sub_tasks_of}
use semantic_framework.Proposals.Rows.{PlanProposal, ProposalDb, get_plan_proposal}
use semantic_framework.Proposals.Submit.{
  Submitted, submit_plan_proposal_for_run, discard_plan_proposal, new_proposal,
}
use semantic_framework.Proposals.Approve.{approve_plan_proposal, write_approval}
use semantic_framework.Proposals.History.{
  Drawn, Call, submit, discard, approve, elsewhere, after_submit, after_call, submit_with,
  approve_with, run, call, approve-once, submit-idempotent,
}

abbrev a_plan : WorkflowDraft
a_plan = record {
  goal = "tidy";
  constraints = "";
  completion_criteria = "";
  map_scope = "";
  tasks =
      record {
        id = "t";
        required_role = "worker";
        required_capabilities = "";
        resource_requirements = "";
        goal = "look";
        input = "";
        completion_criteria = "";
        sub_tasks = [];
      }
      ∷ [];
  dependencies = [];
}

abbrev encode : WorkflowDraft → Option String
encode d = some d.goal

abbrev decode : String → Option WorkflowDraft
decode s = some (record a_plan { goal = s })

abbrev context : String → String
context id = id

abbrev drawn : String → Drawn
drawn id = record {
  new_task_id = λ i. "task-new";
  new_sub_task_id = λ i j. "subtask-new";
  taken_task_id = λ i. "task-other";
  fresh = λ i j. "subtask-other";
  own_id = id;
}

abbrev a_submission : Submitted
a_submission = record {
  run_id = "run-1";
  project_id = "p1";
  conversation_id = "c1";
  requested = a_plan;
  summary = "one step";
  approved_scope = "";
  document = "# tidy";
}

abbrev empty_desk : ProposalDb
empty_desk = record {
  base = record a_db { workflows = []; tasks = []; sub_tasks = [] };
  plan_proposals = [];
  submissions = [];
  conversations = record { id = "c1"; project_id = "p1"; archived_at = none } ∷ [];
}

abbrev a_proposal : PlanProposal
a_proposal = new_proposal a_plan.goal "plan-1" a_submission a_plan 5

abbrev proposed : ProposalDb
proposed =
    after_submit (submit_with context encode decode (drawn "plan-1") a_submission 5 empty_desk)
      empty_desk

abbrev calls_between : List Call
calls_between =
    submit (drawn "plan-2") (record a_submission { run_id = "run-2" }) 7
    ∷ discard "plan-1" 1 8
    ∷ elsewhere (record a_db { workflows = [] }) proposed.conversations
    ∷ []

abbrev revised_db : ProposalDb
revised_db = run context encode decode calls_between proposed

abbrev answer_again : Result (PlanProposal × Bool × ProposalDb)
answer_again = submit_with context encode decode (drawn "plan-3") a_submission 9 revised_db

abbrev told : PlanProposal
told = record a_proposal { revision = 2; updated_at = 7 }

submit-idempotent_example : (true ≡ true) × (after_submit answer_again empty_desk ≡ revised_db)
unfolding validate_draft trim_space find update affected get_plan_proposal
    submit_plan_proposal_for_run discard_plan_proposal fill_drafts check_task_dependencies
    is_drained drain delete relax lower released fill_sub_drafts run call
submit-idempotent_example =
    submit-idempotent context encode decode (drawn "plan-1") a_submission 5 a_proposal false
      empty_desk proposed refl refl calls_between (drawn "plan-3") a_submission 9 told true
      (after_submit answer_again empty_desk) refl refl

abbrev approval : Result (WorkflowView × ProposalDb)
approval = approve_with context encode decode (drawn "w1") "plan-1" 1 6 proposed

abbrev approved_db : ProposalDb
approved_db = after_call approval empty_desk

abbrev view_of : Result (WorkflowView × ProposalDb) → WorkflowView
view_of (ok (view, db)) = view
view_of (err e) = record {
  workflow = a_workflow;
  tasks = [];
  sub_tasks = [];
  dependencies = [];
  sub_task_dependencies = [];
}

abbrev calls_after : List Call
calls_after =
    elsewhere (record a_db { workflows = [] }) approved_db.conversations
    ∷ submit (drawn "plan-2") (record a_submission { run_id = "run-2" }) 7
    ∷ approve (drawn "w2") "plan-2" 1 8
    ∷ []

approve-once_example :
    (approve_with context encode decode
        (drawn "w3")
        "plan-1"
        2
        9
        (run context encode decode calls_after approved_db)
      ≡ err revision_conflict)
    × (discard_plan_proposal "plan-1" 2 9 (run context encode decode calls_after approved_db)
        ≡ err revision_conflict)
unfolding validate_draft trim_space find update affected get_plan_proposal
    submit_plan_proposal_for_run approve_plan_proposal write_approval fill_drafts
    check_task_dependencies is_drained drain delete relax lower released fill_sub_drafts
    replace_plan insert_tasks insert_task_dependencies allocate_task_ids insert_task
    insert_task_dependency allocate_sub_task_ids insert_plan save_workflow_revision
    get_workflow_view sub_tasks_of list_tasks list_sub_tasks order_by
approve-once_example =
    approve-once context encode decode (drawn "w1") "plan-1" 1 6 (view_of approval) proposed
      approved_db refl calls_after (drawn "w3") 2 9
