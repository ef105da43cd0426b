-- ===== src/Interactions/Tests.antt =====
-- A question in a small database.
use semantic_framework.Prelude.{
  true, List, [], ◌∷◌, none, some, ok, err, ◌≡◌, refl, not_pending, invalid_state,
}
use semantic_framework.Prelude.Table.{find, update, affected}
use semantic_framework.Store.Samples.{a_workflow, a_task}
use semantic_framework.Store.Status.{running}
use semantic_framework.Interactions.Rows.{
  Interaction, ChatSession, InteractionDb, interaction_key, pending, answered, expired, cancelled,
}
use semantic_framework.Interactions.Create.{fresh_row}
use semantic_framework.Interactions.Answer.{
  answer_interaction_at_revision, finalize_interaction, cancel_interaction,
  mark_interaction_handled, record_interaction_handling_error, stamp_cancelled,
}
use semantic_framework.Interactions.History.{
  Call, run, expire, cancel_session, answer, mark_handled,
}
use semantic_framework.Interactions.Outcome.{answer-final, handled-once}

abbrev a_question : Interaction
a_question = record {
  id = "int-1";
  project_id = "";
  session_id = "c1";
  revision = 0;
  workflow_id = "w1";
  task_id = "t1";
  ui_kind = "form";
  source_revision = 1;
  map_id = "real_map";
  map_generation = 4;
  target_agent_id = "";
  response_schema = "{}";
  agent = "leader";
  kind = "confirm";
  status = pending;
  payload = "{}";
  reply = "";
  run_id = "run-1";
  checkpoint_id = "";
  created_at = 5;
  answered_at = none;
  expired_at = none;
  expires_at = some 60;
  cancelled_at = none;
  handled_at = none;
  handling_error = "";
}

abbrev a_session : ChatSession
a_session = record { id = "c1"; user_id = "u1"; project_id = "p1"; revision = 2 }

abbrev a_desk : InteractionDb
a_desk = record {
  interactions = [];
  chat_sessions = a_session ∷ [];
  projects = record { id = "p1"; owner_id = "u1"; is_active = true; archived_at = none } ∷ [];
  run_sessions =
      record {
        id = "run-1";
        project_id = "p1";
        chat_session_id = "c1";
        workflow_id = "w1";
        task_id = "t1";
      }
      ∷ [];
  workflows = a_workflow ∷ [];
  tasks = a_task "t1" 0 running ∷ [];
  semantic_maps = record { project_id = "p1"; slot = "real_map"; generation = 4 } ∷ [];
}

abbrev asked : InteractionDb
asked = record a_desk { interactions = fresh_row (record a_question { project_id = "p1" }) ∷ [] }

abbrev replied : InteractionDb
replied = record asked {
  interactions =
      record (fresh_row (record a_question { project_id = "p1" })) {
        status = answered;
        reply = "yes";
        answered_at = some 7;
        revision = 2;
      }
      ∷ [];
}

abbrev late_calls : List Call
late_calls = expire "int-1" 8 ∷ cancel_session "c1" 9 ∷ answer "int-1" "no" 1 10 ∷ []

answer-final_example :
    (b : Interaction) × (find interaction_key "int-1" (run late_calls replied).interactions
      ≡ some b)
    × (b.status ≡ answered)
    × (b.reply ≡ "yes")
    × (b.answered_at ≡ some 7)
    × (answer_interaction_at_revision "int-1" "no" 1 11 (run late_calls replied) ≡ err not_pending)
    × (finalize_interaction "int-1" expired "no" none (some 11) (run late_calls replied)
        ≡ err not_pending)
unfolding answer_interaction_at_revision affected update
answer-final_example =
    answer-final "int-1" "yes" 1 7 asked replied late_calls "no" expired 1 11 none (some 11) refl

abbrev routed : InteractionDb
routed = record replied {
  interactions =
      record (fresh_row (record a_question { project_id = "p1" })) {
        status = answered;
        reply = "yes";
        answered_at = some 7;
        revision = 2;
        handled_at = some 8;
      }
      ∷ [];
}

handled-once_example :
    (b : Interaction) × (find interaction_key "int-1"
        (run (mark_handled "int-1" 9 "x" ∷ []) routed).interactions
      ≡ some b)
    × (b.handled_at ≡ some 8)
    × (b.handling_error ≡ "")
    × (mark_interaction_handled "int-1" 10 "y" (run (mark_handled "int-1" 9 "x" ∷ []) routed)
        ≡ err invalid_state)
    × (record_interaction_handling_error "int-1" "y" (run (mark_handled "int-1" 9 "x" ∷ []) routed)
        ≡ err invalid_state)
unfolding mark_interaction_handled affected update
handled-once_example =
    handled-once "int-1" "" 8 replied routed (mark_handled "int-1" 9 "x" ∷ []) "y" 10 refl

-- A question that is cancelled alone has the time of the cancellation in both columns; one that is
-- cancelled with its Conversation has it in `expired_at` only.
cancelled_alone :
    cancel_interaction "int-1" 7 asked
    ≡ ok (record asked {
      interactions =
          record (fresh_row (record a_question { project_id = "p1" })) {
            status = cancelled;
            expired_at = some 7;
            cancelled_at = some 7;
            revision = 2;
          }
          ∷ [];
    })
unfolding cancel_interaction finalize_interaction stamp_cancelled affected update
cancelled_alone = refl
