-- ===== src/Interactions/Owned.antt =====
-- The ownership that `CreateInteraction` of internal/store/interaction.go checks.
use semantic_framework.Prelude.{ℕ, true, false, some, ◌==◌, is_some, ◌≡◌, ◌⊎◌}
use semantic_framework.Store.Rows.{Workflow, Task}
use semantic_framework.Interactions.Rows.{
  Interaction, ChatSession, ProjectState, RunOwner, SemanticMap, InteractionDb,
}
use semantic_framework.Interactions.Create.{
  find_project, find_run, find_workflow, find_task, get_semantic_map,
}

-- A question that does not depend on a revision, or was asked for this one.
abbrev pub IsAt : Interaction → ℕ → Type 0
IsAt row revision = (row.source_revision ≡ 0) ⊎ (revision ≡ row.source_revision)

-- A run of the question's Project and Conversation, and of the workflow and the task that it names.
abbrev pub RunFits : Interaction → RunOwner → Type 0
RunFits row r =
    (r.project_id ≡ row.project_id)
    × (r.chat_session_id ≡ row.session_id)
    × ((row.workflow_id ≡ "") ⊎ (r.workflow_id ≡ row.workflow_id))
    × ((row.task_id ≡ "") ⊎ (r.task_id ≡ row.task_id))

-- A question is asked in a Conversation whose user has an active Project, and what it names
-- belongs to that Conversation and is at the revision that was asked about.
pub record IsOwned (row : Interaction) (session : ChatSession) (db : InteractionDb) : Type 0 where
  pub in_project : row.project_id ≡ session.project_id
  pub writable :
      ((session.user_id == "") ≡ true)
      ⊎ ((p : ProjectState) × (find_project row.project_id db ≡ some p)
          × (is_some p.archived_at ≡ false)
          × (p.is_active ≡ true))
  pub of_run :
      ((row.run_id == "") ≡ true)
      ⊎ ((r : RunOwner) × (find_run row.run_id db ≡ some r) × RunFits row r)
  pub of_workflow :
      ((row.workflow_id == "") ≡ true)
      ⊎ ((w : Workflow) × (find_workflow row.workflow_id db ≡ some w)
          × (w.project_id ≡ row.project_id)
          × (w.conversation_id ≡ row.session_id)
          × ((row.task_id ≡ "") → IsAt row w.revision))
  pub of_task :
      ((row.task_id == "") ≡ true)
      ⊎ ((t : Task) × (find_task row.task_id db ≡ some t)
          × (t.workflow_id ≡ row.workflow_id)
          × IsAt row t.revision)
  pub of_session : (row.workflow_id ≡ "") → (row.task_id ≡ "") → IsAt row session.revision
  pub of_map :
      ((row.map_id == "") ≡ true)
      ⊎ ((m : SemanticMap) × (get_semantic_map row.project_id row.map_id db ≡ some m)
          × (m.generation ≡ row.map_generation))
