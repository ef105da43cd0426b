-- ===== src/Interactions/Create.antt =====
-- internal/store/interaction.go: `CreateInteraction` with its checks of ownership and revision.
use semantic_framework.Prelude.{
  ℕ, String, Bool, true, false, not, ◌&&◌, ◌||◌, List, [], ◌∷◌, ◌++◌, Option, none, some, ◌==◌, eqb,
  ltb, is_some, Result, ok, err, guard, ◌>>=◌, ◌>>◌, if◌then◌else◌, invalid_state, not_found,
  revision_conflict, project_inactive, stale_map_generation, constraint,
}
use semantic_framework.Prelude.Table.{find}
use semantic_framework.Store.Rows.{Workflow, Task}
use semantic_framework.Interactions.Rows.{
  Interaction, ChatSession, ProjectState, RunOwner, SemanticMap, InteractionDb, interaction_key,
  system_default_project_id,
}

abbrev pub no_session : ChatSession
no_session = record { id = ""; user_id = ""; project_id = ""; revision = 0 }

-- The Conversation gives the Project; without a Conversation only the system's own Project is
-- left. The last component tells such a record of the system.
abbrev pub place_in : Option ChatSession → Interaction → Result (Interaction × ChatSession × Bool)
place_in none it =
    if it.project_id == ""
    then ok (record it { project_id = system_default_project_id }, no_session, true)
    else err not_found
place_in (some s) it =
    let project = if it.project_id == "" then s.project_id else it.project_id in
    if project == s.project_id
    then ok (record it { project_id = project }, s, false)
    else err invalid_state

-- A condition on a row that has to be there.
abbrev pub holds {ℓ} : {A : Type ℓ} → Option A → (A → Bool) → Bool
holds none test = false
holds (some a) test = test a

abbrev pub find_project : String → InteractionDb → Option ProjectState
find_project id db = find (λ p. p.id) id db.projects

abbrev pub find_run : String → InteractionDb → Option RunOwner
find_run id db = find (λ r. r.id) id db.run_sessions

abbrev pub find_workflow : String → InteractionDb → Option Workflow
find_workflow id db = find (λ w. w.id) id db.workflows

abbrev pub find_task : String → InteractionDb → Option Task
find_task id db = find (λ t. t.id) id db.tasks

abbrev pub valid_map_slot : String → Bool
valid_map_slot slot = slot == "simulation_map" || slot == "real_map"

-- The row of the project's map in a slot.
abbrev pub map_in : String → String → List SemanticMap → Option SemanticMap
map_in project slot [] = none
map_in project slot (m ∷ ms) =
    let rest = map_in project slot ms in
    if m.project_id == project && m.slot == slot then some m else rest

abbrev pub get_semantic_map : String → String → InteractionDb → Option SemanticMap
get_semantic_map project slot db =
    if valid_map_slot slot then map_in project slot db.semantic_maps else none

abbrev pub check_project : Interaction → ChatSession → Bool → InteractionDb → Result (Unit {0})
check_project it session implicit db =
    guard
      (implicit
        || session.user_id == ""
        || holds (find_project it.project_id db) (λ p. not (is_some p.archived_at) && p.is_active))
      project_inactive

abbrev pub owns_run : Interaction → RunOwner → Bool
owns_run it run =
    run.project_id == it.project_id
    && run.chat_session_id == it.session_id
    && (it.workflow_id == "" || run.workflow_id == it.workflow_id)
    && (it.task_id == "" || run.task_id == it.task_id)

abbrev pub check_run : Interaction → Bool → InteractionDb → Result (Unit {0})
check_run it implicit db =
    guard (it.run_id == "" || implicit || holds (find_run it.run_id db) (owns_run it)) invalid_state

-- A revision of 0 means that the question does not depend on one.
abbrev pub fits_revision : Interaction → ℕ → Bool
fits_revision it revision = not (ltb 0 it.source_revision) || eqb revision it.source_revision

abbrev pub check_workflow_row : Interaction → Option Workflow → Result (Unit {0})
check_workflow_row it none = err invalid_state
check_workflow_row it (some w) = do
  guard (w.project_id == it.project_id && w.conversation_id == it.session_id) invalid_state
  guard (not (it.task_id == "") || fits_revision it w.revision) revision_conflict

abbrev pub check_workflow : Interaction → InteractionDb → Result (Unit {0})
check_workflow it db =
    if it.workflow_id == "" then ok tt else check_workflow_row it (find_workflow it.workflow_id db)

abbrev pub check_task_row : Interaction → Option Task → Result (Unit {0})
check_task_row it none = err invalid_state
check_task_row it (some t) = do
  guard (t.workflow_id == it.workflow_id) invalid_state
  guard (fits_revision it t.revision) revision_conflict

abbrev pub check_task : Interaction → InteractionDb → Result (Unit {0})
check_task it db = if it.task_id == "" then ok tt else check_task_row it (find_task it.task_id db)

abbrev pub check_session : Interaction → ChatSession → Result (Unit {0})
check_session it session =
    guard
      (not (it.workflow_id == "") || not (it.task_id == "") || fits_revision it session.revision)
      revision_conflict

abbrev pub check_map_row : Interaction → Option SemanticMap → Result (Unit {0})
check_map_row it none = err invalid_state
check_map_row it (some m) = guard (eqb m.generation it.map_generation) stale_map_generation

abbrev pub check_map : Interaction → InteractionDb → Result (Unit {0})
check_map it db =
    if it.map_id == ""
    then ok tt
    else check_map_row it (get_semantic_map it.project_id it.map_id db)

-- The INSERT writes revision 1 and leaves the columns of the answer empty.
abbrev pub fresh_row : Interaction → Interaction
fresh_row it = record it {
  revision = 1;
  answered_at = none;
  expired_at = none;
  cancelled_at = none;
  handled_at = none;
  handling_error = "";
}

abbrev pub insert_interaction : Interaction → InteractionDb → Result InteractionDb
insert_interaction it db =
    if is_some (find interaction_key it.id db.interactions)
    then err constraint
    else ok (record db { interactions = db.interactions ++ fresh_row it ∷ [] })

abbrev pub create_checked : Interaction → ChatSession → Bool → InteractionDb → Result InteractionDb
create_checked it session implicit db = do
  check_project it session implicit db
  check_run it implicit db
  check_workflow it db
  check_task it db
  check_session it session
  check_map it db
  insert_interaction it db

unfoldable pub create_interaction : Interaction → InteractionDb → Result InteractionDb
unfolding find
create_interaction it db = do
  (placed, session, implicit) ← place_in (find (λ s. s.id) it.session_id db.chat_sessions) it
  create_checked placed session implicit db
