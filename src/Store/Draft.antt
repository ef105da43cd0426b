-- ===== src/Store/Draft.antt =====
-- The checks of plans before they are stored: `validateSubTaskDrafts` and `validateDraft` of
-- internal/store/workflow.go. They fill in the ids that a draft leaves out; the ids that the
-- program draws from its UUID library are the parameters `new_task_id` and `new_sub_task_id`, by
-- the place at which they are drawn.
use semantic_framework.Prelude.{
  ℕ, ◌+◌, String, Bool, true, false, not, ◌&&◌, ◌||◌, List, [], ◌∷◌, ◌++◌, ◌==◌, mem_text,
  trim_space, is_blank, Result, ok, invalid_state, guard, ◌>>=◌, ◌>>◌, if◌then◌else◌,
}
use semantic_framework.Store.Rows.{SubTaskDraft, TaskDraft, DraftDependency, WorkflowDraft}
use semantic_framework.Store.Graph.{Edge, is_acyclic, is_drained}

unfoldable pub valid_sub_task_kind : String → Bool
valid_sub_task_kind kind = kind == "robot_skill" || kind == "agent_step"

abbrev pub sub_draft_ids : List SubTaskDraft → List String
sub_draft_ids [] = []
sub_draft_ids (s ∷ ss) = s.id ∷ sub_draft_ids ss

abbrev pub edges_to : String → List String → List Edge
edges_to id [] = []
edges_to id (dependency ∷ rest) = record { source = dependency; target = id } ∷ edges_to id rest

-- `for _, dependency := range item.DependsOn`: neither the item itself nor unknown.
unfoldable pub check_dependencies : String → List String → List String → Result (Unit {0})
check_dependencies id known [] = ok tt
check_dependencies id known (dependency ∷ rest) = do
  guard (not (dependency == id)) invalid_state
  guard (mem_text dependency known) invalid_state
  check_dependencies id known rest

unfoldable pub check_all_dependencies : List String → List SubTaskDraft → Result (Unit {0})
unfolding check_dependencies
check_all_dependencies known [] = ok tt
check_all_dependencies known (s ∷ ss) = do
  check_dependencies s.id known s.depends_on
  check_all_dependencies known ss

abbrev pub sub_edges : List SubTaskDraft → List Edge
sub_edges [] = []
sub_edges (s ∷ ss) = edges_to s.id s.depends_on ++ sub_edges ss

abbrev pub id_or : String → String → String
id_or id drawn = if id == "" then drawn else id

module _ (new_sub_task_id : ℕ → String) where
  -- The first loop: goal, kind, id and uniqueness of each item, in order.
  unfoldable pub fill_sub_drafts : ℕ → List String → List SubTaskDraft → Result (List SubTaskDraft)
  unfolding valid_sub_task_kind
  fill_sub_drafts i seen [] = ok []
  fill_sub_drafts i seen (s ∷ ss) =
      let id = id_or s.id (new_sub_task_id i) in
      do
        guard (not (is_blank s.goal) && valid_sub_task_kind s.kind) invalid_state
        guard (not (mem_text id seen)) invalid_state
        rest ← fill_sub_drafts (i + 1) (id ∷ seen) ss
        ok (record s { id = id } ∷ rest)

  abbrev pub not_empty : List SubTaskDraft → Bool
  not_empty [] = false
  not_empty (s ∷ ss) = true

  unfoldable pub validate_sub_task_drafts : List SubTaskDraft → Result (List SubTaskDraft)
  unfolding fill_sub_drafts check_all_dependencies is_acyclic
  validate_sub_task_drafts items = do
    guard (not_empty items) invalid_state
    filled ← fill_sub_drafts 0 [] items
    check_all_dependencies (sub_draft_ids filled) filled
    guard (is_acyclic (sub_draft_ids filled) (sub_edges filled)) invalid_state
    ok filled

-- `ValidateSubTaskDrafts` works on a copy and keeps only the verdict.
unfoldable pub validate_sub_task_drafts_copy : (ℕ → String) → List SubTaskDraft → Result (Unit {0})
unfolding validate_sub_task_drafts
validate_sub_task_drafts_copy new_sub_task_id items = do
  filled ← validate_sub_task_drafts new_sub_task_id items
  ok tt

abbrev pub draft_ids : List TaskDraft → List String
draft_ids [] = []
draft_ids (t ∷ ts) = t.id ∷ draft_ids ts

abbrev pub draft_edges : List DraftDependency → List Edge
draft_edges [] = []
draft_edges (d ∷ ds) = record { source = d.depends_on_task_id; target = d.task_id } ∷ draft_edges ds

-- `for _, dep := range draft.Dependencies`
unfoldable pub check_task_dependencies : List String → List DraftDependency → Result (Unit {0})
check_task_dependencies known [] = ok tt
check_task_dependencies known (d ∷ ds) = do
  guard (not (d.task_id == d.depends_on_task_id)) invalid_state
  guard (mem_text d.task_id known) invalid_state
  guard (mem_text d.depends_on_task_id known) invalid_state
  check_task_dependencies known ds

module _ (new_task_id : ℕ → String) (new_sub_task_id : ℕ → ℕ → String) where
  unfoldable pub fill_drafts : ℕ → List String → List TaskDraft → Result (List TaskDraft)
  unfolding fill_sub_drafts check_all_dependencies
  fill_drafts i seen [] = ok []
  fill_drafts i seen (t ∷ ts) =
      let role = trim_space t.required_role in
      let id = id_or t.id (new_task_id i) in
      do
        guard (not (is_blank t.goal)) invalid_state
        guard (not (role == "")) invalid_state
        guard (not (mem_text id seen)) invalid_state
        subs ← fill_sub_drafts (new_sub_task_id i) 0 [] t.sub_tasks
        check_all_dependencies (sub_draft_ids subs) subs
        rest ← fill_drafts (i + 1) (id ∷ seen) ts
        ok (record t { required_role = role; id = id; sub_tasks = subs } ∷ rest)

  -- The draft as the checks leave it: roles trimmed and ids filled in.
  unfoldable pub validate_draft : WorkflowDraft → Result WorkflowDraft
  unfolding fill_drafts check_task_dependencies is_drained
  validate_draft draft = do
    guard (not (is_blank draft.goal)) invalid_state
    tasks ← fill_drafts 0 [] draft.tasks
    check_task_dependencies (draft_ids tasks) draft.dependencies
    guard (is_drained (draft_ids tasks) (draft_edges draft.dependencies)) invalid_state
    ok (record draft { tasks = tasks })
