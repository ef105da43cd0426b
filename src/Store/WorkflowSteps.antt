-- ===== src/Store/WorkflowSteps.antt =====
-- `TransitionWorkflow` and `TransitionWorkflowWithReason` of internal/store/workflow.go when they
-- return.
use mathlib.Core.Path.{subst}
use semantic_framework.Prelude.{
  ℕ, ◌+◌, String, ◌≡◌, refl, sym, ap, ◌∙◌, Bool, true, false, not, ◌&&◌, Option, none, some, List,
  [], ◌∷◌, ◌++◌, ◌==◌, eqb, any, ok, invalid_state, not_found, revision_conflict, constraint,
  if◌then◌else◌, arith, not-eq-true,
}
use semantic_framework.Prelude.Table.{find, update, affected, affected-find, find-update}
use semantic_framework.Store.Status.{
  Status, running, eq_status, terminal_work_status, allowed_workflow_transitions,
}
use semantic_framework.Store.Rows.{Workflow, Project, WorkflowView, Db}
use semantic_framework.Store.Tx.{
  Tx, ◌>>=◌, ◌>>◌, gets, expect, require, modify, Returns, Returns-bind, Returns-expect,
  Returns-require,
}
use semantic_framework.Store.Tables.{workflow_key}
use semantic_framework.Store.Task.{ended_when}
use semantic_framework.Store.Workflow.{
  find_workflow, get_workflow_view, save_workflow_revision, project_key, release_project,
  next_confirmed_revision, transition_workflow_with_reason,
}

-- The tables that saving a revision leaves alone.
abbrev SameRows : Db → Db → Type 0
SameRows d d' = (d'.workflows ≡ d.workflows) × ((d'.projects ≡ d.projects) × (d'.tasks ≡ d.tasks))

modify-Returns :
    (f : Db → Db) (d : Db) (P : Db → Type 0) → P (f d) → Returns (modify f) d (λ _ d'. P d')
modify-Returns f d P p u d' h = subst (λ (r : Unit {0} × Db). P r.1) (ok-inj h) p
  where
    ok-inj : {r s : Unit {0} × Db} → ok r ≡ ok s → r ≡ s
    ok-inj e = cc

get_workflow_view-same : (id : String) (d : Db) → Returns (get_workflow_view id) d (λ _ d'. d' ≡ d)
unfolding get_workflow_view
get_workflow_view-same id d =
    Returns-expect d _ (find_workflow id d) not_found _ λ w has view d' h. cc

save_workflow_revision-SameRows :
    (id : String) (revision now : ℕ) (d : Db)
    → Returns (save_workflow_revision id revision now) d (λ _ d'. SameRows d d')
unfolding save_workflow_revision
save_workflow_revision-SameRows id revision now d =
    Returns-bind d _ (get_workflow_view id) _ λ view d1 e.
      subst (λ x. Returns (rest view) x (λ _ d'. SameRows d d'))
        (sym (get_workflow_view-same id d view d1 e))
        (Returns-require d _
          (not (any (λ r. r.workflow_id == id && eqb r.revision revision) d.workflow_revisions))
          constraint (modify (saved view))
          (λ free. modify-Returns (saved view) d (SameRows d) (refl, (refl, refl))))
  where
    saved : WorkflowView → Db → Db
    saved view db = record db {
      workflow_revisions =
          db.workflow_revisions
          ++ record { workflow_id = id; revision = revision; snapshot = view; created_at = now }
            ∷ [];
    }

    rest : WorkflowView → Tx (Unit {0})
    rest view = do
      clash ←
          gets
            (λ db. any (λ r. r.workflow_id == id && eqb r.revision revision) db.workflow_revisions)
      require (not clash) constraint
      modify (saved view)

-- The row that a transition leaves.
abbrev pub moved_workflow : Status → String → ℕ → Workflow → Workflow
moved_workflow to reason now w = record w {
  status = to;
  reason = reason;
  revision = w.revision + 1;
  confirmed_revision = next_confirmed_revision w w.revision;
  updated_at = now;
  ended_at = ended_when to now;
}

-- The project's row, back in development when the workflow has ended.
abbrev pub released_projects : Status → String → ℕ → List Project → List Project
released_projects to project_id now ps =
    if terminal_work_status to
    then update project_key project_id (λ p. true)
        (λ p. record p { mode = "development"; revision = p.revision + 1; updated_at = now }) ps
    else ps

-- What a transition that returned has checked and done.
pub record WorkflowMoved (id : String) (expected : ℕ) (to : Status) (reason : String) (now : ℕ)
    (db : Db) (w' : Workflow) (db' : Db) : Type 0 where
  pub row : Workflow
  pub found : find_workflow id db ≡ some row
  pub same : row.revision ≡ expected
  pub legal : allowed_workflow_transitions row.status to ≡ true
  pub confirmed : (eq_status to running && not (eqb row.confirmed_revision row.revision)) ≡ false
  pub result : w' ≡ moved_workflow to reason now row
  pub stored : find_workflow id db' ≡ some w'
  pub projects : db'.projects ≡ released_projects to row.project_id now db.projects
  pub tasks : db'.tasks ≡ db.tasks

returns-WorkflowMoved :
    (id : String) (expected : ℕ) (to : Status) (reason : String) (now : ℕ) (db : Db)
    → Returns
        (transition_workflow_with_reason id expected to reason now)
        db
        (λ w' db'. WorkflowMoved id expected to reason now db w' db')
unfolding transition_workflow_with_reason release_project
returns-WorkflowMoved id expected to reason now db =
    Returns-expect db _ (find_workflow id db) not_found _ λ row found.
      Returns-require db _ (eqb row.revision expected) revision_conflict _ λ same.
        Returns-require db _ (allowed_workflow_transitions row.status to) invalid_state _ λ legal.
          Returns-require db _
            (not (eq_status to running && not (eqb row.confirmed_revision row.revision)))
            revision_conflict _
            λ confirmed.
              Returns-require db _
                (affected workflow_key id (λ w. eqb w.revision expected) db.workflows)
                revision_conflict _
                λ hit.
                  Returns-bind (released row) _ (save_workflow_revision id (expected + 1) now) _
                    λ u d3 e w' db' h.
                      let (row', found', passes) =
                        affected-find workflow_key id (λ w. eqb w.revision expected) db.workflows
                          hit in
                      let is_row : row' ≡ row = cc in
                      let (ws, (ps, ts)) =
                        save_workflow_revision-SameRows id (expected + 1) now (released row) u d3
                          e in
                      let (ws', (ps', ts')) = released-rows row (terminal_work_status to) in
                      let there : find_workflow id d3 ≡ some (change row row') =
                        ap (find workflow_key id) (ws ∙ ws')
                        ∙ find-update workflow_key id (λ w. eqb w.revision expected) (change row)
                            db.workflows row' found' passes refl in
                      let (is, at_end) = read (find_workflow id d3) d3 w' db' h in
                      let at : row.revision ≡ expected = ground arith in
                      let moved_row : change row row' ≡ moved_workflow to reason now row =
                        ap (change row) is_row
                        ∙ ap
                            (λ n. record (change row row) {
                              confirmed_revision = next_confirmed_revision row n;
                            })
                            (sym at) in
                      let w'_is : w' ≡ change row row' = some-inj (sym is ∙ there) in
                      record {
                        row = row;
                        found = found;
                        same = at;
                        legal = legal;
                        confirmed =
                            not-eq-true
                              (eq_status to running
                                && not (eqb row.confirmed_revision row.revision))
                              confirmed;
                        result = w'_is ∙ moved_row;
                        stored = ap (find_workflow id) at_end ∙ is;
                        projects = ap (λ (d : Db). d.projects) at_end ∙ (ps ∙ ps');
                        tasks = ap (λ (d : Db). d.tasks) at_end ∙ (ts ∙ ts');
                      }
  where
    some-inj : {v w : Workflow} → some v ≡ some w → v ≡ w
    some-inj e = cc

    change : Workflow → Workflow → Workflow
    change row w = record w {
      status = to;
      reason = reason;
      revision = w.revision + 1;
      confirmed_revision = next_confirmed_revision row expected;
      updated_at = now;
      ended_at = ended_when to now;
    }

    live : Workflow → Db
    live row = record db {
      workflows = update workflow_key id (λ w. eqb w.revision expected) (change row) db.workflows;
    }

    ended : Workflow → Db
    ended row = record (live row) {
      projects =
          update project_key row.project_id (λ p. true)
            (λ p. record p { mode = "development"; revision = p.revision + 1; updated_at = now })
            db.projects;
    }

    released : Workflow → Db
    released row = if terminal_work_status to then ended row else live row

    released-rows :
        (row : Workflow) (b : Bool)
        → ((if b then ended row else live row).workflows ≡ (live row).workflows)
          × (((if b then ended row else live row).projects
                ≡ (if b then (ended row).projects else db.projects))
              × ((if b then ended row else live row).tasks ≡ db.tasks))
    released-rows row true = (refl, (refl, refl))
    released-rows row false = (refl, (refl, refl))

    read :
        (o : Option Workflow) (d : Db) (w' : Workflow) (db' : Db)
        → expect o not_found d ≡ ok (w', db')
        → (o ≡ some w') × (db' ≡ d)
    read none d w' db' e = cc
    read (some w) d w' db' e = (cc, cc)

-- A transition of a workflow that returns has found the row at the expected revision and allowed
-- to move to the new status, and confirmed if that is running; it returns and stores that row with
-- the new status and the next revision, returns the project to development if the status is
-- terminal, and changes no task.
pub transition_workflow_with_reason-WorkflowMoved :
    (id : String) (expected : ℕ) (to : Status) (reason : String) (now : ℕ) (db : Db) (w' : Workflow)
    (db' : Db)
    → transition_workflow_with_reason id expected to reason now db ≡ ok (w', db')
    → WorkflowMoved id expected to reason now db w' db'
transition_workflow_with_reason-WorkflowMoved id expected to reason now db w' db' h =
    returns-WorkflowMoved id expected to reason now db w' db' h

confirmed_next :
    (w : Workflow)
    → w.confirmed_revision ≡ w.revision
    → next_confirmed_revision w w.revision ≡ w.revision + 1
confirmed_next w e = go (eqb w.confirmed_revision w.revision) refl
  where
    go :
        (b : Bool)
        → eqb w.confirmed_revision w.revision ≡ b
        → (if b then w.revision + 1 else w.confirmed_revision) ≡ w.revision + 1
    go true h = refl
    go false h = absurd (ground arith)

-- A workflow only ever runs at a revision that has been confirmed: a transition to running that
-- returns leaves the confirmed revision equal to the revision.
pub running-confirmed :
    (id : String) (expected : ℕ) (reason : String) (now : ℕ) (db : Db) (w' : Workflow) (db' : Db)
    → transition_workflow_with_reason id expected running reason now db ≡ ok (w', db')
    → (w'.status ≡ running) × (w'.confirmed_revision ≡ w'.revision)
running-confirmed id expected reason now db w' db' h =
    let m = returns-WorkflowMoved id expected running reason now db w' db' h in
    let at : m.row.confirmed_revision ≡ m.row.revision =
      confirmed_at (eqb m.row.confirmed_revision m.row.revision) refl m.confirmed in
    (
      ap (λ (w : Workflow). w.status) m.result,
      ap (λ (w : Workflow). w.confirmed_revision) m.result
          ∙ confirmed_next m.row at
          ∙ sym (ap (λ (w : Workflow). w.revision) m.result),
    )
  where
    confirmed_at : {m n : ℕ} (b : Bool) → eqb m n ≡ b → not b ≡ false → m ≡ n
    confirmed_at true e h = ground arith
    confirmed_at false e h = cc

-- When a workflow ends, its project, if it is there, is returned to development with the next
-- revision.
pub terminal-project_released :
    (id : String) (expected : ℕ) (to : Status) (reason : String) (now : ℕ) (db : Db)
    (w w' : Workflow) (p : Project) (db' : Db)
    → terminal_work_status to ≡ true
    → find_workflow id db ≡ some w
    → find project_key w.project_id db.projects ≡ some p
    → transition_workflow_with_reason id expected to reason now db ≡ ok (w', db')
    → find project_key w.project_id db'.projects
      ≡ some (record p { mode = "development"; revision = p.revision + 1; updated_at = now })
terminal-project_released id expected to reason now db w w' p db' ended found project h =
    let m = returns-WorkflowMoved id expected to reason now db w' db' h in
    let is_w : m.row ≡ w = some-inj (sym m.found ∙ found) in
    ap (find project_key w.project_id)
      (m.projects ∙ ap (λ (v : Workflow). released_projects to v.project_id now db.projects) is_w)
    ∙ go (terminal_work_status to) ended
  where
    some-inj : {v w : Workflow} → some v ≡ some w → v ≡ w
    some-inj e = cc

    back : Project → Project
    back p = record p { mode = "development"; revision = p.revision + 1; updated_at = now }

    go :
        (b : Bool)
        → b ≡ true
        → find project_key w.project_id (
            if b then update project_key w.project_id (λ p. true) back db.projects else db.projects)
          ≡ some (back p)
    go true e =
        find-update project_key w.project_id (λ p. true) back db.projects p project refl refl
    go false e = cc
