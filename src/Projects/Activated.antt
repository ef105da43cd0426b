-- ===== src/Projects/Activated.antt =====
-- internal/store/project.go: the project that is active after `ActivateProject`.
use semantic_framework.Prelude.{
  ℕ, ◌≤◌, String, true, not, List, [], ◌∷◌, some, is_some, Result, ok, err, ◌≡◌, refl, ap, sym, ◌∙◌,
  arith, >>=-ok, >>-ok, if-ok, inl, inr, guard, project_archived, project_has_active_work,
  if◌then◌else◌, Bool-cases, ◌==◌,
}
use semantic_framework.Prelude.Table.{find, update_all, find-update}
use semantic_framework.Prelude.Statements.{find-update_all}
use semantic_framework.Projects.Rows.{Project, ProjectDb, project_key, get_project, or_not_found}
use semantic_framework.Projects.Create.{activated, with_project, with_projects}
use semantic_framework.Projects.Active.{
  activate_project, owned, activate_row, is_blocked, switch_to, deactivated, always,
}
use semantic_framework.Projects.Counting.{active_count}
use semantic_framework.Projects.Single.{IsSingle}
use semantic_framework.Projects.Steps.{activate_project-Single, owned-found}

active_count-found :
    (k : String) (rows : List Project) (p : Project)
    → find project_key k rows ≡ some p
    → p.is_active ≡ true
    → 1 ≤ active_count rows
unfolding find
active_count-found k [] p h a = cc
active_count-found k (x ∷ xs) p h a = elim (Bool-cases (x.id == k)) [
  | inl e ↦
      let s : some x ≡ some p = rw e at h in
      let r : x ≡ p = cc in
      let b : x.is_active ≡ true = ap (λ y. y.is_active) r ∙ a in rw b (omega arith)
  | inr e ↦ omega (arith, active_count-found k xs p (rw e at h) a)
]

-- The row that `ActivateProject` has made active, or has found so.
activate_row-found :
    (q : Project) (id : String) (now : ℕ) (db db' : ProjectDb)
    → find project_key id db.projects ≡ some q
    → activate_row q id now db ≡ ok db'
    → (p : Project) × (find project_key id db'.projects ≡ some p) × (p.is_active ≡ true)
activate_row-found q id now db db' f h = elim (if-ok q.is_active (ok db) rest db' h) [
  | inl l ↦ let e : db ≡ db' = cc in (q, ap (λ d. find project_key id d.projects) (sym e) ∙ f, l.0)
  | inr r ↦ elim (if-ok (is_blocked id db) (err project_has_active_work) (ok switched) db' r.1) [
    | inl l ↦ cc
    | inr w ↦
        let e : switched ≡ db' = cc in
        let (y, g, how) =
          find-update_all project_key (λ x. x.is_active) (deactivated now) db.projects id q
            (λ x. refl) f in
        (
          activated now y,
          ap (λ d. find project_key id d.projects) (sym e)
              ∙ find-update project_key id always (activated now)
                  (update_all (λ x. x.is_active) (deactivated now) db.projects) y g refl refl,
          refl,
        )
  ]
]
  where
    switched : ProjectDb
    switched = with_projects db (switch_to id now db.projects)

    rest : Result ProjectDb
    rest = if is_blocked id db then err project_has_active_work else ok switched

read-found :
    (id : String) (mid db' : ProjectDb) (q p : Project)
    → find project_key id mid.projects ≡ some q
    → with_project mid (get_project id mid) ≡ ok (p, db')
    → find project_key id db'.projects ≡ some p × (q ≡ p)
unfolding get_project
read-found id mid db' q p f h =
    let k : with_project mid (or_not_found (some q)) ≡ ok (p, db') = rw f at h in
    let e : q ≡ p = cc in
    let d : mid ≡ db' = cc in (ap (λ x. find project_key id x.projects) (sym d) ∙ f ∙ ap some e, e)

-- Where at most one project is active, no active one is archived and the ids differ:
-- when `ActivateProject` returns a project, then that is the row of the id it was given, it is
-- active, and it is the only active project of the installation.
pub activate_project-only :
    (owner id : String) (now : ℕ) (db db' : ProjectDb) (p : Project)
    → IsSingle db.projects
    → activate_project owner id now db ≡ ok (p, db')
    → (find project_key id db'.projects ≡ some p)
      × (p.is_active ≡ true)
      × (active_count db'.projects ≡ 1)
unfolding activate_project
activate_project-only owner id now db db' p i h =
    let (q, o, h1) = >>=-ok (owned owner (find project_key id db.projects)) _ (p, db') h in
    let (g, h2) = >>-ok (guard (not (is_some q.archived_at)) project_archived) _ (p, db') h1 in
    let (mid, a, h3) = >>=-ok (activate_row q id now db) _ (p, db') h2 in
    let (r, f, on) =
      activate_row-found q id now db mid (owned-found owner (find project_key id db.projects) q o).0
        a in
    let (there, e) = read-found id mid db' r p f h3 in
    let active = ap (λ x. x.is_active) (sym e) ∙ on in
    let after = activate_project-Single owner id now db db' p i h in
    (there, active, omega (arith, after.single, active_count-found id db'.projects p there active))
