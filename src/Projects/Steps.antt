-- ===== src/Projects/Steps.antt =====
-- internal/store/project.go: what each call makes of the projects.
use semantic_framework.Prelude.{
  ℕ, String, Bool, true, false, not, ◌&&◌, ◌||◌, Option, none, some, ◌==◌, eqb, is_some, trim_space,
  Result, ok, err, Error, guard, >>=-ok, >>-ok, if-ok, inl, inr, guard-ok, if◌then◌else◌, ◌≡◌, refl,
  ap, subst, not-eq-true, invalid_state, constraint, ◌>>◌, invalid_argument, not_found,
  revision_conflict, project_archived, project_has_active_work, default_project_error,
}
use semantic_framework.Prelude.Table.{find, update, affected}
use semantic_framework.Projects.Rows.{
  Project, ProjectDb, project_key, get_project, development, running, has_active_work,
}
use semantic_framework.Projects.Create.{with_project, with_projects}
use semantic_framework.Projects.Active.{
  write_or, update_project_name, set_project_mode, owned, is_positive, switch_to, is_blocked,
  activate_row, activate_project, can_archive, archived, activate_replacement, replacement,
  archive_row, archive_project, always,
}
use semantic_framework.Projects.Bindings.{
  ProjectBindings, rebound, has_repeats, normalized_bindings, replace_project_bindings, touched,
}
use semantic_framework.Projects.Single.{IsSingle, rewritten-IsSingle, switch_to-IsSingle}
use semantic_framework.Projects.Archive.{archive-IsSingle}
use semantic_framework.Projects.Created.{Single, with_project-same}
use semantic_framework.Projects.Counting.{IsShown}

-- An UPDATE that leaves `is_active` and `archived_at` alone.
pub write_or-Single :
    (e : Error) (id : String) (test : Project → Bool) (change : Project → Project)
    (db db' : ProjectDb) (p : Project)
    → ((x : Project) → (change x).id ≡ x.id)
    → ((x : Project) → (change x).is_active ≡ x.is_active)
    → ((x : Project) → IsShown x → IsShown (change x))
    → Single db
    → write_or e id test change db ≡ ok (p, db')
    → Single db'
write_or-Single e id test change db db' p same active shown i h =
    let changed = with_projects db (update project_key id test change db.projects) in
    elim (if-ok (affected project_key id test db.projects)
      (with_project changed (get_project id changed)) (err e) (p, db') h) [
        | inl l ↦
            subst Single (with_project-same changed db' (get_project id changed) p l.1)
              (rewritten-IsSingle id test change db.projects same active shown i)
        | inr r ↦ cc
      ]

pub update_project_name-Single :
    (owner id name : String) (expected now : ℕ) (db db' : ProjectDb) (p : Project)
    → Single db
    → update_project_name owner id name expected now db ≡ ok (p, db')
    → Single db'
unfolding update_project_name
update_project_name-Single owner id name expected now db db' p i h =
    let (g, h1) =
      >>-ok (guard (not (trim_space name == "") && is_positive expected) invalid_argument) _
        (p, db') h in
    write_or-Single _ id _ _ db db' p (λ x. refl) (λ x. refl) (λ x s. s) i h1

pub set_project_mode-Single :
    (id mode : String) (expected now : ℕ) (db db' : ProjectDb) (p : Project)
    → Single db
    → set_project_mode id mode expected now db ≡ ok (p, db')
    → Single db'
unfolding set_project_mode
set_project_mode-Single id mode expected now db db' p i h =
    let (g, h1) =
      >>-ok (guard (mode == development || mode == running) invalid_state) _ (p, db') h in
    write_or-Single _ id _ _ db db' p (λ x. refl) (λ x. refl) (λ x s. s) i h1

pub owned-found :
    (owner : String) (o : Option Project) (p : Project)
    → owned owner o ≡ ok p
    → (o ≡ some p) × ((p.owner_id == owner) ≡ true)
owned-found owner none p h = cc
owned-found owner (some q) p h = elim (if-ok (q.owner_id == owner) (ok q) (err not_found) p h) [
  | inl l ↦ let e : q ≡ p = cc in (ap some e, subst (λ x. (x.owner_id == owner) ≡ true) e l.0)
  | inr r ↦ cc
]

pub activate_row-Single :
    (p : Project) (id : String) (now : ℕ) (db db' : ProjectDb)
    → find project_key id db.projects ≡ some p
    → is_some p.archived_at ≡ false
    → Single db
    → activate_row p id now db ≡ ok db'
    → Single db'
activate_row-Single p id now db db' f a i h = elim (if-ok p.is_active (ok db) rest db' h) [
  | inl l ↦ let e : db ≡ db' = cc in subst Single e i
  | inr r ↦ elim (if-ok (is_blocked id db) (err project_has_active_work) (ok switched) db' r.1) [
    | inl l ↦ cc
    | inr w ↦
        let e : switched ≡ db' = cc in
        subst Single e (switch_to-IsSingle id now db.projects p f a i)
  ]
]
  where
    switched : ProjectDb
    switched = with_projects db (switch_to id now db.projects)

    rest : Result ProjectDb
    rest = if is_blocked id db then err project_has_active_work else ok switched

pub activate_project-Single :
    (owner id : String) (now : ℕ) (db db' : ProjectDb) (p : Project)
    → Single db
    → activate_project owner id now db ≡ ok (p, db')
    → Single db'
unfolding activate_project
activate_project-Single owner id now db db' p i h =
    let (q, o, h1) = >>=-ok (owned owner (find project_key id db.projects)) _ (p, db') h in
    let (g, h2) = >>-ok (guard (not (is_some q.archived_at)) project_archived) _ (p, db') h1 in
    let (mid, a, h3) = >>=-ok (activate_row q id now db) _ (p, db') h2 in
    let kept =
      not-eq-true (is_some q.archived_at)
        (guard-ok (not (is_some q.archived_at)) project_archived g) in
    subst Single (with_project-same mid db' (get_project id mid) p h3) (
      activate_row-Single q id now db mid
        (owned-found owner (find project_key id db.projects) q o).0 kept i a)

pub archive_row-Single :
    (q : Project) (owner id : String) (expected now : ℕ) (db db' : ProjectDb) (p : Project)
    → find project_key id db.projects ≡ some q
    → (q.owner_id == owner) ≡ true
    → Single db
    → archive_row q owner id expected now db ≡ ok (p, db')
    → Single db'
unfolding archive_row
archive_row-Single q owner id expected now db db' p f own i h =
    let (g, h1) = >>-ok (guard (eqb q.revision expected) revision_conflict) _ (p, db') h in
    let (w, h2) =
      >>-ok (guard (not (has_active_work id db)) project_has_active_work) _ (p, db') h1 in
    let (other, r, h3) = >>=-ok (replacement q owner id db.projects) _ (p, db') h2 in
    let (a, h4) =
      >>-ok
        (guard (affected project_key id (can_archive owner expected) db.projects) revision_conflict)
        _ (p, db') h3 in
    let left = with_projects db (
      activate_replacement other now
        (update project_key id (can_archive owner expected) (archived now) db.projects)) in
    let allowed : can_archive owner expected q ≡ true =
      rw (own, guard-ok (eqb q.revision expected) revision_conflict g) refl in
    subst Single (with_project-same left db' (get_project id left) p h4)
      (archive-IsSingle owner id expected now db.projects q f allowed i other r)

pub archive_project-Single :
    (owner id : String) (expected now : ℕ) (db db' : ProjectDb) (p : Project)
    → Single db
    → archive_project owner id expected now db ≡ ok (p, db')
    → Single db'
unfolding archive_project
archive_project-Single owner id expected now db db' p i h =
    let (g, h1) = >>-ok (guard (is_positive expected) invalid_argument) _ (p, db') h in
    let (q, o, h2) = >>=-ok (owned owner (find project_key id db.projects)) _ (p, db') h1 in
    let (d, h3) = >>-ok (guard (not q.is_default) default_project_error) _ (p, db') h2 in
    let (f, own) = owned-found owner (find project_key id db.projects) q o in
    elim (if-ok (is_some q.archived_at) (ok (q, db)) (archive_row q owner id expected now db)
      (p, db') h3) [
        | inl l ↦ let e : db ≡ db' = cc in subst Single e i
        | inr r ↦ archive_row-Single q owner id expected now db db' p f own i r.1
      ]

pub replace_project_bindings-Single :
    (id : String) (bindings : ProjectBindings) (now : ℕ) (db db' : ProjectDb)
    → Single db
    → replace_project_bindings id bindings now db ≡ ok db'
    → Single db'
unfolding replace_project_bindings
replace_project_bindings-Single id bindings now db db' i h =
    let (q, f, h1) = >>=-ok (get_project id db) _ db' h in
    let touch =
      rewritten-IsSingle id always (touched now) db.projects (λ x. refl) (λ x. refl) (λ x s. s) i in
    let agents = normalized_bindings bindings.agent_ids in
    let skills = normalized_bindings bindings.skill_names in
    let written : ProjectDb = record db {
      agent_bindings = rebound id agents db.agent_bindings;
      skill_bindings = rebound id skills db.skill_bindings;
      projects = update project_key id always (touched now) db.projects;
    } in
    subst IsSingle
      (ap (λ d. d.projects)
        (inserted (guard (not (has_repeats agents)) constraint)
          (guard (not (has_repeats skills)) constraint) written db' h1))
      touch
  where
    inserted : (g k : Result (Unit {0})) (x y : ProjectDb) → (g >> (k >> ok x)) ≡ ok y → x ≡ y
    inserted (ok u) (ok v) x y e = cc
    inserted (ok u) (err b) x y e = cc
    inserted (err a) k x y e = cc
