-- ===== src/Projects/Created.antt =====
-- internal/store/project.go: a created project does not become the second active one.
use semantic_framework.Prelude.{
  ℕ, String, Bool, true, false, not, ◌&&◌, List, [], ◌∷◌, ◌++◌, Option, none, some, ◌==◌, is_some,
  any, trim_space, Result, ok, err, guard, ◌>>=◌, >>=-ok, >>-ok, if-ok, inl, inr, ◌||◌, guard-ok,
  if◌then◌else◌, ◌≡◌, refl, ap, sym, ◌∙◌, subst, not-eq-true, invalid_argument, constraint,
}
use semantic_framework.Prelude.Table.{find}
use semantic_framework.Projects.Rows.{
  Project, ProjectDb, project_key, get_project, default_project_id,
}
use semantic_framework.Projects.Create.{
  insert_map, with_map, default_project, has_map, has_generation, ensure_semantic_maps,
  with_project, with_projects, insert_default, ensure_default_project,
  create_project_with_runtime_preference, new_project, activate_if_none,
}
use semantic_framework.Projects.Single.{IsSingle, activate_if_none-IsSingle, append-IsSingle}

abbrev pub Single : ProjectDb → Type 0
Single db = IsSingle db.projects

pub with_project-same :
    (db db' : ProjectDb) (r : Result Project) (p : Project)
    → with_project db r ≡ ok (p, db')
    → db ≡ db'
with_project-same db db' (err e) p h = cc
with_project-same db db' (ok q) p h = cc

-- The maps are in other tables.
insert_map-projects :
    (id project slot : String) (now : ℕ) (db db' : ProjectDb)
    → insert_map id project slot now db ≡ ok db'
    → db'.projects ≡ db.projects
insert_map-projects id project slot now db db' h =
    elim (if-ok (has_map id project slot db) (ok db) rest db' h) [
      | inl l ↦ let e : db ≡ db' = cc in sym (ap (λ d. d.projects) e)
      | inr r ↦
          elim (if-ok (has_generation id db) (err constraint) (ok (with_map id project slot now db))
            db' r.1) [
              | inl l ↦ cc
              | inr w ↦
                  let e : with_map id project slot now db ≡ db' = cc in sym (ap (λ d. d.projects) e)
            ]
    ]
  where
    rest : Result ProjectDb
    rest = if has_generation id db then err constraint else ok (with_map id project slot now db)

ensure_semantic_maps-projects :
    (first_id second_id project : String) (now : ℕ) (db db' : ProjectDb)
    → ensure_semantic_maps first_id second_id project now db ≡ ok db'
    → db'.projects ≡ db.projects
unfolding ensure_semantic_maps
ensure_semantic_maps-projects first_id second_id project now db db' h =
    let (mid, a, b) = >>=-ok (insert_map first_id project "simulation_map" now db) _ db' h in
    insert_map-projects second_id project "real_map" now mid db' b
    ∙ insert_map-projects first_id project "simulation_map" now db mid a

same-Single :
    (db : ProjectDb) (rows : List Project) → db.projects ≡ rows → IsSingle rows → Single db
same-Single db rows e i = subst IsSingle (sym e) i

-- The end of a creation: the maps, and the project that is read.
finished-Single :
    (first_id second_id id : String) (now : ℕ) (db : ProjectDb) (rows : List Project) (p : Project)
    (after : ProjectDb)
    → (ensure_semantic_maps first_id second_id id now (with_projects db rows) >>= λ db'.
        with_project db' (get_project id db'))
      ≡ ok (p, after)
    → IsSingle rows
    → Single after
finished-Single first_id second_id id now db rows p after h i =
    let (mid, a, b) =
      >>=-ok (ensure_semantic_maps first_id second_id id now (with_projects db rows)) _ (p, after)
        h in
    let e = with_project-same mid after (get_project id mid) p b in
    subst Single e (
      same-Single mid rows
        (ensure_semantic_maps-projects first_id second_id id now (with_projects db rows) mid a) i)

none_there : (o : Option Project) → is_some o ≡ false → o ≡ none
none_there none h = refl
none_there (some p) h = cc

module _ (workspace : String → String) where
  insert_default-IsSingle :
      (id owner : String) (now : ℕ) (rows : List Project)
      → IsSingle rows
      → IsSingle (insert_default workspace id owner now rows)
  insert_default-IsSingle id owner now rows i =
      go (is_some (find project_key id rows)) refl
        (any (λ p. p.owner_id == owner && p.is_default) rows)
    where
      go :
          (a : Bool)
          → is_some (find project_key id rows) ≡ a
          → (b : Bool)
          → IsSingle (if a || b then rows else rows ++ default_project workspace id owner now ∷ [])
      go true e b = i
      go false e true = i
      go false e false =
          append-IsSingle (default_project workspace id owner now) rows refl
            (none_there (find project_key id rows) e) i

  pub ensure_default_project-Single :
      (first_id second_id owner : String) (now : ℕ) (db db' : ProjectDb) (p : Project)
      → Single db
      → ensure_default_project workspace first_id second_id owner now db ≡ ok (p, db')
      → Single db'
  unfolding ensure_default_project
  ensure_default_project-Single first_id second_id owner now db db' p i h =
      finished-Single first_id second_id (default_project_id owner) now db _ p db' h
        (go (owner == ""))
    where
      inserted : List Project
      inserted = insert_default workspace (default_project_id owner) owner now db.projects

      go :
          (b : Bool)
          → IsSingle
              (if b then inserted else activate_if_none (default_project_id owner) now inserted)
      go true = insert_default-IsSingle (default_project_id owner) owner now db.projects i
      go false =
          activate_if_none-IsSingle (default_project_id owner) now inserted
            (insert_default-IsSingle (default_project_id owner) owner now db.projects i)

  pub create_project-Single :
      (id first_id second_id owner name profile installation : String) (now : ℕ)
      (db db' : ProjectDb) (p : Project)
      → Single db
      → create_project_with_runtime_preference workspace id first_id second_id owner name profile
          installation now db
        ≡ ok (p, db')
      → Single db'
  unfolding create_project_with_runtime_preference
  create_project-Single id first_id second_id owner name profile installation now db db' p i h =
      let row =
        new_project workspace id owner (trim_space name) (trim_space profile)
          (trim_space installation) now in
      let (g, h1) =
        >>-ok (guard (not (owner == "") && not (row.name == "")) invalid_argument) _ (p, db') h in
      let (k, h2) =
        >>-ok (guard (not (is_some (find project_key id db.projects))) constraint) _ (p, db') h1 in
      let fresh = none_there (find project_key id db.projects) (
        not-eq-true (is_some (find project_key id db.projects))
          (guard-ok (not (is_some (find project_key id db.projects))) constraint k)) in
      finished-Single first_id second_id id now db _ p db' h2 (
        activate_if_none-IsSingle id now (db.projects ++ row ∷ [])
          (append-IsSingle row db.projects refl fresh i))
