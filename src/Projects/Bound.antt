-- ===== src/Projects/Bound.antt =====
-- internal/store/project.go: the bindings that are read after they were replaced.
use semantic_framework.Prelude.{
  ℕ, String, not, List, [], ◌∷◌, ◌++◌, map, some, ◌==◌, text_lt, text_lt-asymmetric, select,
  select-append, order_by, order_by-IsOrdered, order_by-same, ok, ◌≡◌, refl, ap, ◌∙◌, eq_iff,
  Bool-cases, inl, inr,
}
use semantic_framework.Prelude.Table.{find, update, find-update}
use semantic_framework.Projects.Rows.{Project, Binding, ProjectDb, project_key, get_project}
use semantic_framework.Projects.Active.{always}
use semantic_framework.Projects.Bindings.{
  ProjectBindings, normalized_bindings, collected, bound_to, rebound, touched,
  replace_project_bindings, bindings_of, get_project_bindings,
}
use semantic_framework.Projects.Normal.{
  IsNormal, normalized_bindings-IsNormal, normalized-has_repeats,
}

select-others :
    (id : String) (rows : List Binding)
    → select (λ b. b.project_id == id) (select (λ b. not (b.project_id == id)) rows) ≡ []
select-others id [] = refl
select-others id (b ∷ rows) = elim (Bool-cases (b.project_id == id)) [
  | inl e ↦ rw e (select-others id rows)
  | inr e ↦ rw (e, e) (select-others id rows)
]

select-bound_to :
    (id : String) (values : List String)
    → select (λ b. b.project_id == id) (bound_to id values) ≡ bound_to id values
select-bound_to id [] = refl
select-bound_to id (v ∷ vs) =
    rw ((eq_iff id id).1 refl)
      (ap (λ bs. record { project_id = id; value = v } ∷ bs) (select-bound_to id vs))

values-bound_to :
    (id : String) (values : List String) → map (λ b. b.value) (bound_to id values) ≡ values
values-bound_to id [] = refl
values-bound_to id (v ∷ vs) = ap (λ ws. v ∷ ws) (values-bound_to id vs)

normalized-ordered :
    (values : List String)
    → order_by text_lt (normalized_bindings values) ≡ normalized_bindings values
unfolding normalized_bindings
normalized-ordered values =
    order_by-same text_lt (order_by text_lt (collected values))
      (order_by-IsOrdered text_lt text_lt-asymmetric (collected values))

bindings_of-rebound :
    (id : String) (values : List String) (rows : List Binding)
    → bindings_of id (rebound id (normalized_bindings values) rows) ≡ normalized_bindings values
bindings_of-rebound id values rows =
    ap (λ bs. order_by text_lt (map (λ b. b.value) bs)) found
    ∙ ap (order_by text_lt) (values-bound_to id (normalized_bindings values))
    ∙ normalized-ordered values
  where
    found :
        select (λ b. b.project_id == id) (rebound id (normalized_bindings values) rows)
        ≡ bound_to id (normalized_bindings values)
    found =
        select-append (λ b. b.project_id == id) (select (λ b. not (b.project_id == id)) rows)
          (bound_to id (normalized_bindings values))
        ∙ ap
            (λ bs.
              bs ++ select (λ b. b.project_id == id) (bound_to id (normalized_bindings values)))
            (select-others id rows)
        ∙ select-bound_to id (normalized_bindings values)

-- The bindings of a project that is there can always be replaced, the primary keys of both tables are
-- kept, and reading them then gives two lists in order, in each of which every text stands once that
-- is no blank and that one of the new values is when it is trimmed, and nothing else stands.
pub get_project_bindings-replace_project_bindings :
    (id : String) (bindings : ProjectBindings) (now : ℕ) (db : ProjectDb) (p : Project)
    → find project_key id db.projects ≡ some p
    → (db' : ProjectDb) × ((bs : ProjectBindings) × (replace_project_bindings id bindings now db
          ≡ ok db')
        × (get_project_bindings id db' ≡ ok bs)
        × IsNormal bindings.agent_ids bs.agent_ids
        × IsNormal bindings.skill_names bs.skill_names)
unfolding replace_project_bindings get_project_bindings get_project
get_project_bindings-replace_project_bindings id bindings now db p found =
    let written : ProjectDb = record db {
      agent_bindings = rebound id (normalized_bindings bindings.agent_ids) db.agent_bindings;
      skill_bindings = rebound id (normalized_bindings bindings.skill_names) db.skill_bindings;
      projects = update project_key id always (touched now) db.projects;
    } in
    let there : find project_key id written.projects ≡ some (touched now p) =
      find-update project_key id always (touched now) db.projects p found refl refl in
    (
      written,
      (
        record {
          agent_ids = normalized_bindings bindings.agent_ids;
          skill_names = normalized_bindings bindings.skill_names;
        },
        rw
            (
              found,
              normalized-has_repeats bindings.agent_ids,
              normalized-has_repeats bindings.skill_names,
            )
            refl,
        rw
            (
              there,
              bindings_of-rebound id bindings.agent_ids db.agent_bindings,
              bindings_of-rebound id bindings.skill_names db.skill_bindings,
            )
            refl,
        normalized_bindings-IsNormal bindings.agent_ids,
        normalized_bindings-IsNormal bindings.skill_names,
      ),
    )
