-- ===== src/Interactions/Lists.antt =====
-- internal/store/interaction.go: the queries.
use semantic_framework.Prelude.{
  ℕ, String, Bool, true, false, ◌&&◌, ◌||◌, List, [], ◌∷◌, Option, none, some, ◌==◌, ltb, any,
  select, length, drop, take, Result, ok, err, order_by, column_order, text_lt, not_found,
}
use semantic_framework.Prelude.Table.{find}
use semantic_framework.Interactions.Rows.{Interaction, InteractionDb, interaction_key, ProjectState}
use semantic_framework.Interactions.Answer.{is_pending, in_session, is_unhandled}

abbrev or_not_found : Option Interaction → Result Interaction
or_not_found none = err not_found
or_not_found (some it) = ok it

abbrev first : List Interaction → Option Interaction
first [] = none
first (it ∷ its) = some it

unfoldable pub get_interaction : String → InteractionDb → Result Interaction
unfolding find
get_interaction id db = or_not_found (find interaction_key id db.interactions)

abbrev pub newer : Interaction → Interaction → Bool
newer a b = ltb b.created_at a.created_at

unfoldable pub get_pending_interaction_by_run_id : String → InteractionDb → Result Interaction
unfolding order_by
get_pending_interaction_by_run_id run db =
    or_not_found
      (first (order_by newer (select (λ it. it.run_id == run && is_pending it) db.interactions)))

unfoldable pub list_pending_interactions : String → InteractionDb → List Interaction
unfolding order_by
list_pending_interactions session db =
    order_by (λ (a b : Interaction). ltb a.created_at b.created_at)
      (select (in_session session) db.interactions)

-- `COALESCE(answered_at,cancelled_at)`; NULL comes first.
abbrev pub coalesce : Option ℕ → Option ℕ → Option ℕ
coalesce none o = o
coalesce (some n) o = some n

abbrev pub routed_order : Option ℕ → String → Option ℕ → String → Bool
routed_order none s none t = text_lt s t
routed_order none s (some n) t = true
routed_order (some m) s none t = false
routed_order (some m) s (some n) t = column_order m s n t

unfoldable pub list_unhandled_answered_interactions : InteractionDb → List Interaction
unfolding order_by
list_unhandled_answered_interactions db =
    order_by
      (λ (a b : Interaction).
        routed_order (coalesce a.answered_at a.cancelled_at) a.id
          (coalesce b.answered_at b.cancelled_at) b.id)
      (select is_unhandled db.interactions)

pub record InteractionFilter : Type 0 where
  pub owner_id : String
  pub project_id : String
  pub session_id : String
  pub status : String

-- A field that is the empty text does not take part.
abbrev pub matches : String → String → Bool
matches wanted value = wanted == "" || value == wanted

abbrev pub passes : InteractionFilter → List ProjectState → Interaction → Bool
passes f projects it =
    (f.owner_id == "" || any (λ p. p.owner_id == f.owner_id && p.id == it.project_id) projects)
    && matches f.project_id it.project_id
    && matches f.session_id it.session_id
    && matches f.status it.status

-- A page and the number of all rows that pass.
unfoldable pub list_interactions : InteractionFilter → ℕ → ℕ → InteractionDb → List Interaction × ℕ
unfolding order_by
list_interactions f limit offset db =
    let rows = select (passes f db.projects) db.interactions in
    (
      take limit (
          drop offset (
            order_by (λ (a b : Interaction). column_order b.created_at b.id a.created_at a.id)
              rows)),
      length rows,
    )
