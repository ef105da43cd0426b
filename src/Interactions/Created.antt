-- ===== src/Interactions/Created.antt =====
-- What internal/store/interaction.go has checked when `CreateInteraction` succeeds.
use semantic_framework.Prelude.{
  >>-ok, Bool, true, false, [], ◌∷◌, ◌++◌, Option, none, some, is_some, Result, ok, err, ◌≡◌, refl,
  ap, sym, constraint, ◌>>=◌, if◌then◌else◌,
}
use semantic_framework.Prelude.Table.{find}
use semantic_framework.Interactions.Rows.{Interaction, ChatSession, InteractionDb, interaction_key}
use semantic_framework.Interactions.Create.{
  place_in, holds, check_project, check_run, check_workflow, check_task, check_session, check_map,
  insert_interaction, create_checked, create_interaction, fresh_row,
}

pub holds-found :
    {A : Type 0} (o : Option A) (test : A → Bool)
    → holds o test ≡ true
    → (a : A) × (o ≡ some a) × (test a ≡ true)
holds-found none test h = cc
holds-found (some a) test h = (a, refl, h)

-- The checks of a question that is placed in its Conversation.
pub record IsChecked (it : Interaction) (session : ChatSession) (implicit : Bool)
    (db : InteractionDb) : Type 0 where
  pub project : check_project it session implicit db ≡ ok tt
  pub run : check_run it implicit db ≡ ok tt
  pub workflow : check_workflow it db ≡ ok tt
  pub task : check_task it db ≡ ok tt
  pub session_revision : check_session it session ≡ ok tt
  pub map : check_map it db ≡ ok tt

create_checked-ok :
    (it : Interaction) (session : ChatSession) (implicit : Bool) (db db' : InteractionDb)
    → create_checked it session implicit db ≡ ok db'
    → IsChecked it session implicit db × (insert_interaction it db ≡ ok db')
create_checked-ok it session implicit db db' h =
    let (p, h1) = >>-ok (check_project it session implicit db) _ db' h in
    let (r, h2) = >>-ok (check_run it implicit db) _ db' h1 in
    let (w, h3) = >>-ok (check_workflow it db) _ db' h2 in
    let (t, h4) = >>-ok (check_task it db) _ db' h3 in
    let (s, h5) = >>-ok (check_session it session) _ db' h4 in
    let (m, h6) = >>-ok (check_map it db) _ db' h5 in
    (record { project = p; run = r; workflow = w; task = t; session_revision = s; map = m }, h6)

pub create_interaction-ok :
    (it : Interaction) (db db' : InteractionDb)
    → create_interaction it db ≡ ok db'
    → (placed : Interaction) × (session : ChatSession) × (implicit : Bool) × (place_in
          (find (λ s. s.id) it.session_id db.chat_sessions)
          it
        ≡ ok (placed, session, implicit))
      × IsChecked placed session implicit db
      × (insert_interaction placed db ≡ ok db')
unfolding create_interaction
create_interaction-ok it db db' h =
    go (place_in (find (λ s. s.id) it.session_id db.chat_sessions) it) refl h
  where
    go :
        (r : Result (Interaction × ChatSession × Bool))
        → place_in (find (λ s. s.id) it.session_id db.chat_sessions) it ≡ r
        → (r >>= λ p. create_checked p.0 p.1 p.2 db) ≡ ok db'
        → (placed : Interaction) × (session : ChatSession) × (implicit : Bool) × (place_in
              (find (λ s. s.id) it.session_id db.chat_sessions)
              it
            ≡ ok (placed, session, implicit))
          × IsChecked placed session implicit db
          × (insert_interaction placed db ≡ ok db')
    go (ok (placed, session, implicit)) e k =
        let (checked, stored) = create_checked-ok placed session implicit db db' k in
        (placed, session, implicit, e, checked, stored)
    go (err x) e k = cc

pub insert_interaction-row :
    (it : Interaction) (db db' : InteractionDb)
    → insert_interaction it db ≡ ok db'
    → db'.interactions ≡ db.interactions ++ fresh_row it ∷ []
insert_interaction-row it db db' h = go (is_some (find interaction_key it.id db.interactions)) h
  where
    grown : InteractionDb
    grown = record db { interactions = db.interactions ++ fresh_row it ∷ [] }

    go :
        (b : Bool)
        → if◌then◌else◌ {A = Result InteractionDb} b (err constraint) (ok grown) ≡ ok db'
        → db'.interactions ≡ db.interactions ++ fresh_row it ∷ []
    go true e = cc
    go false e = let same : grown ≡ db' = cc in ap (λ d. d.interactions) (sym same)
