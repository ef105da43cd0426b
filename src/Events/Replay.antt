-- ===== src/Events/Replay.antt =====
-- Reading a Project's events back: internal/store/events.go after any sequence of inserts.
use semantic_framework.Prelude.{
  ℕ, zero, suc, ◌+◌, ◌<◌, String, Bool, true, false, not, ◌&&◌, List, [], ◌∷◌, ◌++◌, ◌==◌, ltb,
  select, select-same, select-select, Result, ok, err, if◌then◌else◌, ◌≡◌, refl, ap, sym, ◌∙◌,
  arith, length, All, event_gap, order_by, order_by-cons, limited, drop, subst, append_nil,
  append_assoc, select-append, length-append, drop-append, drop-eq-nil,
}
use semantic_framework.Events.Log.{
  Event, EventDb, sequence_order, channel_trace, insert_project_event, list_project_events_after,
  latest_project_event_sequence,
}
use semantic_framework.Events.Numbered.{
  replayable, Counts, IsNumbered, insert_project_event-IsNumbered, insert_project_event-stores,
}

-- The log after some inserts, one by one; an insert that is refused is skipped.
abbrev pub stored : Result (Event × EventDb) → EventDb → EventDb
stored (ok (ev, db')) db = db'
stored (err e) db = db

unfoldable pub record_all : List Event → EventDb → EventDb
unfolding insert_project_event
record_all [] db = db
record_all (ev ∷ evs) db = record_all evs (stored (insert_project_event ev db) db)

-- Whatever events are inserted, of whatever Projects, channels and Conversations and in whatever
-- order, as long as the log chooses their numbers: if the events of a Project were numbered
-- 1, 2, 3, … without a gap, then they still are, and its counter is the next number.
pub record_all-IsNumbered :
    (p : String) (evs : List Event) (db : EventDb)
    → (p == "") ≡ false
    → All (λ ev. ev.sequence ≡ 0) evs
    → IsNumbered p db
    → IsNumbered p (record_all evs db)
unfolding record_all
record_all-IsNumbered p [] db real fresh n = n
record_all-IsNumbered p (ev ∷ evs) db real fresh n =
    record_all-IsNumbered p evs (stored (insert_project_event ev db) db) real fresh.1
      (go (insert_project_event ev db) refl)
  where
    go :
        (r : Result (Event × EventDb)) → insert_project_event ev db ≡ r → IsNumbered p (stored r db)
    go (ok (ev', db')) e = insert_project_event-IsNumbered p ev db ev' db' real fresh.0 n e
    go (err x) e = n

order_by-Counts : (n : ℕ) (es : List Event) → Counts n es → order_by sequence_order es ≡ es
unfolding order_by
order_by-Counts n [] c = refl
order_by-Counts n (d ∷ []) c = refl
order_by-Counts n (d ∷ e ∷ es) c =
    order_by-cons sequence_order d e es (ground arith) (order_by-Counts (suc n) (e ∷ es) c.1)

pub drop-Counts : (k n : ℕ) (es : List Event) → Counts n es → Counts (n + k) (drop k es)
drop-Counts zero n es c = subst (λ m. Counts m es) (omega arith) c
drop-Counts (suc k) n [] c = tt
drop-Counts (suc k) n (e ∷ es) c =
    subst (λ m. Counts m (drop k es)) (omega arith) (drop-Counts k (suc n) es c.1)

-- The rows with a number above `n` are those that are left when the others are dropped.
all_after :
    (n m : ℕ) (es : List Event) → n < m → Counts m es → select (λ e. ltb n e.sequence) es ≡ es
all_after n m [] h c = refl
all_after n m (e ∷ es) h c =
    let later : ltb n e.sequence ≡ true = ground arith in
    rw later (ap (λ t. e ∷ t) (all_after n (suc m) es (omega arith) c.1))

some_after :
    (k n m : ℕ) (es : List Event)
    → m + k ≡ suc n
    → Counts m es
    → select (λ e. ltb n e.sequence) es ≡ drop k es
some_after zero n m es h c = all_after n m es (omega arith) c
some_after (suc k) n m [] h c = refl
some_after (suc k) n m (e ∷ es) h c =
    let earlier : ltb n e.sequence ≡ false = ground arith in
    rw earlier (some_after k n (suc m) es (omega arith) c.1)

module _ (p : String) (db : EventDb) (n : IsNumbered p db) where
  -- The query of the replay in terms of the Project's events.
  after-drop :
      (after : ℕ)
      → order_by sequence_order (
          select
            (λ e. e.project_id == p && ltb after e.sequence && not (e.channel == channel_trace))
            db.events)
        ≡ drop after (replayable p db.events)
  after-drop after =
      let rows : select
            (λ e. e.project_id == p && ltb after e.sequence && not (e.channel == channel_trace))
            db.events
          ≡ drop after (replayable p db.events) =
        select-same _ _ db.events (λ e. swap (e.project_id == p) (ltb after e.sequence) _)
        ∙ sym (
            select-select (λ e. e.project_id == p && not (e.channel == channel_trace))
              (λ e. ltb after e.sequence) db.events)
        ∙ some_after after after 1 (replayable p db.events) (omega arith) n.consecutive in
      ap (order_by sequence_order) rows
      ∙ order_by-Counts (1 + after) (drop after (replayable p db.events))
          (drop-Counts after 1 (replayable p db.events) n.consecutive)
    where
      swap : (a b c : Bool) → (a && b && c) ≡ ((a && c) && b)
      swap a b c = ground arith

  -- In a numbered log the query with its gap check, its selection, its order and its limit is a
  -- plain cut of the list of the Project's replayable events in order of insertion: the first
  -- `after` of them are left out, and the gap error comes exactly when there are fewer.
  pub list_project_events_after-drop :
      (after limit : ℕ)
      → list_project_events_after p after limit db ≡ (
          if ltb (length (replayable p db.events)) after
          then err event_gap
          else ok (limited limit (drop after (replayable p db.events))))
  unfolding list_project_events_after
  list_project_events_after-drop after limit = rw (n.latest, after-drop after)

record_all-grows :
    (evs : List Event) (db : EventDb)
    → (more : List Event) × ((record_all evs db).events ≡ db.events ++ more)
unfolding record_all
record_all-grows [] db = ([], sym (append_nil db.events))
record_all-grows (ev ∷ evs) db =
    let (first, e) = go (insert_project_event ev db) refl in
    let (more, f) = record_all-grows evs (stored (insert_project_event ev db) db) in
    (first ++ more, f ∙ ap (λ xs. xs ++ more) e ∙ append_assoc db.events first more)
  where
    go :
        (r : Result (Event × EventDb))
        → insert_project_event ev db ≡ r
        → (first : List Event) × ((stored r db).events ≡ db.events ++ first)
    go (ok (ev', db')) e =
        let (same, new) = insert_project_event-stores ev db ev' db' e in (ev' ∷ [], new)
    go (err x) e = ([], sym (append_nil db.events))

-- A client that has read a snapshot at the Project's latest number, and asks for what follows it
-- after any further inserts, gets exactly the replayable events that were stored since, each once
-- and in the order in which they were stored: nothing is missed and there is no gap error.
pub resume_complete :
    (p : String) (evs : List Event) (db : EventDb)
    → (p == "") ≡ false
    → All (λ ev. ev.sequence ≡ 0) evs
    → IsNumbered p db
    → (more : List Event) × ((record_all evs db).events ≡ db.events ++ more)
      × (list_project_events_after p (latest_project_event_sequence p db) 0 (record_all evs db)
          ≡ ok (replayable p more))
unfolding latest_project_event_sequence
resume_complete p evs db real fresh n =
    let (more, grown) = record_all-grows evs db in
    let rows : replayable p (record_all evs db).events
        ≡ replayable p db.events ++ replayable p more =
      ap (replayable p) grown ∙ select-append _ db.events more in
    let read =
      list_project_events_after-drop p (record_all evs db)
        (record_all-IsNumbered p evs db real fresh n) (length (replayable p db.events)) 0 in
    let reached : ltb (length (replayable p db.events ++ replayable p more))
          (length (replayable p db.events))
        ≡ false =
      ground (arith, length-append (replayable p db.events) (replayable p more)) in
    let rest : drop (length (replayable p db.events)) (replayable p db.events ++ replayable p more)
        ≡ replayable p more =
      drop-append _ (replayable p db.events) (replayable p more) (omega arith)
      ∙ ap (λ xs. xs ++ replayable p more) (drop-eq-nil _ (replayable p db.events) (omega arith)) in
    (more, grown, rw n.latest (read ∙ rw (rows, reached, rest)))
