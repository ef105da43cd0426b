-- ===== src/Events/Numbered.antt =====
-- The numbers that internal/store/events.go gives to the events of one Project.
use semantic_framework.Prelude.{
  ℕ, suc, ◌+◌, ◌<◌, String, Bool, true, false, not, ◌&&◌, List, [], ◌∷◌, ◌++◌, Option, none, some,
  ◌==◌, ltb, select, Result, ok, err, if◌then◌else◌, ◌≡◌, refl, ap, sym, ◌∙◌, arith, length,
  length-append, select-append, append_nil, eq_iff, constraint, subst,
}
use semantic_framework.Prelude.Table.{
  find, update, find-update, find-update_other, find-append_new, find-append_other,
}
use semantic_framework.Events.Log.{
  Event, EventDb, ProjectSequence, sequence_key, channel_trace, is_numbered, allot, assign_sequence,
  resolve_project, insert_event_row, insert_project_event, max_sequence, is_refused,
}

-- The events of a Project that a client can read back, in the order in which they were stored.
abbrev pub replayable : String → List Event → List Event
replayable p events = select (λ e. e.project_id == p && not (e.channel == channel_trace)) events

abbrev pub next_of : Option ProjectSequence → ℕ
next_of none = 1
next_of (some row) = row.next_sequence

abbrev pub counter : String → EventDb → ℕ
counter p db = next_of (find sequence_key p db.project_event_sequences)

-- The numbers of the list go up by one from `n`.
abbrev pub Counts : ℕ → List Event → Type 0
Counts n [] = Unit
Counts n (e ∷ es) = (e.sequence ≡ n) × Counts (suc n) es

-- The replayable events of the Project are numbered 1, 2, 3, …; the counter is the next number,
-- and no other event of the Project has a larger one.
pub record IsNumbered (p : String) (db : EventDb) : Type 0 where
  pub consecutive : Counts 1 (replayable p db.events)
  pub counted : counter p db ≡ suc (length (replayable p db.events))
  pub latest : max_sequence p db.events ≡ length (replayable p db.events)

Counts-append :
    (n : ℕ) (es : List Event) (e : Event)
    → Counts n es
    → e.sequence ≡ n + length es
    → Counts n (es ++ e ∷ [])
Counts-append n [] e c h = (omega (arith, h), tt)
Counts-append n (d ∷ es) e c h = (c.0, Counts-append (suc n) es e c.1 (omega (arith, h)))

max-append_same :
    (p : String) (es : List Event) (e : Event)
    → (e.project_id == p && ltb 0 e.sequence) ≡ false
    → max_sequence p (es ++ e ∷ []) ≡ max_sequence p es
max-append_same p [] e h = rw h
max-append_same p (d ∷ es) e h = rw (max-append_same p es e h)

max-append_larger :
    (p : String) (es : List Event) (e : Event)
    → (e.project_id == p) ≡ true
    → max_sequence p es < e.sequence
    → max_sequence p (es ++ e ∷ []) ≡ e.sequence
max-append_larger p [] e m h = ground arith
max-append_larger p (d ∷ es) e m h = ground (arith, max-append_larger p es e m)

-- The database with the event's row.
abbrev pub pushed : Event × EventDb → EventDb
pushed (e, db) = record db { events = db.events ++ e ∷ [] }

module _ (p : String) (e : Event) (d : EventDb) where
  -- An event of another Project, or one without a number, leaves the numbering as it is.
  other-IsNumbered :
      (e.project_id == p && not (e.channel == channel_trace)) ≡ false
      → (e.project_id == p && ltb 0 e.sequence) ≡ false
      → IsNumbered p d
      → IsNumbered p (pushed (e, d))
  other-IsNumbered h m n =
      let alone : select (λ x. x.project_id == p && not (x.channel == channel_trace)) (e ∷ [])
          ≡ [] =
        rw h in
      let same : replayable p (d.events ++ e ∷ []) ≡ replayable p d.events =
        select-append _ d.events (e ∷ [])
        ∙ ap (λ t. replayable p d.events ++ t) alone
        ∙ append_nil (replayable p d.events) in
      record {
        consecutive = rw same n.consecutive;
        counted = rw same n.counted;
        latest = rw (same, max-append_same p d.events e m) n.latest;
      }

  -- An event that takes the next number goes to the end of the numbered ones.
  taken-IsNumbered :
      (db : EventDb)
      → IsNumbered p db
      → d.events ≡ db.events
      → (e.project_id == p) ≡ true
      → (e.channel == channel_trace) ≡ false
      → e.sequence ≡ counter p db
      → counter p d ≡ suc (counter p db)
      → IsNumbered p (pushed (e, d))
  taken-IsNumbered db n events mine shown number next =
      let alone : select (λ x. x.project_id == p && not (x.channel == channel_trace)) (e ∷ [])
          ≡ e ∷ [] =
        rw (mine, shown) in
      let grown : replayable p (d.events ++ e ∷ []) ≡ replayable p db.events ++ e ∷ [] =
        select-append _ d.events (e ∷ [])
        ∙ ap (λ t. replayable p d.events ++ t) alone
        ∙ ap (λ t. replayable p t ++ e ∷ []) events in
      let at : e.sequence ≡ suc (length (replayable p db.events)) = number ∙ n.counted in
      let size : length (replayable p db.events ++ e ∷ []) ≡ suc (length (replayable p db.events)) =
        omega (arith, length-append (replayable p db.events) (e ∷ [])) in
      let below : max_sequence p d.events < e.sequence = rw events (omega (arith, n.latest, at)) in
      record {
        consecutive =
            rw grown (Counts-append 1 (replayable p db.events) e n.consecutive (omega (arith, at)));
        counted = rw (grown, size) (next ∙ ap suc n.counted);
        latest = rw (grown, size) (max-append_larger p d.events e mine below ∙ at);
      }

module _ (p : String) (ev : Event) (db : EventDb) where
  -- Taking the next number of the event's Project.
  allot-IsNumbered :
      (o : Option ProjectSequence)
      → find sequence_key ev.project_id db.project_event_sequences ≡ o
      → (ev.channel == channel_trace) ≡ false
      → IsNumbered p db
      → IsNumbered p (pushed (allot o ev db))
  allot-IsNumbered o found shown n = go (ev.project_id == p) refl o found
    where
      next :
          (row : ProjectSequence)
          → find sequence_key p db.project_event_sequences ≡ some row
          → row.next_sequence + 1 ≡ suc (counter p db)
      next row f = rw f (omega arith)

      go :
          (b : Bool)
          → (ev.project_id == p) ≡ b
          → (o : Option ProjectSequence)
          → find sequence_key ev.project_id db.project_event_sequences ≡ o
          → IsNumbered p (pushed (allot o ev db))
      go true mine none f =
          let q : ev.project_id ≡ p = (eq_iff ev.project_id p).0 mine in
          let f' : find sequence_key p db.project_event_sequences ≡ none = rw (← q) f in
          let first : find sequence_key p (
                db.project_event_sequences
                ++ record { project_id = ev.project_id; next_sequence = 2 } ∷ [])
              ≡ some (record { project_id = ev.project_id; next_sequence = 2 }) =
            find-append_new sequence_key p db.project_event_sequences _ f' mine in
          taken-IsNumbered p _ _ db n refl mine shown (rw f') (rw (first, f'))
      go true mine (some row) f =
          let q : ev.project_id ≡ p = (eq_iff ev.project_id p).0 mine in
          let f' : find sequence_key p db.project_event_sequences ≡ some row = rw (← q) f in
          taken-IsNumbered p _ _ db n refl mine shown (rw f') (
            ap
              (λ k. next_of (
                find sequence_key p (
                  update sequence_key k (λ r. true)
                    (λ r. record r { next_sequence = row.next_sequence + 1 })
                    db.project_event_sequences)))
              q
            ∙ ap next_of
                (find-update sequence_key p _ _ db.project_event_sequences row f' refl refl)
            ∙ next row f')
      go false other none f = other-IsNumbered p _ _ (rw other) (rw other) (record {
        consecutive = n.consecutive;
        counted =
            ap next_of (find-append_other sequence_key p db.project_event_sequences _ other)
            ∙ n.counted;
        latest = n.latest;
      })
      go false other (some row) f = other-IsNumbered p _ _ (rw other) (rw other) (record {
        consecutive = n.consecutive;
        counted =
            ap next_of (
              find-update_other sequence_key ev.project_id p _ db.project_event_sequences other
                (λ r. refl))
            ∙ n.counted;
        latest = n.latest;
      })

-- Numbering an event that has none, or leaving it alone.
assign-IsNumbered :
    (p : String) (ev : Event) (db : EventDb)
    → (p == "") ≡ false
    → ev.sequence ≡ 0
    → IsNumbered p db
    → IsNumbered p (pushed (assign_sequence ev db))
unfolding assign_sequence
assign-IsNumbered p ev db real fresh n = go (is_numbered ev) refl
  where
    plain :
        (b c : Bool)
        → (ev.project_id == p) ≡ b
        → (ev.channel == channel_trace) ≡ c
        → is_numbered ev ≡ false
        → (b && not c) ≡ false
    plain false c mine shown h = refl
    plain true true mine shown h = refl
    plain true false mine shown h =
        let q : ev.project_id ≡ p = (eq_iff ev.project_id p).0 mine in
        let t : is_numbered ev ≡ true = rw (q, real, fresh, shown) refl in cc

    numbered : (c : Bool) → (ev.channel == channel_trace) ≡ c → is_numbered ev ≡ true → c ≡ false
    numbered false shown h = refl
    numbered true shown h = ground arith

    go :
        (b : Bool)
        → is_numbered ev ≡ b
        → IsNumbered p (
            pushed (
              if b
              then allot (find sequence_key ev.project_id db.project_event_sequences) ev db
              else (ev, db)))
    go true h =
        allot-IsNumbered p ev db (find sequence_key ev.project_id db.project_event_sequences) refl
          (numbered (ev.channel == channel_trace) refl h) n
    go false h =
        other-IsNumbered p ev db
          (plain (ev.project_id == p) (ev.channel == channel_trace) refl refl h)
          (rw fresh (ground arith)) n

-- Storing an event whose number the log chooses keeps every Project numbered. A refused event
-- leaves no trace, since the counter is moved in the same transaction.
pub insert_project_event-IsNumbered :
    (p : String) (ev : Event) (db : EventDb) (ev' : Event) (db' : EventDb)
    → (p == "") ≡ false
    → ev.sequence ≡ 0
    → IsNumbered p db
    → insert_project_event ev db ≡ ok (ev', db')
    → IsNumbered p db'
unfolding insert_project_event resolve_project
insert_project_event-IsNumbered p ev db ev' db' real fresh n h =
    row_stored (assign_sequence (resolve_project ev db) db) h
      (assign-IsNumbered p (resolve_project ev db) db real (unnumbered _ refl) n)
  where
    unnumbered :
        (b : Bool)
        → (ev.project_id == "" && not (ev.session_id == "")) ≡ b
        → (resolve_project ev db).sequence ≡ 0
    unnumbered true e = rw e fresh
    unnumbered false e = rw e fresh

    row_stored :
        (ed : Event × EventDb)
        → insert_event_row ed ≡ ok (ev', db')
        → IsNumbered p (pushed ed)
        → IsNumbered p db'
    row_stored (e, d) h n = go (is_refused e d.events) h
      where
        go :
            (b : Bool)
            → if◌then◌else◌ {A = Result (Event × EventDb)} b
                (err constraint)
                (ok (e, pushed (e, d)))
              ≡ ok (ev', db')
            → IsNumbered p db'
        go true h = cc
        go false h = let same : pushed (e, d) ≡ db' = cc in subst (IsNumbered p) same n

assign_sequence-events : (ev : Event) (db : EventDb) → (assign_sequence ev db).1.events ≡ db.events
unfolding assign_sequence
assign_sequence-events ev db =
    go (is_numbered ev) (find sequence_key ev.project_id db.project_event_sequences)
  where
    go :
        (b : Bool) (o : Option ProjectSequence)
        → (if b then allot o ev db else (ev, db)).1.events ≡ db.events
    go false o = refl
    go true none = refl
    go true (some row) = refl

-- A successful insert adds one row at the end, the one that it returns.
pub insert_project_event-stores :
    (ev : Event) (db : EventDb) (ev' : Event) (db' : EventDb)
    → insert_project_event ev db ≡ ok (ev', db')
    → (ev' ≡ (assign_sequence (resolve_project ev db) db).0) × (db'.events ≡ db.events ++ ev' ∷ [])
unfolding insert_project_event
insert_project_event-stores ev db ev' db' h =
    let ev0 = resolve_project ev db in
    let (same, rows) = go (assign_sequence ev0 db) h in
    (same, rows ∙ ap (λ xs. xs ++ ev' ∷ []) (assign_sequence-events ev0 db))
  where
    go :
        (ed : Event × EventDb)
        → insert_event_row ed ≡ ok (ev', db')
        → (ev' ≡ ed.0) × (db'.events ≡ ed.1.events ++ ev' ∷ [])
    go (e, d) h = answer (is_refused e d.events) h
      where
        answer :
            (b : Bool)
            → if◌then◌else◌ {A = Result (Event × EventDb)} b
                (err constraint)
                (ok (e, pushed (e, d)))
              ≡ ok (ev', db')
            → (ev' ≡ e) × (db'.events ≡ d.events ++ ev' ∷ [])
        answer true h = cc
        answer false h =
            let q : e ≡ ev' = cc in
            let r : pushed (e, d) ≡ db' = cc in
            (sym q, sym (ap (λ x. x.events) r) ∙ ap (λ x. d.events ++ x ∷ []) q)
