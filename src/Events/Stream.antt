-- ===== src/Events/Stream.antt =====
-- The numbers in the stream that internal/server/aggregate/aggregator.go hands to the hub.
use semantic_framework.Prelude.{
  ℕ, suc, ◌+◌, String, Bool, true, false, ◌||◌, List, [], ◌∷◌, ◌++◌, Option, none, some, ◌==◌,
  Result, ok, err, if◌then◌else◌, ◌≡◌, refl, ap, sym, ◌∙◌, arith, map, All, subst, length,
  select-append, drop, drop-append, drop-eq-nil,
}
use semantic_framework.Events.Log.{Event, EventDb, insert_project_event}
use semantic_framework.Events.Numbered.{
  replayable, Counts, IsNumbered, insert_project_event-IsNumbered,
}
use semantic_framework.Events.Replay.{drop-Counts}
use semantic_framework.Events.Sequencer.{next}
use semantic_framework.Events.Classify.{Payload, Fields}
use semantic_framework.Events.Aggregate.{
  ParentRef, Envelope, Message, envelope, foreign, Aggregator, normalize, to_record, record_with,
  forward, store_record, handle, consume,
}
use semantic_framework.Events.Live.{recorded, consume-IsLive}

-- The publisher leaves the number to the store.
abbrev pub Unnumbered : Message → Type 0
Unnumbered foreign = Unit
Unnumbered (envelope env) = env.sequence ≡ 0

record_with-sequence :
    (parent payload : Option String) (env : Envelope) (ev : Event)
    → record_with parent payload env ≡ some ev
    → ev.sequence ≡ env.sequence
record_with-sequence none payload env ev h = cc
record_with-sequence (some parent) none env ev h = cc
record_with-sequence (some parent) (some payload) env ev h = sym (ap (number env.sequence) h)
  where
    number : ℕ → Option Event → ℕ
    number n none = n
    number n (some e) = e.sequence

module _ (p : String) (unmarshal : String → Option Fields)
    (marshal_payload : Payload → Option String) (marshal_parent : ParentRef → Option String) where
  forward-IsNumbered :
      (res : Result (Event × EventDb)) (ev : Event) (env : Envelope) (a : Aggregator)
      → (p == "") ≡ false
      → insert_project_event ev a.db ≡ res
      → ev.sequence ≡ 0
      → IsNumbered p a.db
      → IsNumbered p (forward res env a).db
  forward-IsNumbered (err x) ev env a real h fresh n = n
  forward-IsNumbered (ok (r, db')) ev env a real h fresh n =
      insert_project_event-IsNumbered p ev a.db r db' real fresh n h

  store_record-IsNumbered :
      (o : Option Event) (env : Envelope) (a : Aggregator)
      → (p == "") ≡ false
      → recorded unmarshal marshal_payload marshal_parent env ≡ o
      → env.sequence ≡ 0
      → IsNumbered p a.db
      → IsNumbered p (store_record o env a).db
  unfolding store_record
  store_record-IsNumbered none env a real h fresh n = n
  store_record-IsNumbered (some ev) env a real h fresh n =
      forward-IsNumbered (insert_project_event ev a.db) ev env a real refl
        (record_with-sequence (marshal_parent env.parent) (marshal_payload env.payload) env ev h
          ∙ fresh)
        n

  handle-IsNumbered :
      (drawn now : ℕ) (m : Message) (a : Aggregator)
      → (p == "") ≡ false
      → Unnumbered m
      → IsNumbered p a.db
      → IsNumbered p (handle unmarshal marshal_payload marshal_parent drawn now m a).db
  unfolding handle to_record
  handle-IsNumbered drawn now foreign a real fresh n = n
  handle-IsNumbered drawn now (envelope env) a real fresh n =
      go (env.channel == "" || env.kind == "")
    where
      env' : Envelope
      env' = normalize unmarshal marshal_payload marshal_parent a.seq drawn now env

      drew : Aggregator
      drew = record a { seq = (next drawn a.seq).0 }

      kept : env'.sequence ≡ 0
      kept = fresh

      go :
          (b : Bool)
          → IsNumbered p
              (if b
                then a
                else store_record
                    (recorded unmarshal marshal_payload marshal_parent env')
                    env'
                    drew).db
      go true = n
      go false =
          store_record-IsNumbered (recorded unmarshal marshal_payload marshal_parent env') env' drew
            real refl kept n

  consume-IsNumbered :
      (ms : List (ℕ × ℕ × Message)) (a : Aggregator)
      → (p == "") ≡ false
      → All (λ m. Unnumbered m.2) ms
      → IsNumbered p a.db
      → IsNumbered p (consume unmarshal marshal_payload marshal_parent ms a).db
  unfolding consume
  consume-IsNumbered [] a real fresh n = n
  consume-IsNumbered ((drawn, now, m) ∷ ms) a real fresh n =
      consume-IsNumbered ms (handle unmarshal marshal_payload marshal_parent drawn now m a) real
        fresh.1 (handle-IsNumbered drawn now m a real fresh.0 n)

  -- When the publishers leave the numbers to the store, then of the events that the hub is given,
  -- those of the Project that can be replayed carry consecutive numbers, starting after the ones
  -- that were stored before: a subscriber that sees a number left out has missed an event.
  pub consume-consecutive :
      (ms : List (ℕ × ℕ × Message)) (a : Aggregator)
      → (p == "") ≡ false
      → All (λ m. Unnumbered m.2) ms
      → IsNumbered p a.db
      → (sent : List Envelope) × (rows : List Event) × ((consume unmarshal marshal_payload
            marshal_parent ms a).published
          ≡ a.published ++ sent)
        × (map (recorded unmarshal marshal_payload marshal_parent) sent ≡ map some rows)
        × Counts (suc (length (replayable p a.db.events))) (replayable p rows)
  consume-consecutive ms a real fresh n =
      let (sent, rows, handed, grown, same) =
        consume-IsLive unmarshal marshal_payload marshal_parent ms a in
      let old = replayable p a.db.events in
      let whole : replayable p (consume unmarshal marshal_payload marshal_parent ms a).db.events
          ≡ old ++ replayable p rows =
        ap (replayable p) grown ∙ select-append _ a.db.events rows in
      let n' = consume-IsNumbered ms a real fresh n in
      let counted : Counts (1 + length old) (drop (length old) (old ++ replayable p rows)) =
        drop-Counts (length old) 1 _ (subst (Counts 1) whole n'.consecutive) in
      let rest : drop (length old) (old ++ replayable p rows) ≡ replayable p rows =
        drop-append _ old (replayable p rows) (omega arith)
        ∙ ap (λ xs. xs ++ replayable p rows) (drop-eq-nil _ old (omega arith)) in
      let start : 1 + length old ≡ suc (length old) = omega arith in
      (
        sent,
        rows,
        handed,
        same,
        subst (λ k. Counts k (replayable p rows)) start
            (subst (Counts (1 + length old)) rest counted),
      )
