-- ===== src/Runs/History.antt =====
-- Any sequence of the writing methods on the runs of internal/store/chat.go.
use semantic_framework.Prelude.{
  ℕ, String, Bool, true, false, not, ◌||◌, List, [], ◌∷◌, ◌++◌, Option, none, some, ◌==◌, is_some,
  all, mem_text, Result, ok, err, ◌≡◌, refl, ap, ◌∙◌, ◌⊎◌, inl, inr, subst, and-eq-true, or-eq-true,
  not-eq-true, constraint, not_found, ◌>>=◌, ◌>>◌, guard, if◌then◌else◌, All, eq_iff, invalid_state,
}
use semantic_framework.Prelude.Table.{find, affected, update_all, find-append_some}
use semantic_framework.Prelude.Statements.{find-update_any, find-update_all}
use semantic_framework.Runs.Rows.{
  RunSession, RunDb, run_key, valid_run_status, terminal_run_status, create_run_session, place_run,
  fill_run, row_refused, set_checkpoint, insert_run, check_run_task, conversation, is_task_kind,
}
use semantic_framework.Runs.Lifecycle.{
  allowed_from, status_placeholders, with_runs, missed, read_back, update_run, is_in, moved_run,
  transition_run_status, finished_run, finish_run_session, with_metadata, starting,
  update_run_execution_metadata, interrupted, failed_run, cancelled_run, is_cancelling,
  mark_interrupted_runs, save_run_checkpoint,
}

pub data Call : Type 0 where
  create : ℕ → RunSession → Call
  transition : String → List String → String → ℕ → Call
  finish : String → List String → String → String → ℕ → Call
  metadata : String → String → String → String → String → ℕ → Call
  restart : ℕ → Call
  checkpoint : String → Option String → Call

abbrev pub after_create : Result RunDb → RunDb → RunDb
after_create (ok db') db = db'
after_create (err e) db = db

abbrev pub after : Result (RunSession × RunDb) → RunDb → RunDb
after (ok (r, db')) db = db'
after (err e) db = db

unfoldable pub call : Call → RunDb → RunDb
unfolding create_run_session transition_run_status finish_run_session update_run_execution_metadata
    mark_interrupted_runs save_run_checkpoint
call (create now r) db = after_create (create_run_session now r db) db
call (transition id from to now) db = after (transition_run_status id from to now db) db
call (finish id from status error now) db =
    after (finish_run_session id from status error now db) db
call (metadata id provider endpoint model trace now) db =
    after (update_run_execution_metadata id provider endpoint model trace now db) db
call (restart now) db = (mark_interrupted_runs now db).2
call (checkpoint id bytes) db = after_create (save_run_checkpoint id bytes db) db

unfoldable pub run : List Call → RunDb → RunDb
unfolding call
run [] db = db
run (c ∷ cs) db = run cs (call c db)

abbrev pub is_open : String → Bool
is_open s = not (terminal_run_status s)

-- The caller names no ended status as one to start from.
abbrev pub StartsOpen : Call → Type 0
StartsOpen (transition id from to now) = all is_open from ≡ true
StartsOpen (finish id from status error now) = all is_open from ≡ true
StartsOpen (create now r) = Unit
StartsOpen (metadata id provider endpoint model trace now) = Unit
StartsOpen (restart now) = Unit
StartsOpen (checkpoint id bytes) = Unit

-- A row that has ended is not written.
abbrev pub Keeps : RunDb → RunDb → Type 0
Keeps db db' =
    (id : String) (r : RunSession)
    → terminal_run_status r.status ≡ true
    → find run_key id db.run_sessions ≡ some r
    → find run_key id db'.run_sessions ≡ some r

nothing-Keeps : (db : RunDb) → Keeps db db
nothing-Keeps db id r t h = h

true-ne-false : (b : Bool) → b ≡ true → b ≡ false → ⊥
true-ne-false true h k = cc
true-ne-false false h k = cc

-- A row whose status is in the list has not ended.
is_in-open :
    (statuses : List String) (s : String)
    → all is_open statuses ≡ true
    → mem_text s statuses ≡ true
    → terminal_run_status s ≡ false
is_in-open [] s h m = cc
is_in-open (x ∷ xs) s h m =
    let (a, b) = and-eq-true (is_open x) (all is_open xs) h in
    elim (or-eq-true (s == x) (mem_text s xs) m) [
      | inl e ↦
          let q : s ≡ x = (eq_iff s x).0 e in
          ap terminal_run_status q ∙ not-eq-true (terminal_run_status x) a
      | inr e ↦ is_in-open xs s b e
    ]

allowed_from-open :
    (from : List String) → all is_open from ≡ true → all is_open (allowed_from from) ≡ true
unfolding terminal_run_status
allowed_from-open [] h = refl
allowed_from-open (s ∷ ss) h = h

module _ (test : RunSession → Bool) (change : RunSession → RunSession)
    (same_id : (x : RunSession) → (change x).id ≡ x.id)
    (open_only : (x : RunSession) → test x ≡ true → terminal_run_status x.status ≡ false) where
  kept :
      (r y : RunSession)
      → terminal_run_status r.status ≡ true
      → (y ≡ r) ⊎ ((test r ≡ true) × (y ≡ change r))
      → y ≡ r
  kept r y t (inl e) = e
  kept r y t (inr p) = absurd (true-ne-false (terminal_run_status r.status) t (open_only r p.0))

  update_run-Keeps :
      (id : String) (none_hit : Result (RunSession × RunDb)) (hit : Bool) (db : RunDb)
      → Keeps db (after none_hit db)
      → Keeps db (after (update_run id test change none_hit hit db) db)
  update_run-Keeps id none_hit false db k = k
  update_run-Keeps id none_hit true db k =
      read (find run_key id (with_runs id test change db).run_sessions)
    where
      written : Keeps db (with_runs id test change db)
      written j r t h =
          let (y, found, how) =
            find-update_any run_key id test change db.run_sessions j r same_id h in
          found ∙ ap some (kept r y t how)

      read :
          (o : Option RunSession)
          → Keeps db (after (read_back id (with_runs id test change db) o) db)
      read none = nothing-Keeps db
      read (some r) = written

  update_all-Keeps :
      (db : RunDb) → Keeps db (record db { run_sessions = update_all test change db.run_sessions })
  update_all-Keeps db j r t h =
      let (y, found, how) = find-update_all run_key test change db.run_sessions j r same_id h in
      found ∙ ap some (kept r y t how)

status_placeholders-allowed :
    (from statuses : List String)
    → status_placeholders from ≡ ok statuses
    → allowed_from from ≡ statuses
unfolding status_placeholders
status_placeholders-allowed from statuses h = go (all valid_run_status (allowed_from from)) h
  where
    go :
        (b : Bool)
        → if◌then◌else◌ {A = Result (List String)} b (ok (allowed_from from)) (err invalid_state)
          ≡ ok statuses
        → allowed_from from ≡ statuses
    go true k = cc
    go false k = cc

-- A statement that starts from the statuses that a caller names.
from-Keeps :
    (change : RunSession → RunSession)
    → ((x : RunSession) → (change x).id ≡ x.id)
    → (id : String) (from : List String) (g : Result (Unit {0})) (db : RunDb)
    → all is_open from ≡ true
    → Keeps db (
        after
          (g
            >> (status_placeholders from >>= λ statuses.
                update_run id
                  (is_in statuses)
                  change
                  (missed (find run_key id db.run_sessions))
                  (affected run_key id (is_in statuses) db.run_sessions)
                  db))
          db)
from-Keeps change same_id id from (err e) db open_from = nothing-Keeps db
from-Keeps change same_id id from (ok u) db open_from = go (status_placeholders from) refl
  where
    refused : (o : Option RunSession) → Keeps db (after (missed o) db)
    refused none = nothing-Keeps db
    refused (some r) = nothing-Keeps db

    go :
        (p : Result (List String))
        → status_placeholders from ≡ p
        → Keeps db (
            after
              (p >>= λ statuses.
                update_run id
                  (is_in statuses)
                  change
                  (missed (find run_key id db.run_sessions))
                  (affected run_key id (is_in statuses) db.run_sessions)
                  db)
              db)
    go (err e) h = nothing-Keeps db
    go (ok statuses) h =
        let q : allowed_from from ≡ statuses = status_placeholders-allowed from statuses h in
        let o : all is_open statuses ≡ true =
          subst (λ l. all is_open l ≡ true) q (allowed_from-open from open_from) in
        update_run-Keeps (is_in statuses) change same_id (λ x m. is_in-open statuses x.status o m)
          id (missed (find run_key id db.run_sessions))
          (affected run_key id (is_in statuses) db.run_sessions) db
          (refused (find run_key id db.run_sessions))

metadata-Keeps :
    (id provider endpoint model trace : String) (now : ℕ) (db : RunDb)
    → Keeps db (after (update_run_execution_metadata id provider endpoint model trace now db) db)
unfolding update_run_execution_metadata terminal_run_status
metadata-Keeps id provider endpoint model trace now db = go (guard _ _)
  where
    go :
        (g : Result (Unit {0}))
        → Keeps db (
            after
              (g
                >> update_run id
                    (is_in starting)
                    (with_metadata provider endpoint model trace now)
                    (err invalid_state)
                    (affected run_key id (is_in starting) db.run_sessions)
                    db)
              db)
    go (err e) = nothing-Keeps db
    go (ok u) =
        update_run-Keeps (is_in starting) (with_metadata provider endpoint model trace now)
          (λ x. refl) (λ x m. is_in-open starting x.status refl m) id (err invalid_state)
          (affected run_key id (is_in starting) db.run_sessions) db (nothing-Keeps db)

create-Keeps :
    (now : ℕ) (r : RunSession) (db : RunDb)
    → Keeps db (after_create (create_run_session now r db) db)
unfolding create_run_session
create-Keeps now r db =
    go (guard _ _) (place_run (find (λ s. s.id) r.chat_session_id db.chat_sessions) r)
  where
    inserted :
        (x : RunSession) (b : Bool)
        → Keeps db (
            after_create
              (if b
                then err constraint
                else ok (record db {
                  run_sessions = db.run_sessions ++ record x { revision = 1; robot_id = "" } ∷ [];
                  checkpoints = set_checkpoint x.id none db.checkpoints;
                }))
              db)
    inserted x true = nothing-Keeps db
    inserted x false = λ j s t h. find-append_some run_key j db.run_sessions _ s h

    checks :
        (x : RunSession) (g h : Result (Unit {0}))
        → Keeps db (after_create (g >> (h >> insert_run x db)) db)
    checks x (err e) h = nothing-Keeps db
    checks x (ok u) (err e) = nothing-Keeps db
    checks x (ok u) (ok v) = inserted x (row_refused x db.run_sessions)

    go :
        (g : Result (Unit {0})) (p : Result RunSession)
        → Keeps db (
            after_create
              (g
                >> (p >>= λ placed.
                    guard
                      ((fill_run now placed).kind == conversation
                        || is_task_kind (fill_run now placed).kind)
                      invalid_state
                    >> (check_run_task (fill_run now placed) db
                        >> insert_run (fill_run now placed) db)))
              db)
    go (err e) p = nothing-Keeps db
    go (ok u) (err e) = nothing-Keeps db
    go (ok u) (ok placed) =
        checks (fill_run now placed) (guard _ _) (check_run_task (fill_run now placed) db)

restart-Keeps : (now : ℕ) (db : RunDb) → Keeps db (mark_interrupted_runs now db).2
unfolding mark_interrupted_runs terminal_run_status
restart-Keeps now db j r t h =
    let once : RunDb = record db {
      run_sessions = update_all (is_in interrupted) (failed_run now) db.run_sessions;
    } in
    let first =
      update_all-Keeps (is_in interrupted) (failed_run now) (λ x. refl)
        (λ x m. is_in-open interrupted x.status refl m) db j r t h in
    update_all-Keeps is_cancelling (cancelled_run now) (λ x. refl)
      (λ x m. is_in-open ("cancelling" ∷ []) x.status refl (one x m)) once j r t first
  where
    one : (x : RunSession) → is_cancelling x ≡ true → mem_text x.status ("cancelling" ∷ []) ≡ true
    one x m = rw m

checkpoint-Keeps :
    (id : String) (bytes : Option String) (db : RunDb)
    → Keeps db (after_create (save_run_checkpoint id bytes db) db)
unfolding save_run_checkpoint
checkpoint-Keeps id bytes db = go (is_some (find run_key id db.run_sessions))
  where
    go :
        (b : Bool)
        → Keeps db (
            after_create
              (if b
                then ok (record db { checkpoints = set_checkpoint id bytes db.checkpoints })
                else err not_found)
              db)
    go true = λ j r t h. h
    go false = nothing-Keeps db

call-Keeps : (c : Call) (db : RunDb) → StartsOpen c → Keeps db (call c db)
unfolding call transition_run_status finish_run_session
call-Keeps (create now r) db o = create-Keeps now r db
call-Keeps (transition id from to now) db o =
    from-Keeps (moved_run to now) (λ x. refl) id from (guard _ _) db o
call-Keeps (finish id from status error now) db o =
    from-Keeps (finished_run status error now) (λ x. refl) id from (guard _ _) db o
call-Keeps (metadata id provider endpoint model trace now) db o =
    metadata-Keeps id provider endpoint model trace now db
call-Keeps (restart now) db o = restart-Keeps now db
call-Keeps (checkpoint id bytes) db o = checkpoint-Keeps id bytes db

-- A run that has completed, failed or been cancelled keeps every column of the run view: whatever
-- calls follow, restarts of the server and saved checkpoints included, reading its row gives the same
-- run, as long as no caller names an ended status as the one to start from. (The methods do not check
-- that themselves.) The column `checkpoint` is no part of the view, and an ended run's may be replaced.
pub run-terminal :
    (calls : List Call) (db : RunDb) (id : String) (r : RunSession)
    → All StartsOpen calls
    → terminal_run_status r.status ≡ true
    → find run_key id db.run_sessions ≡ some r
    → find run_key id (run calls db).run_sessions ≡ some r
unfolding run
run-terminal [] db id r o t h = h
run-terminal (c ∷ cs) db id r o t h =
    run-terminal cs (call c db) id r o.1 t (call-Keeps c db o.0 id r t h)
