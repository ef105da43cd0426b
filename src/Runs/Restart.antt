-- ===== src/Runs/Restart.antt =====
-- internal/store/chat.go: what `MarkInterruptedRuns` makes of the runs of the process before.
use mathlib.Core.Path.{ap₂}
use semantic_framework.Prelude.{
  Bool, some, ◌==◌, ◌||◌, ◌+◌, select-same, ℕ, true, false, List, [], ◌∷◌, all, map, select, length,
  ◌≡◌, refl, ap, ◌∙◌, arith, and-eq-true, if◌then◌else◌, Bool-cases, inl, inr, eq_iff,
}
use semantic_framework.Prelude.Table.{update_all}
use semantic_framework.Runs.Rows.{RunSession, RunDb, valid_run_status, terminal_run_status}
use semantic_framework.Runs.Lifecycle.{
  is_in, interrupted, failed_run, cancelled_run, is_cancelling, mark_interrupted_runs,
}

-- What becomes of one run, in one step.
abbrev pub settled : ℕ → RunSession → RunSession
settled now r =
    if is_in interrupted r
    then failed_run now r
    else if is_cancelling r
    then cancelled_run now r
    else r

twice-settled :
    (now : ℕ) (rs : List RunSession)
    → update_all is_cancelling
        (cancelled_run now)
        (update_all (is_in interrupted) (failed_run now) rs)
      ≡ map (settled now) rs
unfolding update_all
twice-settled now [] = refl
twice-settled now (r ∷ rs) = elim (Bool-cases (is_in interrupted r)) [
  | inl e ↦ rw (e, twice-settled now rs)
  | inr e ↦ rw (e, twice-settled now rs)
]

settled-terminal :
    (now : ℕ) (r : RunSession)
    → valid_run_status r.status ≡ true
    → terminal_run_status (settled now r).status ≡ true
unfolding valid_run_status terminal_run_status
settled-terminal now r h = elim (Bool-cases (is_in interrupted r)) [
  | inl e ↦ rw e
  | inr e ↦ elim (Bool-cases (is_cancelling r)) [
    | inl c ↦ rw (e, c)
    | inr c ↦ rw (e, c) (ground (arith, e, c, h))
  ]
]

all-settled :
    (now : ℕ) (rs : List RunSession)
    → all (λ r. valid_run_status r.status) rs ≡ true
    → all (λ r. terminal_run_status r.status) (map (settled now) rs) ≡ true
all-settled now [] h = refl
all-settled now (r ∷ rs) h =
    let (a, b) = and-eq-true (valid_run_status r.status) _ h in
    rw (settled-terminal now r a, all-settled now rs b)

-- The first statement makes no run a cancelling one and takes none away.
select-cancelling :
    (now : ℕ) (rs : List RunSession)
    → select is_cancelling (update_all (is_in interrupted) (failed_run now) rs)
      ≡ select is_cancelling rs
unfolding update_all
select-cancelling now [] = refl
select-cancelling now (r ∷ rs) = elim (Bool-cases (is_cancelling r)) [
  | inl c ↦
      let not_first : is_in interrupted r ≡ false = apart r c in
      rw (not_first, c) (ap (λ t. r ∷ t) (select-cancelling now rs))
  | inr c ↦ elim (Bool-cases (is_in interrupted r)) [
    | inl e ↦ rw (e, c) (select-cancelling now rs)
    | inr e ↦ rw (e, c) (select-cancelling now rs)
  ]
]
  where
    apart : (r : RunSession) → is_cancelling r ≡ true → is_in interrupted r ≡ false
    apart r c = let q : r.status ≡ "cancelling" = (eq_iff r.status "cancelling").0 c in rw q

-- A run that the process before was working on.
abbrev pub was_working : RunSession → Bool
was_working r = r.status == "queued" || r.status == "running" || r.status == "waiting_input"

-- A run as the restart leaves it, column by column.
abbrev pub restarted : ℕ → RunSession → RunSession
restarted now r =
    if was_working r
    then record r {
      status = "failed";
      error = "Server 重启，原运行已结束";
      ended_at = some now;
      updated_at = now;
      revision = r.revision + 1;
    }
    else if r.status == "cancelling"
    then record r {
      status = "cancelled";
      ended_at = some now;
      updated_at = now;
      revision = r.revision + 1;
    }
    else r

is_in-was_working : (r : RunSession) → is_in interrupted r ≡ was_working r
is_in-was_working r =
    go (r.status == "queued") (r.status == "running") (r.status == "waiting_input")
  where
    go : (a b c : Bool) → (a || (b || (c || false))) ≡ (a || b || c)
    go true b c = refl
    go false true c = refl
    go false false true = refl
    go false false false = refl

settled-restarted : (now : ℕ) (rs : List RunSession) → map (settled now) rs ≡ map (restarted now) rs
settled-restarted now [] = refl
settled-restarted now (r ∷ rs) = ap₂ (λ x xs. x ∷ xs) (one r) (settled-restarted now rs)
  where
    one : (x : RunSession) → settled now x ≡ restarted now x
    one x =
        ap (λ b. if b then failed_run now x else if is_cancelling x then cancelled_run now x else x)
          (is_in-was_working x)

-- After a restart every run with a status of the state machine has ended: the two statements of
-- MarkInterruptedRuns together make the queued, running and waiting runs failed, with the time and
-- the text of the restart, make the cancelling ones cancelled and leave the ended ones as they are,
-- and the two numbers that are returned count the former and the latter.
pub mark_interrupted_runs-restarted :
    (now : ℕ) (db : RunDb)
    → all (λ r. valid_run_status r.status) db.run_sessions ≡ true
    → ((mark_interrupted_runs now db).2.run_sessions ≡ map (restarted now) db.run_sessions)
      × (all (λ r. terminal_run_status r.status) (mark_interrupted_runs now db).2.run_sessions
          ≡ true)
      × ((mark_interrupted_runs now db).0 ≡ length (select was_working db.run_sessions))
      × ((mark_interrupted_runs now db).1
          ≡ length (select (λ r. r.status == "cancelling") db.run_sessions))
unfolding mark_interrupted_runs
mark_interrupted_runs-restarted now db h =
    let e = twice-settled now db.run_sessions in
    (
      e ∙ settled-restarted now db.run_sessions,
      ap (all (λ r. terminal_run_status r.status)) e ∙ all-settled now db.run_sessions h,
      ap length (select-same (is_in interrupted) was_working db.run_sessions is_in-was_working),
      ap length (select-cancelling now db.run_sessions),
    )
