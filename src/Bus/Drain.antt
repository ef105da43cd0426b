-- ===== src/Bus/Drain.antt =====
-- Progress of a subscription of internal/event/bus.go: its worker, its reader and the publishers that
-- still owe a token.
use mathlib.Core.List.{append-nil}
use mathlib.Core.Path.{subst}
use semantic_framework.Prelude.{
  ℕ, zero, suc, ◌+◌, ◌*◌, ◌≤◌, ◌<◌, ◌≡◌, refl, sym, ap, ◌∙◌, ◌≢◌, ◌⊎◌, inl, inr, Bool, true, false,
  Option, none, some, List, [], ◌∷◌, ◌++◌, arith, length, if◌then◌else◌,
}
use semantic_framework.Bus.Subscription.{
  Subscription, next, delivered, pending, enqueue, stop, Outcome, refused, direct, queued,
}
use semantic_framework.Bus.Next.{Nexts, next-Nexts, Enqueues, enqueue-Enqueues}
use semantic_framework.Bus.Pump.{
  Worker, scanning, waiting, sent, exited, holding, Pump, start, signal, worker_after, scan,
  record_outcome, publish, push_out, finish, halt, Step, publishes, halts, exits, signals, scans,
  wakes, sends, finishes, receives, Reach, here, more,
}
use semantic_framework.Bus.Order.{held, start-IsOrdered}
use semantic_framework.Bus.Delivery.{Reach-IsOrdered, accepted-in_order}
use semantic_framework.Bus.Wakeup.{no_lost_wakeup}

module _ {A : Type 0} where
  -- How many steps the worker has before it stands at `next` again.
  abbrev rounds : Worker A → Bool → ℕ
  rounds scanning t = 1
  rounds waiting true = 2
  rounds waiting false = 3
  rounds sent t = 2
  rounds (holding ev) t = 5
  rounds exited t = 0

  abbrev work : Pump A → ℕ
  work p = length p.sub.out + rounds p.worker p.wake + 7 * length (pending p.sub)

  -- A step that publishes nothing, stops nothing and leaves less to do.
  record Advances (p q : Pump A) : Type 0 where
    step : Step p q
    less : work q < work p
    same : q.accepted ≡ p.accepted
    runs : q.sub.stopped ≡ p.sub.stopped

  -- The reader has everything, or there is such a step.
  abbrev Progress : Pump A → Type 0
  Progress p = (p.received ≡ p.accepted) ⊎ ((q : Pump A) × Advances p q)

  List-cases : (l : List A) → (l ≡ []) ⊎ (l ≢ [])
  List-cases [] = inl refl
  List-cases (x ∷ l) = inr (λ e. cc)

  scan_less :
      (p : Pump A) (r : Subscription A × Option A)
      → Nexts p.sub r
      → p.worker ≡ scanning
      → p.sub.stopped ≡ false
      → pending p.sub ≢ []
      → let q = record p { sub = r.0; worker = worker_after r.1 } in
        (work q < work p) × (q.sub.stopped ≡ p.sub.stopped)
  scan_less p (s', none) (inl t, calm, out, stopped, same, range, empty) w runs q = cc
  scan_less p (s', none) (inr e, calm, out, stopped, same, range, empty) w runs q = absurd (q e)
  scan_less p (s', some ev) (r, busy, out, stopped, taken, range) w runs q =
      (rw (out, w, ← taken) (omega arith), stopped)

  done :
      (p : Pump A)
      → Reach start p
      → p.sub.stopped ≡ false
      → p.sub.out ≡ []
      → held p.worker ≡ []
      → pending p.sub ≡ []
      → p.received ≡ p.accepted
  done p r runs o h q = simp append-nil at (rw (o, h, q) at (accepted-in_order r runs))

  -- The worker returns only when the subscription has been stopped.
  abbrev IsExitStopped : Pump A → Type 0
  IsExitStopped p = p.worker ≡ exited → p.sub.stopped ≡ true

  outcome-IsExitStopped :
      (p : Pump A) (ev : A) (r : Subscription A × Outcome)
      → IsExitStopped p
      → Enqueues ev p.sub r
      → IsExitStopped (record_outcome ev r.1 (record p { sub = r.0 }))
  outcome-IsExitStopped p ev (s', refused n) i e =
      subst (λ s. IsExitStopped (record p { sub = s })) (sym e) i
  outcome-IsExitStopped p ev (s', direct) i (runs, calm, empty, space, e) =
      subst (λ s. IsExitStopped (record p { sub = s; accepted = p.accepted ++ ev ∷ [] })) (sym e) i
  outcome-IsExitStopped p ev (s', queued n) i (runs, size, back, e) =
      subst
        (λ s.
          IsExitStopped (record p { sub = s; accepted = p.accepted ++ ev ∷ []; owed = p.owed + 1 }))
        (sym e) i

  scanned-IsExitStopped :
      (p : Pump A) (r : Subscription A × Option A)
      → IsExitStopped (record p { sub = r.0; worker = worker_after r.1 })
  scanned-IsExitStopped p (s', none) w = cc
  scanned-IsExitStopped p (s', some ev) w = cc

  halted-IsExitStopped :
      (p : Pump A) (b : Bool)
      → p.sub.stopped ≡ b
      → (if b
          then p.sub
          else record p.sub { stopped = true; queue = []; head = 0; inflight = false }).stopped
        ≡ true
  halted-IsExitStopped p true e = e
  halted-IsExitStopped p false e = refl

  Step-IsExitStopped :
      {p q : Pump A}
      → Step p q
      → p.sub.head ≤ length p.sub.queue
      → IsExitStopped p
      → IsExitStopped q
  unfolding publish scan signal push_out finish halt delivered stop
  Step-IsExitStopped {p} (publishes ev d) h i =
      outcome-IsExitStopped p ev (enqueue ev d p.sub) i (enqueue-Enqueues ev d p.sub h)
  Step-IsExitStopped {p} (signals s) h i = i
  Step-IsExitStopped {p} (scans w) h i = scanned-IsExitStopped p (next p.sub)
  Step-IsExitStopped {p} (wakes w t) h i = λ v. cc
  Step-IsExitStopped {p} (sends ev w t) h i = λ v. cc
  Step-IsExitStopped {p} (finishes w) h i = λ v. cc
  Step-IsExitStopped {p} (receives ev rest e) h i = i
  Step-IsExitStopped {p} halts h i = λ w. halted-IsExitStopped p p.sub.stopped refl
  Step-IsExitStopped {p} (exits w t) h i = λ v. t

  exited_runs : {p : Pump A} → Reach start p → p.worker ≡ exited → p.sub.stopped ≡ true
  unfolding start
  exited_runs here = λ w. cc
  exited_runs (more r s) =
      Step-IsExitStopped s (Reach-IsOrdered r start-IsOrdered).head_in_range (exited_runs r)

  -- The worker's next step, when the channel is empty.
  worker_step :
      (p : Pump A) (w : Worker A) (t : Bool)
      → Reach start p
      → p.sub.stopped ≡ false
      → p.sub.out ≡ []
      → p.worker ≡ w
      → p.wake ≡ t
      → Progress p
  unfolding scan push_out finish delivered signal
  worker_step p (holding ev) t r runs o w k = inr (
    push_out ev p,
    record {
      step = sends ev w (omega (arith, ap length o));
      less = rw (w, o) (omega arith);
      same = refl;
      runs = refl;
    },
  )
  worker_step p sent t r runs o w k =
      inr (
        finish p,
        record { step = finishes w; less = rw w (omega arith); same = refl; runs = refl },
      )
  worker_step p exited t r runs o w k = let halted : p.sub.stopped ≡ true = exited_runs r w in cc
  worker_step p scanning t r runs o w k = elim (List-cases (pending p.sub)) [
    | inl q ↦ inl (done p r runs o (ap held w) q)
    | inr q ↦
        let (less, same) =
          scan_less p (next p.sub)
            (next-Nexts p.sub (Reach-IsOrdered r start-IsOrdered).head_in_range) w runs q in
        inr (scan p, record { step = scans w; less = less; same = refl; runs = same })
  ]
  worker_step p waiting true r runs o w k = inr (
    record p { worker = scanning; wake = false },
    record { step = wakes w k; less = rw (w, k) (omega arith); same = refl; runs = refl },
  )
  worker_step p waiting false r runs o w k = elim (List-cases (pending p.sub)) [
    | inl q ↦ inl (done p r runs o (ap held w) q)
    | inr q ↦ elim (no_lost_wakeup r runs w q) [
      | inl t ↦ cc
      | inr owed ↦ inr (
        signal p,
        record { step = signals owed; less = rw (w, k) (omega arith); same = refl; runs = refl },
      )
    ]
  ]

  -- With something in the channel, the reader takes it.
  reader_step :
      (p : Pump A) (o : List A) → Reach start p → p.sub.stopped ≡ false → p.sub.out ≡ o → Progress p
  reader_step p [] r runs e = worker_step p p.worker p.wake r runs e refl refl
  reader_step p (ev ∷ rest) r runs e = inr (
    record p { sub = record p.sub { out = rest }; received = p.received ++ ev ∷ [] },
    record {
      step = receives ev rest e;
      less = omega (arith, ap length e);
      same = refl;
      runs = refl;
    },
  )

  Reach-trans : {p q r : Pump A} → Reach p q → Reach q r → Reach p r
  Reach-trans a here = a
  Reach-trans a (more b s) = more (Reach-trans a b) s

  abbrev Drained : Pump A → Type 0
  Drained p = (q : Pump A) × Reach p q × (q.accepted ≡ p.accepted) × (q.received ≡ p.accepted)

  drain_within :
      (fuel : ℕ) (p : Pump A) → work p < fuel → Reach start p → p.sub.stopped ≡ false → Drained p
  drain_within zero p h r runs = absurd (omega (arith, h))
  drain_within (suc fuel) p h r runs = elim (reader_step p p.sub.out r runs refl) [
    | inl e ↦ (p, here, refl, e)
    | inr (q, a) ↦
        let (z, path, kept, all) =
          drain_within fuel q (omega (arith, h, a.less)) (more r a.step) (a.runs ∙ runs) in
        (z, Reach-trans (more here a.step) path, kept ∙ a.same, all ∙ a.same)
  ]

  -- There is no deadlock and nothing is stuck: from every state that a subscription can reach
  -- without being stopped, a run of its worker, its reader and the owed signals, in which nothing more
  -- is accepted, ends with the reader having received all that has been accepted.
  pub accepted-drains :
      {p : Pump A}
      → Reach start p
      → p.sub.stopped ≡ false
      → (q : Pump A) × Reach p q × (q.accepted ≡ p.accepted) × (q.received ≡ p.accepted)
  accepted-drains {p} r runs = drain_within (suc (work p)) p (omega arith) r runs
