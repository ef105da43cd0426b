-- ===== src/Bus/Wakeup.antt =====
-- The token `wake` of internal/event/bus.go, between the publishers and a blocked worker.
use semantic_framework.Prelude.{
  ◌≤◌, ◌<◌, ◌≡◌, refl, sym, ◌∙◌, ◌≢◌, ◌⊎◌, inl, inr, Bool, true, false, Option, none, some, [], ◌∷◌,
  ◌++◌, arith, length, if◌then◌else◌,
}
use mathlib.Core.Path.{subst}
use semantic_framework.Bus.Subscription.{
  Subscription, Outcome, refused, direct, queued, enqueue, next, delivered, stop, pending,
}
use semantic_framework.Bus.Next.{Nexts, next-Nexts, Enqueues, enqueue-Enqueues}
use semantic_framework.Bus.Pump.{
  waiting, Pump, start, record_outcome, publish, signal, worker_after, scan, push_out, finish, halt,
  Step, publishes, signals, scans, wakes, sends, finishes, receives, halts, exits, Reach, here,
  more,
}
use semantic_framework.Bus.Order.{start-IsOrdered}
use semantic_framework.Bus.Delivery.{Reach-IsOrdered}

module _ {A : Type 0} where
  -- A worker that is blocked beside a queued event has the token before it, or a publisher that
  -- still owes it.
  abbrev pub IsRoused : Pump A → Type 0
  IsRoused p =
      p.sub.stopped ≡ false
      → p.worker ≡ waiting
      → pending p.sub ≢ []
      → (p.wake ≡ true) ⊎ (0 < p.owed)

  outcome-IsRoused :
      (p : Pump A) (ev : A) (r : Subscription A × Outcome)
      → IsRoused p
      → Enqueues ev p.sub r
      → IsRoused (record_outcome ev r.1 (record p { sub = r.0 }))
  outcome-IsRoused p ev (s', refused n) i e = subst (λ s. IsRoused (record p { sub = s })) (sym e) i
  outcome-IsRoused p ev (s', direct) i (runs, calm, empty, space, e) =
      subst (λ s. IsRoused (record p { sub = s; accepted = p.accepted ++ ev ∷ [] })) (sym e)
        (λ r w q. i r w q)
  outcome-IsRoused p ev (s', queued n) i e = λ r w q. inr (omega arith)

  scanned-IsRoused :
      (p : Pump A) (r : Subscription A × Option A)
      → Nexts p.sub r
      → IsRoused (record p { sub = r.0; worker = worker_after r.1 })
  scanned-IsRoused p (s', none) (inl t, calm, out, stopped, same, range, empty) runs w q = cc
  scanned-IsRoused p (s', none) (inr e, calm, out, stopped, same, range, empty) runs w q =
      absurd (q (same ∙ e))
  scanned-IsRoused p (s', some ev) n runs w q = cc

  halted-IsRoused :
      (p : Pump A) (b : Bool)
      → p.sub.stopped ≡ b
      → IsRoused p
      → IsRoused (record p {
        sub =
            if b
            then p.sub
            else record p.sub { stopped = true; queue = []; head = 0; inflight = false };
      })
  halted-IsRoused p true e i = i
  halted-IsRoused p false e i = λ runs w q. cc

  Step-IsRoused :
      {p q : Pump A} → Step p q → p.sub.head ≤ length p.sub.queue → IsRoused p → IsRoused q
  unfolding publish scan signal push_out finish halt delivered stop
  Step-IsRoused {p} (publishes ev d) h i =
      outcome-IsRoused p ev (enqueue ev d p.sub) i (enqueue-Enqueues ev d p.sub h)
  Step-IsRoused {p} (signals s) h i = λ runs w q. inl refl
  Step-IsRoused {p} (scans w) h i = scanned-IsRoused p (next p.sub) (next-Nexts p.sub h)
  Step-IsRoused {p} (wakes w t) h i = λ runs v q. cc
  Step-IsRoused {p} (sends ev w t) h i = λ runs v q. cc
  Step-IsRoused {p} (finishes w) h i = λ runs v q. cc
  Step-IsRoused {p} (receives ev rest e) h i = λ runs w q. i runs w q
  Step-IsRoused {p} halts h i = halted-IsRoused p p.sub.stopped refl i
  Step-IsRoused {p} (exits w t) h i = λ runs v q. cc

  -- Under any interleaving, a subscription that runs has no lost wake-up: if its worker is blocked
  -- while events are queued, then the token that wakes it is in the channel, or a publisher that
  -- has queued an event is about to send it.
  pub no_lost_wakeup :
      {p : Pump A}
      → Reach start p
      → p.sub.stopped ≡ false
      → p.worker ≡ waiting
      → pending p.sub ≢ []
      → (p.wake ≡ true) ⊎ (0 < p.owed)
  unfolding start
  no_lost_wakeup here = λ runs w q. cc
  no_lost_wakeup (more r s) =
      Step-IsRoused s (Reach-IsOrdered r start-IsOrdered).head_in_range (no_lost_wakeup r)
