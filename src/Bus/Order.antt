-- ===== src/Bus/Order.antt =====
-- The order in which a subscription of internal/event/bus.go holds its events, as a predicate on the
-- state of its worker and its queue.
use mathlib.Core.Path.{subst}
use mathlib.Core.List.{append-nil, append_assoc}
use semantic_framework.Prelude.{
  ◌+◌, ◌≤◌, ◌≡◌, refl, sym, ap, ◌∙◌, Bool, true, false, Option, none, some, List, [], ◌∷◌, ◌++◌,
  length, length-append, drop, drop-append, arith,
}
use semantic_framework.Bus.Subscription.{
  Subscription, subscribe_buffer, Outcome, refused, direct, queued, enqueue, next, pending,
}
use semantic_framework.Bus.Next.{Nexts, next-Nexts, Enqueues, enqueue-Enqueues}
use semantic_framework.Bus.Pump.{
  Worker, scanning, waiting, sent, exited, holding, Pump, start, record_outcome, publish,
  worker_after, scan,
}

module _ {A : Type 0} where
  abbrev pub held : Worker A → List A
  held (holding ev) = ev ∷ []
  held scanning = []
  held waiting = []
  held sent = []
  held exited = []

  abbrev pub is_busy : Worker A → Bool
  is_busy (holding ev) = true
  is_busy sent = true
  is_busy scanning = false
  is_busy waiting = false
  is_busy exited = false

  -- The events that are on their way, the oldest first.
  abbrev pub in_transit : Pump A → List A
  in_transit p = p.sub.out ++ (held p.worker ++ pending p.sub)

  pub record IsOrdered (p : Pump A) : Type 0 where
    pub lost : List A
    pub line : p.received ++ (in_transit p ++ lost) ≡ p.accepted
    pub keeps_all : p.sub.stopped ≡ false → lost ≡ []
    pub head_in_range : p.sub.head ≤ length p.sub.queue
    pub busy : p.sub.stopped ≡ false → p.sub.inflight ≡ is_busy p.worker
    pub empty_when_stopped : p.sub.stopped ≡ true → p.sub.queue ≡ []
    pub buffered : length p.sub.out ≤ subscribe_buffer

  pub start-IsOrdered : IsOrdered start
  unfolding start
  start-IsOrdered = record {
    lost = [];
    line = refl;
    keeps_all = λ _. refl;
    head_in_range = omega arith;
    busy = λ _. refl;
    empty_when_stopped = λ _. refl;
    buffered = omega arith;
  }

  direct_line :
      (r o h q l acc : List A) (ev : A)
      → h ≡ []
      → q ≡ []
      → l ≡ []
      → r ++ ((o ++ (h ++ q)) ++ l) ≡ acc
      → r ++ (((o ++ ev ∷ []) ++ (h ++ q)) ++ l) ≡ acc ++ ev ∷ []
  direct_line r o h q l acc ev eh eq el line =
      let flat : r ++ o ≡ acc = simp append-nil at (rw (eh, eq, el) at line) in
      rw (eh, eq, el) (simp append-nil (rw (← flat) (sym (append_assoc r o (ev ∷ [])))))

  queued_line :
      (r o h q q' l acc : List A) (ev : A)
      → q' ≡ q ++ ev ∷ []
      → l ≡ []
      → r ++ ((o ++ (h ++ q)) ++ l) ≡ acc
      → r ++ ((o ++ (h ++ q')) ++ l) ≡ acc ++ ev ∷ []
  queued_line r o h q q' l acc ev eq el line =
      let flat : r ++ (o ++ (h ++ q)) ≡ acc = simp append-nil at (rw el at line) in
      rw (el, eq) (rw (← flat) (simp (append-nil, append_assoc)))

  not_busy : (w : Worker A) (b : Bool) → b ≡ is_busy w → b ≡ false → held w ≡ []
  not_busy (holding ev) b e f = cc
  not_busy scanning b e f = refl
  not_busy waiting b e f = refl
  not_busy sent b e f = refl
  not_busy exited b e f = refl

  outcome-IsOrdered :
      (p : Pump A) (ev : A) (r : Subscription A × Outcome)
      → IsOrdered p
      → Enqueues ev p.sub r
      → IsOrdered (record_outcome ev r.1 (record p { sub = r.0 }))
  outcome-IsOrdered p ev (s', refused n) o e =
      subst (λ s. IsOrdered (record p { sub = s })) (sym e) o
  outcome-IsOrdered p ev (s', direct) o (runs, calm, empty, space, e) =
      subst (λ s. IsOrdered (record p { sub = s; accepted = p.accepted ++ ev ∷ [] })) (sym e)
        (record {
          lost = o.lost;
          line =
              direct_line p.received p.sub.out (held p.worker) (pending p.sub) o.lost p.accepted ev
                (not_busy p.worker p.sub.inflight (o.busy runs) calm) empty (o.keeps_all runs)
                o.line;
          keeps_all = o.keeps_all;
          head_in_range = o.head_in_range;
          busy = o.busy;
          empty_when_stopped = o.empty_when_stopped;
          buffered = omega (arith, length-append p.sub.out (ev ∷ []));
        })
  outcome-IsOrdered p ev (s', queued n) o (runs, size, joined, e) =
      subst
        (λ s. IsOrdered (record p { sub = s; accepted = p.accepted ++ ev ∷ []; owed = p.owed + 1 }))
        (sym e)
        (record {
          lost = o.lost;
          line =
              queued_line p.received p.sub.out (held p.worker) (pending p.sub)
                (drop p.sub.head (p.sub.queue ++ ev ∷ [])) o.lost p.accepted ev
                (drop-append p.sub.head p.sub.queue (ev ∷ []) o.head_in_range) (o.keeps_all runs)
                o.line;
          keeps_all = o.keeps_all;
          head_in_range = omega (arith, o.head_in_range, length-append p.sub.queue (ev ∷ []));
          busy = o.busy;
          empty_when_stopped = λ t. cc;
          buffered = o.buffered;
        })

  pub publish-IsOrdered :
      (ev : A) (d : Bool) (p : Pump A) → IsOrdered p → IsOrdered (publish ev d p)
  unfolding publish
  publish-IsOrdered ev d p o =
      outcome-IsOrdered p ev (enqueue ev d p.sub) o (enqueue-Enqueues ev d p.sub o.head_in_range)

  scanned-IsOrdered :
      (p : Pump A) (r : Subscription A × Option A)
      → IsOrdered p
      → p.worker ≡ scanning
      → Nexts p.sub r
      → IsOrdered (record p { sub = r.0; worker = worker_after r.1 })
  scanned-IsOrdered p (s', none) o w (why, calm, out, stopped, same, range, empty) = record {
    lost = o.lost;
    line = rw (out, same) (rw w at o.line);
    keeps_all = λ t. o.keeps_all (sym stopped ∙ t);
    head_in_range = range;
    busy = λ t. calm ∙ (o.busy (sym stopped ∙ t) ∙ ap is_busy w);
    empty_when_stopped = λ t. empty (o.empty_when_stopped (sym stopped ∙ t));
    buffered = rw out o.buffered;
  }
  scanned-IsOrdered p (s', some ev) o w (runs, busy, out, stopped, taken, range) = record {
    lost = o.lost;
    line = rw (out, taken) (rw w at o.line);
    keeps_all = λ t. o.keeps_all runs;
    head_in_range = range;
    busy = λ t. busy;
    empty_when_stopped = λ t. cc;
    buffered = rw out o.buffered;
  }

  pub scan-IsOrdered : (p : Pump A) → IsOrdered p → p.worker ≡ scanning → IsOrdered (scan p)
  unfolding scan
  scan-IsOrdered p o w = scanned-IsOrdered p (next p.sub) o w (next-Nexts p.sub o.head_in_range)
