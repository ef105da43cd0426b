-- ===== src/Bus/Delivery.antt =====
-- The steps of a subscription of internal/event/bus.go and the order of its events.

use mathlib.Core.List.{append-nil, append_assoc}
use semantic_framework.Prelude.{
  ℕ, zero, suc, ◌≤◌, ◌<◌, ◌≡◌, refl, ap, ◌∙◌, Bool, true, false, List, [], ◌∷◌, ◌++◌, length,
  length-append, drop, arith, if◌then◌else◌,
}
use semantic_framework.Bus.Subscription.{subscribe_buffer, delivered, stop, pending}
use semantic_framework.Bus.Pump.{
  scanning, waiting, sent, exited, holding, Pump, start, signal, push_out, finish, halt, Step,
  publishes, signals, scans, wakes, sends, finishes, receives, halts, exits, Reach, here, more,
}
use semantic_framework.Bus.Order.{
  held, is_busy, in_transit, IsOrdered, start-IsOrdered, publish-IsOrdered, scan-IsOrdered,
}

module _ {A : Type 0} where
  push_out-IsOrdered :
      (ev : A) (p : Pump A)
      → IsOrdered p
      → p.worker ≡ holding ev
      → length p.sub.out < subscribe_buffer
      → IsOrdered (push_out ev p)
  unfolding push_out
  push_out-IsOrdered ev p o w space = record {
    lost = o.lost;
    line = simp append_assoc (simp append_assoc at (rw w at o.line));
    keeps_all = o.keeps_all;
    head_in_range = o.head_in_range;
    busy = λ t. o.busy t ∙ ap is_busy w;
    empty_when_stopped = o.empty_when_stopped;
    buffered = omega (arith, length-append p.sub.out (ev ∷ []));
  }

  finish-IsOrdered : (p : Pump A) → IsOrdered p → p.worker ≡ sent → IsOrdered (finish p)
  unfolding finish delivered
  finish-IsOrdered p o w = record {
    lost = o.lost;
    line = rw w at o.line;
    keeps_all = o.keeps_all;
    head_in_range = o.head_in_range;
    busy = λ t. refl;
    empty_when_stopped = o.empty_when_stopped;
    buffered = o.buffered;
  }

  wake-IsOrdered :
      (p : Pump A)
      → IsOrdered p
      → p.worker ≡ waiting
      → IsOrdered (record p { worker = scanning; wake = false })
  wake-IsOrdered p o w = record {
    lost = o.lost;
    line = rw w at o.line;
    keeps_all = o.keeps_all;
    head_in_range = o.head_in_range;
    busy = λ t. o.busy t ∙ ap is_busy w;
    empty_when_stopped = o.empty_when_stopped;
    buffered = o.buffered;
  }

  receive-IsOrdered :
      (ev : A) (rest : List A) (p : Pump A)
      → IsOrdered p
      → p.sub.out ≡ ev ∷ rest
      → IsOrdered (record p { sub = record p.sub { out = rest }; received = p.received ++ ev ∷ [] })
  receive-IsOrdered ev rest p o e = record {
    lost = o.lost;
    line = simp append_assoc (simp append_assoc at (rw e at o.line));
    keeps_all = o.keeps_all;
    head_in_range = o.head_in_range;
    busy = o.busy;
    empty_when_stopped = o.empty_when_stopped;
    buffered = omega (arith, o.buffered, ap length e);
  }

  -- Stopping drops what is pending.
  stopped_now :
      (p : Pump A)
      → IsOrdered p
      → (b : Bool) → p.sub.stopped ≡ b
      → IsOrdered (record p {
        sub =
            if b
            then p.sub
            else record p.sub { stopped = true; queue = []; head = 0; inflight = false };
      })
  stopped_now p o true e = o
  stopped_now p o false e = record {
    lost = pending p.sub ++ o.lost;
    line = simp append_assoc (simp append_assoc at o.line);
    keeps_all = λ t. cc;
    head_in_range = omega arith;
    busy = λ t. cc;
    empty_when_stopped = λ t. refl;
    buffered = o.buffered;
  }

  halt-IsOrdered : (p : Pump A) → IsOrdered p → IsOrdered (halt p)
  unfolding halt stop
  halt-IsOrdered p o = stopped_now p o p.sub.stopped refl

  exit_line :
      (r o h q l acc : List A)
      → q ≡ []
      → r ++ ((o ++ (h ++ q)) ++ l) ≡ acc
      → r ++ ((o ++ ([] ++ q)) ++ (h ++ l)) ≡ acc
  exit_line r o h q l acc e line =
      rw e (simp append-nil (simp (append_assoc, append-nil) at (rw e at line)))

  drop_nil : (n : ℕ) (q : List A) → q ≡ [] → drop n q ≡ []
  drop_nil zero q e = e
  drop_nil (suc n) [] e = refl
  drop_nil (suc n) (x ∷ q) e = cc

  exit-IsOrdered :
      (p : Pump A) → IsOrdered p → p.sub.stopped ≡ true → IsOrdered (record p { worker = exited })
  exit-IsOrdered p o t = record {
    lost = held p.worker ++ o.lost;
    line =
        exit_line p.received p.sub.out (held p.worker) (pending p.sub) o.lost p.accepted
          (drop_nil p.sub.head p.sub.queue (o.empty_when_stopped t)) o.line;
    keeps_all = λ f. cc;
    head_in_range = o.head_in_range;
    busy = λ f. cc;
    empty_when_stopped = o.empty_when_stopped;
    buffered = o.buffered;
  }

  Step-IsOrdered : {p q : Pump A} → Step p q → IsOrdered p → IsOrdered q
  unfolding signal
  Step-IsOrdered {p} (publishes ev d) o = publish-IsOrdered ev d p o
  Step-IsOrdered {p} (signals h) o = record {
    lost = o.lost;
    line = o.line;
    keeps_all = o.keeps_all;
    head_in_range = o.head_in_range;
    busy = o.busy;
    empty_when_stopped = o.empty_when_stopped;
    buffered = o.buffered;
  }
  Step-IsOrdered {p} (scans w) o = scan-IsOrdered p o w
  Step-IsOrdered {p} (wakes w h) o = wake-IsOrdered p o w
  Step-IsOrdered {p} (sends ev w h) o = push_out-IsOrdered ev p o w h
  Step-IsOrdered {p} (finishes w) o = finish-IsOrdered p o w
  Step-IsOrdered {p} (receives ev rest e) o = receive-IsOrdered ev rest p o e
  Step-IsOrdered {p} halts o = halt-IsOrdered p o
  Step-IsOrdered {p} (exits w t) o = exit-IsOrdered p o t

  pub Reach-IsOrdered : {p q : Pump A} → Reach p q → IsOrdered p → IsOrdered q
  Reach-IsOrdered here o = o
  Reach-IsOrdered (more r s) o = Step-IsOrdered s (Reach-IsOrdered r o)

  -- Under any interleaving of publishers, worker and reader, as long as the subscription has not
  -- been stopped: the events that were accepted are, in this order, those that the reader has
  -- received, those in the channel, the one that the worker holds, and those in the queue. None
  -- is lost, none comes twice, and none overtakes another.
  pub accepted-in_order :
      {p : Pump A}
      → Reach start p
      → p.sub.stopped ≡ false
      → p.received ++ (p.sub.out ++ (held p.worker ++ pending p.sub)) ≡ p.accepted
  accepted-in_order r runs =
      let o = Reach-IsOrdered r start-IsOrdered in
      simp append-nil at (rw (o.keeps_all runs) at o.line)

  -- Stopped or not, the reader has received an initial part of what was accepted, and the channel
  -- holds at most 64 events.
  pub received-IsInitial :
      {p : Pump A}
      → Reach start p
      → ((rest : List A) × (p.received ++ rest ≡ p.accepted))
        × (length p.sub.out ≤ subscribe_buffer)
  received-IsInitial {p} r =
      let o = Reach-IsOrdered r start-IsOrdered in ((in_transit p ++ o.lost, o.line), o.buffered)
