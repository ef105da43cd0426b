-- ===== src/Bus/Pump.antt =====
-- One subscription with its worker (`run`), its publishers and its reader, as a step relation: any
-- interleaving of their critical sections and channel operations.
use semantic_framework.Prelude.{
  ℕ, ◌+◌, ◌-◌, ◌<◌, ◌≡◌, ◌⊎◌, Bool, true, false, Option, none, some, List, [], ◌∷◌, ◌++◌, length,
}
use semantic_framework.Bus.Subscription.{
  Subscription, new_subscription, subscribe_buffer, Outcome, refused, direct, queued, enqueue, next,
  delivered, stop,
}

-- Where the worker stands: before `next`, blocked on `wake`, with an event to send, after the
-- send and before `delivered`, or returned.
pub data Worker (A : Type 0) : Type 0 where
  scanning waiting sent exited : Worker A
  holding : A → Worker A

-- `wake` is the token in the channel `wake`; `owed` counts the publishers that have queued an event
-- and not yet sent the token. `accepted` logs what `enqueue` accepted, and `received` what the
-- reader has taken from the channel.
pub record Pump (A : Type 0) : Type 0 where
  pub sub : Subscription A
  pub worker : Worker A
  pub wake : Bool
  pub owed : ℕ
  pub accepted : List A
  pub received : List A

module _ {A : Type 0} where
  unfoldable pub start : Pump A
  unfolding new_subscription
  start = record {
    sub = new_subscription;
    worker = scanning;
    wake = false;
    owed = 0;
    accepted = [];
    received = [];
  }

  -- The log and the token that an outcome of `enqueue` leaves to do.
  abbrev pub record_outcome : A → Outcome → Pump A → Pump A
  record_outcome ev (refused n) p = p
  record_outcome ev direct p = record p { accepted = p.accepted ++ ev ∷ [] }
  record_outcome ev (queued n) p = record p { accepted = p.accepted ++ ev ∷ []; owed = p.owed + 1 }

  unfoldable pub publish : A → Bool → Pump A → Pump A
  unfolding enqueue
  publish ev droppable p =
      let (sub, outcome) = enqueue ev droppable p.sub in
      record_outcome ev outcome (record p { sub = sub })

  -- The token is sent, or one is there already.
  unfoldable pub signal : Pump A → Pump A
  signal p = record p { wake = true; owed = p.owed - 1 }

  abbrev pub worker_after : Option A → Worker A
  worker_after none = waiting
  worker_after (some ev) = holding ev

  -- The top of the loop of `run`.
  unfoldable pub scan : Pump A → Pump A
  unfolding next
  scan p = let (sub, ev) = next p.sub in record p { sub = sub; worker = worker_after ev }

  unfoldable pub push_out : A → Pump A → Pump A
  push_out ev p = record p { sub = record p.sub { out = p.sub.out ++ ev ∷ [] }; worker = sent }

  unfoldable pub finish : Pump A → Pump A
  unfolding delivered
  finish p = record p { sub = delivered p.sub; worker = scanning }

  unfoldable pub halt : Pump A → Pump A
  unfolding stop
  halt p = record p { sub = stop p.sub }

  pub data Step (p : Pump A) : Pump A → Type 0 where
    publishes : (ev : A) (droppable : Bool) → Step p (publish ev droppable p)
    signals : 0 < p.owed → Step p (signal p)
    scans : p.worker ≡ scanning → Step p (scan p)
    wakes :
        p.worker ≡ waiting → p.wake ≡ true → Step p (record p { worker = scanning; wake = false })
    sends :
        (ev : A)
        → p.worker ≡ holding ev
        → length p.sub.out < subscribe_buffer
        → Step p (push_out ev p)
    finishes : p.worker ≡ sent → Step p (finish p)
    receives :
        (ev : A) (rest : List A)
        → p.sub.out ≡ ev ∷ rest
        → Step p (record p { sub = record p.sub { out = rest }; received = p.received ++ ev ∷ [] })
    halts : Step p (halt p)
    exits :
        (p.worker ≡ waiting) ⊎ ((ev : A) × (p.worker ≡ holding ev))
        → p.sub.stopped ≡ true
        → Step p (record p { worker = exited })

  pub data Reach (p : Pump A) : Pump A → Type 0 where
    here : Reach p p
    more : {q r : Pump A} → Reach p q → Step q r → Reach p r
