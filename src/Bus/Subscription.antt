-- ===== src/Bus/Subscription.antt =====
-- `subscription` of internal/event/bus.go: the methods, each one critical section of its lock.
-- `out` is what the channel buffers, at most `subscribe_buffer` events.
use semantic_framework.Prelude.{
  ℕ, ◌+◌, ◌-◌, Bool, true, false, not, ◌&&◌, ◌||◌, Option, none, some, List, [], ◌∷◌, ◌++◌, length,
  drop, get_elem?, ltb, leb, eqb, if◌then◌else◌,
}

abbrev pub subscribe_buffer : ℕ
subscribe_buffer = 64

pub record Subscription (A : Type 0) : Type 0 where
  pub out : List A
  pub queue : List A
  pub head : ℕ
  pub inflight : Bool
  pub stopped : Bool

-- What `enqueue` did with the event: refused, put into the channel, or queued with the backlog
-- after it. Only a queued event is followed by a wake-up.
pub data Outcome : Type 0 where
  refused : ℕ → Outcome
  direct : Outcome
  queued : ℕ → Outcome

module _ {A : Type 0} where
  unfoldable pub new_subscription : Subscription A
  new_subscription = record { out = []; queue = []; head = 0; inflight = false; stopped = false }

  abbrev pub is_idle : Subscription A → Bool
  is_idle s = not s.inflight && leb (length s.queue) s.head

  unfoldable pub enqueue : A → Bool → Subscription A → Subscription A × Outcome
  enqueue ev droppable s =
      let backlog = length s.queue - s.head in
      if s.stopped
      then (s, refused 0)
      else if is_idle s && ltb (length s.out) subscribe_buffer
      then (record s { out = s.out ++ ev ∷ [] }, direct)
      else if droppable && leb subscribe_buffer backlog
      then (s, refused backlog)
      else (record s { queue = s.queue ++ ev ∷ [] }, queued (backlog + 1))

  -- The queue after its head has been taken; an emptied queue is reset.
  abbrev pub advance : Subscription A → Subscription A
  advance s =
      if eqb (s.head + 1) (length s.queue)
      then record s { queue = []; head = 0; inflight = true }
      else record s { head = s.head + 1; inflight = true }

  abbrev pub take_head : Option A → Subscription A → Subscription A × Option A
  take_head none s = (s, none)
  take_head (some ev) s = (advance s, some ev)

  -- An index out of range would panic; `take_head` is called with the head in range.
  unfoldable pub next : Subscription A → Subscription A × Option A
  next s =
      if s.stopped || leb (length s.queue) s.head
      then ((if leb (length s.queue) s.head then record s { queue = []; head = 0 } else s), none)
      else take_head (get_elem? s.queue s.head) s

  unfoldable pub delivered : Subscription A → Subscription A
  delivered s = record s { inflight = false }

  unfoldable pub stop : Subscription A → Subscription A
  stop s =
      if s.stopped then s else record s { stopped = true; queue = []; head = 0; inflight = false }

  -- The events that wait in the queue.
  abbrev pub pending : Subscription A → List A
  pending s = drop s.head s.queue
