-- ===== src/Bus/Routing.antt =====
-- Subscribers and their topics in internal/event/bus.go: publishing and unsubscribing.
use mathlib.Core.Path.{subst}
use semantic_framework.Prelude.{
  ℕ, ◌+◌, ◌-◌, ◌≤◌, String, ◌≡◌, refl, sym, ap, ◌∙◌, inl, inr, Bool, true, false, ◌&&◌, Option,
  none, some, List, [], ◌∷◌, ◌++◌, ◌==◌, eqb, leb, ltb, length, length-append, arith, if◌then◌else◌,
  Bool-cases, All, All-append, append_nil, append_assoc,
}
use semantic_framework.Bus.Subscription.{
  Subscription, subscribe_buffer, is_idle, Outcome, refused, direct, queued, enqueue, stop, pending,
}
use semantic_framework.Bus.Next.{Enqueues, enqueue-Enqueues}
use semantic_framework.Bus.Topics.{
  Route, Bus, deliver, publish_to, publish_event, publish_reliable, publish_droppable, keep_others,
  stop_these, unsubscribe, route_of,
}

-- `accepted`, the first result of `enqueue`.
abbrev pub accepts : Outcome → Bool
accepts (refused n) = false
accepts direct = true
accepts (queued n) = true

-- A queued event has at most 64 events in its backlog, itself included.
abbrev IsSmall : Outcome → Type 0
IsSmall (queued n) = n ≤ subscribe_buffer
IsSmall direct = Unit
IsSmall (refused n) = Unit

module _ {A : Type 0} where
  abbrev map_route : (Route A → Route A) → Option (Route A) → Option (Route A)
  map_route f none = none
  map_route f (some r) = some (f r)

  abbrev pub receive : String → A → Bool → Route A → Route A
  receive topic ev droppable r = if r.topic == topic then deliver ev droppable r else r

  receive-channel :
      (topic : String) (ev : A) (d : Bool) (r : Route A)
      → (receive topic ev d r).channel ≡ r.channel
  receive-channel topic ev d r = go (r.topic == topic)
    where
      go : (b : Bool) → (if b then deliver ev d r else r).channel ≡ r.channel
      go true = refl
      go false = refl

  route_of-publish_to :
      (c : ℕ) (topic : String) (ev : A) (d : Bool) (rs : List (Route A))
      → route_of c (publish_to topic ev d rs) ≡ map_route (receive topic ev d) (route_of c rs)
  unfolding publish_to route_of
  route_of-publish_to c topic ev d [] = refl
  route_of-publish_to c topic ev d (r ∷ rs) =
      rw (receive-channel topic ev d r) (go (route_of-publish_to c topic ev d rs) (eqb r.channel c))
    where
      go :
          route_of c (publish_to topic ev d rs) ≡ map_route (receive topic ev d) (route_of c rs)
          → (b : Bool)
          → (if b then some (receive topic ev d r) else route_of c (publish_to topic ev d rs))
            ≡ map_route (receive topic ev d) (if b then some r else route_of c rs)
      go h true = refl
      go h false = h

  -- What a subscriber still has to get, in order: the channel, the event that its worker has taken,
  -- and the queue.
  abbrev pub line : List A → Subscription A → List A
  line taken s = s.out ++ (taken ++ pending s)

  -- The event is the last one of the line, whatever the worker has taken; it has taken nothing when
  -- nothing is in flight.
  abbrev pub IsLast : A → Subscription A → Subscription A → Type 0
  IsLast ev s s' =
      (taken : List A) → (s.inflight ≡ false → taken ≡ []) → line taken s' ≡ line taken s ++ ev ∷ []

  enqueue-accepts :
      (ev : A) (s : Subscription A) → s.stopped ≡ false → accepts (enqueue ev false s).1 ≡ true
  unfolding enqueue
  enqueue-accepts ev s runs = go s.stopped (is_idle s && ltb (length s.out) subscribe_buffer) runs
    where
      here : Subscription A × Outcome
      here = (record s { out = s.out ++ ev ∷ [] }, direct)

      later : Subscription A × Outcome
      later = (record s { queue = s.queue ++ ev ∷ [] }, queued (length s.queue - s.head + 1))

      go :
          (a b : Bool)
          → a ≡ false
          → (let r : Subscription A × Outcome =
                if a then (s, refused 0) else if b then here else later in
              accepts r.1 ≡ true)
      go true b e = cc
      go false true e = refl
      go false false e = refl

  Enqueues-IsLast :
      (ev : A) (s : Subscription A) (r : Subscription A × Outcome)
      → Enqueues ev s r
      → accepts r.1 ≡ true
      → IsLast ev s r.0
  Enqueues-IsLast ev s (s', refused n) e a = cc
  Enqueues-IsLast ev s (s', direct) (runs, calm, empty, space, e) a = λ taken none_taken.
      let nothing : taken ≡ [] = none_taken calm in
      let back : taken ++ pending s ≡ [] = ap (λ l. l ++ pending s) nothing ∙ empty in
      ap (line taken) e
      ∙ ap (λ l. (s.out ++ ev ∷ []) ++ l) back
      ∙ append_nil (s.out ++ ev ∷ [])
      ∙ ap (λ l. l ++ ev ∷ []) (sym (ap (λ l. s.out ++ l) back ∙ append_nil s.out))
  Enqueues-IsLast ev s (s', queued n) (runs, size, back, e) a = λ taken none_taken.
      ap (λ l. l ++ (taken ++ pending s')) (ap (λ (t : Subscription A). t.out) e)
      ∙ ap (λ l. s.out ++ (taken ++ l)) back
      ∙ ap (λ l. s.out ++ l) (sym (append_assoc taken (pending s) (ev ∷ [])))
      ∙ sym (append_assoc s.out (taken ++ pending s) (ev ∷ []))

  -- A reliable event reaches every subscriber of its topic that has not been stopped, behind all that
  -- is already on its way to it: the channel, the event in flight and the queue; a subscriber of
  -- another topic is left as it was.
  pub publish_reliable-reaches :
      (c : ℕ) (topic : String) (ev : A) (b : Bus A) (r : Route A)
      → route_of c b.routes ≡ some r
      → r.sub.stopped ≡ false
      → r.sub.head ≤ length r.sub.queue
      → (r' : Route A) × ((route_of c (publish_reliable topic ev b).routes ≡ some r')
          × (((r.topic == topic) ≡ true → IsLast ev r.sub r'.sub)
              × ((r.topic == topic) ≡ false → r' ≡ r)))
  unfolding publish_event
  publish_reliable-reaches c topic ev b r found runs h = (
    receive topic ev false r,
    (
      route_of-publish_to c topic ev false b.routes ∙ ap (map_route (receive topic ev false)) found,
      (
        λ same. rw same (
            Enqueues-IsLast ev r.sub (enqueue ev false r.sub) (enqueue-Enqueues ev false r.sub h)
              (enqueue-accepts ev r.sub runs)),
        λ other. rw other refl,
      ),
    ),
  )

  enqueue-IsSmall : (ev : A) (s : Subscription A) → IsSmall (enqueue ev true s).1
  unfolding enqueue
  enqueue-IsSmall ev s =
      go s.stopped (is_idle s && ltb (length s.out) subscribe_buffer)
        (leb subscribe_buffer (length s.queue - s.head)) refl
    where
      here : Subscription A × Outcome
      here = (record s { out = s.out ++ ev ∷ [] }, direct)

      later : Subscription A × Outcome
      later = (record s { queue = s.queue ++ ev ∷ [] }, queued (length s.queue - s.head + 1))

      go :
          (a b c : Bool)
          → leb subscribe_buffer (length s.queue - s.head) ≡ c
          → (let r : Subscription A × Outcome =
                if a
                then (s, refused 0)
                else if b
                then here
                else if c
                then (s, refused (length s.queue - s.head))
                else later in
              IsSmall r.1)
      go true b c e = tt
      go false true c e = tt
      go false false true e = tt
      go false false false e = ground arith

  Enqueues-bound :
      (ev : A) (s : Subscription A) (r : Subscription A × Outcome)
      → Enqueues ev s r
      → IsSmall r.1
      → length (pending s) ≤ subscribe_buffer
      → length (pending r.0) ≤ subscribe_buffer
  Enqueues-bound ev s (s', refused n) e small h =
      subst (λ (t : Subscription A). length (pending t) ≤ subscribe_buffer) (sym e) h
  Enqueues-bound ev s (s', direct) (runs, calm, empty, space, e) small h =
      subst (λ (t : Subscription A). length (pending t) ≤ subscribe_buffer) (sym e) h
  Enqueues-bound ev s (s', queued n) (runs, size, back, e) small h =
      omega (arith, size, small, ap length back, length-append (pending s) (ev ∷ []))

  receive-bound :
      (topic : String) (ev : A) (r : Route A)
      → r.sub.head ≤ length r.sub.queue
      → length (pending r.sub) ≤ subscribe_buffer
      → length (pending (receive topic ev true r).sub) ≤ subscribe_buffer
  receive-bound topic ev r h small = go (r.topic == topic)
    where
      go : (b : Bool) → length (pending (if b then deliver ev true r else r).sub) ≤ subscribe_buffer
      go true =
          Enqueues-bound ev r.sub (enqueue ev true r.sub) (enqueue-Enqueues ev true r.sub h)
            (enqueue-IsSmall ev r.sub) small
      go false = small

  -- Droppable events alone never let the backlog of a subscriber grow above 64 events, however slow
  -- it reads.
  pub publish_droppable-bound :
      (c : ℕ) (topic : String) (ev : A) (b : Bus A) (r : Route A)
      → route_of c b.routes ≡ some r
      → r.sub.head ≤ length r.sub.queue
      → length (pending r.sub) ≤ subscribe_buffer
      → (r' : Route A) × ((route_of c (publish_droppable topic ev b).routes ≡ some r')
          × (length (pending r'.sub) ≤ subscribe_buffer))
  unfolding publish_event
  publish_droppable-bound c topic ev b r found h small = (
    receive topic ev true r,
    (
      route_of-publish_to c topic ev true b.routes ∙ ap (map_route (receive topic ev true)) found,
      receive-bound topic ev r h small,
    ),
  )

  none_for : (c : ℕ) (rs : List (Route A)) → route_of c (keep_others c rs) ≡ none
  unfolding route_of keep_others
  none_for c [] = refl
  none_for c (r ∷ rs) = elim (Bool-cases (eqb r.channel c)) [
    | inl e ↦ rw e (none_for c rs)
    | inr e ↦ rw e (rw e (none_for c rs))
  ]

  others_kept :
      (c d : ℕ) (rs : List (Route A))
      → eqb d c ≡ false
      → route_of d (keep_others c rs) ≡ route_of d rs
  unfolding route_of keep_others
  others_kept c d [] other = refl
  others_kept c d (r ∷ rs) other = elim (Bool-cases (eqb r.channel c)) [
    | inl e ↦
        let apart : eqb r.channel d ≡ false = ground arith in
        rw (e, apart) (others_kept c d rs other)
    | inr e ↦ rw e (ap (λ o. if eqb r.channel d then some r else o) (others_kept c d rs other))
  ]

  stop-IsStopped : (s : Subscription A) → (stop s).stopped ≡ true
  unfolding stop
  stop-IsStopped s = go s.stopped refl
    where
      go :
          (b : Bool)
          → s.stopped ≡ b
          → (if b
              then s
              else record s { stopped = true; queue = []; head = 0; inflight = false }).stopped
            ≡ true
      go true e = e
      go false e = refl

  these-stopped :
      (c : ℕ) (rs : List (Route A)) → All (λ (r : Route A). r.sub.stopped ≡ true) (stop_these c rs)
  unfolding stop_these
  these-stopped c [] = tt
  these-stopped c (r ∷ rs) = elim (Bool-cases (eqb r.channel c)) [
    | inl e ↦ rw e (stop-IsStopped r.sub, these-stopped c rs)
    | inr e ↦ rw e (these-stopped c rs)
  ]

  -- Unsubscribing a channel takes every route of it out of the table, stops its subscriptions, and
  -- leaves the routes of all other channels as they were.
  pub unsubscribe-removes :
      (c d : ℕ) (b : Bus A)
      → eqb d c ≡ false
      → All (λ (r : Route A). r.sub.stopped ≡ true) b.stopped
      → (route_of c (unsubscribe c b).routes ≡ none)
        × ((route_of d (unsubscribe c b).routes ≡ route_of d b.routes)
            × All (λ (r : Route A). r.sub.stopped ≡ true) (unsubscribe c b).stopped)
  unfolding unsubscribe
  unsubscribe-removes c d b other before = (
    none_for c b.routes,
    (
      others_kept c d b.routes other,
      All-append (λ (r : Route A). r.sub.stopped ≡ true) b.stopped (stop_these c b.routes) before
          (these-stopped c b.routes),
    ),
  )
