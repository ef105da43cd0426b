-- ===== src/Bus/Next.antt =====
-- The critical sections `next` and `enqueue` of internal/event/bus.go and the pending events.
use native.Mathlib.Numerals.{add-one}
use semantic_framework.Prelude.{
  ℕ, suc, ◌+◌, ◌-◌, ◌≤◌, ◌<◌, ◌≡◌, refl, sym, ap, ◌∙◌, ◌⊎◌, inl, inr, Bool, true, false, not, ◌&&◌,
  ◌||◌, Option, none, some, List, [], ◌∷◌, ◌++◌, length, length-drop, drop, drop-eq-nil,
  drop-get_elem?, drop-append, get_elem?, get_elem?-IsSome, arith, ltb, leb, eqb, or-eq-true,
  or-eq-false, and-eq-true, not-eq-true, if◌then◌else◌,
}
use semantic_framework.Bus.Subscription.{
  Subscription, subscribe_buffer, Outcome, refused, direct, queued, is_idle, enqueue, take_head,
  next, pending,
}

module _ {A : Type 0} where
  -- What `next` does to a subscription, by its answer.
  abbrev pub Nexts : Subscription A → Subscription A × Option A → Type 0
  Nexts s (s', none) =
      ((s.stopped ≡ true) ⊎ (pending s ≡ []))
      × (s'.inflight ≡ s.inflight)
      × (s'.out ≡ s.out)
      × (s'.stopped ≡ s.stopped)
      × (pending s' ≡ pending s)
      × (s'.head ≤ length s'.queue)
      × (s.queue ≡ [] → s'.queue ≡ [])
  Nexts s (s', some ev) =
      (s.stopped ≡ false)
      × (s'.inflight ≡ true)
      × (s'.out ≡ s.out)
      × (s'.stopped ≡ s.stopped)
      × (ev ∷ pending s' ≡ pending s)
      × (s'.head ≤ length s'.queue)

  advance-Nexts :
      (s : Subscription A) (ev : A) (b : Bool)
      → eqb (s.head + 1) (length s.queue) ≡ b
      → s.stopped ≡ false
      → ltb s.head (length s.queue) ≡ true
      → pending s ≡ ev ∷ drop (suc s.head) s.queue
      → Nexts s (
        (if b
            then record s { queue = []; head = 0; inflight = true }
            else record s { head = s.head + 1; inflight = true }),
        some ev,
      )
  advance-Nexts s ev true last runs room p = (
    runs,
    refl,
    refl,
    refl,
    ap (λ (l : List A). ev ∷ l) (sym (drop-eq-nil (suc s.head) s.queue (ground arith))) ∙ sym p,
    omega arith,
  )
  advance-Nexts s ev false last runs room p =
      (runs, refl, refl, refl, rw add-one (sym p), ground arith)

  take_head-Nexts :
      (s : Subscription A) (o : Option A)
      → get_elem? s.queue s.head ≡ o
      → s.stopped ≡ false
      → ltb s.head (length s.queue) ≡ true
      → Nexts s (take_head o s)
  take_head-Nexts s none e runs room =
      let (x, found) = get_elem?-IsSome s.head s.queue (ground arith) in cc
  take_head-Nexts s (some ev) e runs room =
      advance-Nexts s ev (eqb (s.head + 1) (length s.queue)) refl runs room
        (drop-get_elem? s.head s.queue ev e)

  nothing-Nexts :
      (s : Subscription A) (b : Bool)
      → leb (length s.queue) s.head ≡ b
      → (s.stopped ≡ true) ⊎ (b ≡ true)
      → s.head ≤ length s.queue
      → Nexts s ((if b then record s { queue = []; head = 0 } else s), none)
  nothing-Nexts s true e why h =
      let empty : pending s ≡ [] = drop-eq-nil s.head s.queue (ground arith) in
      (inr empty, refl, refl, refl, sym empty, omega arith, λ _. refl)
  nothing-Nexts s false e (inl stopped) h = (inl stopped, refl, refl, refl, refl, h, λ q. q)
  nothing-Nexts s false e (inr no_room) h = cc

  pub next-Nexts : (s : Subscription A) → s.head ≤ length s.queue → Nexts s (next s)
  unfolding next
  next-Nexts s h = go (s.stopped || leb (length s.queue) s.head) refl
    where
      go :
          (b : Bool)
          → (s.stopped || leb (length s.queue) s.head) ≡ b
          → Nexts s (
              if b
              then (
                (if leb (length s.queue) s.head then record s { queue = []; head = 0 } else s),
                none,
              )
              else take_head (get_elem? s.queue s.head) s)
      go true e =
          nothing-Nexts s (leb (length s.queue) s.head) refl
            (or-eq-true s.stopped (leb (length s.queue) s.head) e) h
      go false e =
          let (runs, room) = or-eq-false s.stopped (leb (length s.queue) s.head) e in
          take_head-Nexts s (get_elem? s.queue s.head) refl runs (ground arith)

  -- What `enqueue` does with an event, by its outcome.
  abbrev pub Enqueues : A → Subscription A → Subscription A × Outcome → Type 0
  Enqueues ev s (s', refused n) = s' ≡ s
  Enqueues ev s (s', direct) =
      (s.stopped ≡ false)
      × (s.inflight ≡ false)
      × (pending s ≡ [])
      × (length s.out < subscribe_buffer)
      × (s' ≡ record s { out = s.out ++ ev ∷ [] })
  Enqueues ev s (s', queued n) =
      (s.stopped ≡ false)
      × (n ≡ length (pending s) + 1)
      × (pending s' ≡ pending s ++ ev ∷ [])
      × (s' ≡ record s { queue = s.queue ++ ev ∷ [] })

  pub enqueue-Enqueues :
      (ev : A) (droppable : Bool) (s : Subscription A)
      → s.head ≤ length s.queue
      → Enqueues ev s (enqueue ev droppable s)
  unfolding enqueue
  enqueue-Enqueues ev droppable s h = go s.stopped refl
    where
      room : Bool
      room = is_idle s && ltb (length s.out) subscribe_buffer

      full : Bool
      full = droppable && leb subscribe_buffer (length s.queue - s.head)

      append :
          s.stopped ≡ false
          → Enqueues ev s
              (record s { queue = s.queue ++ ev ∷ [] }, queued (length s.queue - s.head + 1))
      append runs = (
        runs,
        ap (λ (n : ℕ). n + 1) (sym (length-drop s.head s.queue)),
        drop-append s.head s.queue (ev ∷ []) h,
        refl,
      )

      later :
          (b : Bool)
          → s.stopped ≡ false
          → Enqueues ev s (
              if b
              then (s, refused (length s.queue - s.head))
              else (record s { queue = s.queue ++ ev ∷ [] }, queued (length s.queue - s.head + 1)))
      later true runs = refl
      later false runs = append runs

      first :
          (b : Bool)
          → room ≡ b
          → s.stopped ≡ false
          → Enqueues ev s (
              if b
              then (record s { out = s.out ++ ev ∷ [] }, direct)
              else if full
              then (s, refused (length s.queue - s.head))
              else (record s { queue = s.queue ++ ev ∷ [] }, queued (length s.queue - s.head + 1)))
      first true e runs =
          let (idle, space) = and-eq-true (is_idle s) (ltb (length s.out) subscribe_buffer) e in
          let (calm, none_waits) =
            and-eq-true (not s.inflight) (leb (length s.queue) s.head) idle in
          (
            runs,
            not-eq-true s.inflight calm,
            drop-eq-nil s.head s.queue (ground arith),
            ground arith,
            refl,
          )
      first false e runs = later full runs

      go :
          (b : Bool)
          → s.stopped ≡ b
          → Enqueues ev s (
              if b
              then (s, refused 0)
              else if room
              then (record s { out = s.out ++ ev ∷ [] }, direct)
              else if full
              then (s, refused (length s.queue - s.head))
              else (record s { queue = s.queue ++ ev ∷ [] }, queued (length s.queue - s.head + 1)))
      go true e = refl
      go false e = first room refl e
