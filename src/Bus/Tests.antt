-- ===== src/Bus/Tests.antt =====
-- A run of one subscription of internal/event/bus.go with a full channel and a blocked worker.
use semantic_framework.Prelude.{
  ℕ, zero, suc, ◌<◌, ◌≤◌, ◌≡◌, refl, ◌⊎◌, true, false, List, ◌++◌, length,
}
use semantic_framework.Bus.Subscription.{new_subscription, subscribe_buffer, enqueue, next, pending}
use semantic_framework.Bus.Pump.{Pump, start, publish, scan, publishes, scans, Reach, here, more}
use semantic_framework.Bus.Order.{held}
use semantic_framework.Bus.Delivery.{accepted-in_order, received-IsInitial}
use semantic_framework.Bus.Wakeup.{no_lost_wakeup}
use semantic_framework.Bus.Drain.{accepted-drains}

-- `n` publications, none of them droppable.
unfoldable publish_many : ℕ → Pump ℕ → Pump ℕ
publish_many zero p = p
publish_many (suc n) p = publish n false (publish_many n p)

publish_many-Reach : (n : ℕ) {p q : Pump ℕ} → Reach p q → Reach p (publish_many n q)
unfolding publish_many
publish_many-Reach zero r = r
publish_many-Reach (suc n) r = more (publish_many-Reach n r) (publishes n false)

-- The worker has found nothing and sleeps; 66 events come, and two have to wait in the queue.
abbrev crowded : Pump ℕ
crowded = publish_many 66 (scan start)

abbrev crowded-Reach : Reach start crowded
unfolding start new_subscription
crowded-Reach = publish_many-Reach 66 (more here (scans refl))

accepted-in_order_example :
    crowded.received ++ (crowded.sub.out ++ (held crowded.worker ++ pending crowded.sub))
    ≡ crowded.accepted
unfolding start new_subscription scan next publish publish_many enqueue
accepted-in_order_example = accepted-in_order crowded-Reach refl

received-IsInitial_example :
    ((rest : List ℕ) × (crowded.received ++ rest ≡ crowded.accepted))
    × (length crowded.sub.out ≤ subscribe_buffer)
received-IsInitial_example = received-IsInitial crowded-Reach

no_lost_wakeup_example : (crowded.wake ≡ true) ⊎ (0 < crowded.owed)
unfolding start new_subscription scan next publish publish_many enqueue
no_lost_wakeup_example = no_lost_wakeup crowded-Reach refl refl (λ e. cc)

accepted-drains_example :
    (q : Pump ℕ) × Reach crowded q
    × (q.accepted ≡ crowded.accepted)
    × (q.received ≡ crowded.accepted)
unfolding start new_subscription scan next publish publish_many enqueue
accepted-drains_example = accepted-drains crowded-Reach refl
