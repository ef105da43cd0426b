-- ===== src/Bus/RoutingTests.antt =====
-- A bus with two subscribers of one topic and one of another.
use semantic_framework.Prelude.{ℕ, ◌≤◌, ◌≡◌, refl, true, false, some, length, arith, ◌==◌}
use semantic_framework.Bus.Subscription.{new_subscription, subscribe_buffer, pending}
use semantic_framework.Bus.Topics.{
  Route, Bus, new_bus, subscribe, publish_reliable, publish_droppable, route_of,
}
use semantic_framework.Bus.Routing.{IsLast, publish_reliable-reaches, publish_droppable-bound}

abbrev a_bus : Bus ℕ
a_bus = (subscribe "b" (subscribe "a" (subscribe "a" new_bus).0).0).0

abbrev second : Route ℕ
second = record { topic = "a"; channel = 1; sub = new_subscription }

publish_reliable-reaches_example :
    (r' : Route ℕ) × ((route_of 1 (publish_reliable "a" 7 a_bus).routes ≡ some r')
      × ((("a" == "a") ≡ true → IsLast 7 second.sub r'.sub) × (("a" == "a") ≡ false → r' ≡ second)))
unfolding new_bus subscribe route_of new_subscription
publish_reliable-reaches_example =
    publish_reliable-reaches 1 "a" 7 a_bus second refl refl (omega arith)

publish_droppable-bound_example :
    (r' : Route ℕ) × ((route_of 1 (publish_droppable "a" 7 a_bus).routes ≡ some r')
      × (length (pending r'.sub) ≤ subscribe_buffer))
unfolding new_bus subscribe route_of new_subscription
publish_droppable-bound_example =
    publish_droppable-bound 1 "a" 7 a_bus second refl (omega arith) (omega arith)
