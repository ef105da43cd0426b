-- ===== src/Bus/Topics.antt =====
-- `Bus` of internal/event/bus.go: the routing table of the topics. A topic's set of subscriptions is a
-- list in the order in which they came; a subscription is known by the identity of its channel.
use semantic_framework.Prelude.{
  ℕ, ◌+◌, String, Bool, true, false, Option, none, some, List, [], ◌∷◌, ◌++◌, ◌==◌, eqb,
  if◌then◌else◌,
}
use semantic_framework.Bus.Subscription.{Subscription, new_subscription, enqueue, stop}

pub record Route (A : Type 0) : Type 0 where
  pub topic : String
  pub channel : ℕ
  pub sub : Subscription A

-- `next_channel` is the channel that `make` gives next. `stopped` has the subscriptions that have
-- left the table.
pub record Bus (A : Type 0) : Type 0 where
  pub routes : List (Route A)
  pub stopped : List (Route A)
  pub next_channel : ℕ

module _ {A : Type 0} where
  unfoldable pub new_bus : Bus A
  new_bus = record { routes = []; stopped = []; next_channel = 0 }

  abbrev pub deliver : A → Bool → Route A → Route A
  deliver ev droppable r = record r { sub = (enqueue ev droppable r.sub).0 }

  -- The subscribers of the topic one after the other; the log of refusals and backlogs is left out.
  unfoldable pub publish_to : String → A → Bool → List (Route A) → List (Route A)
  publish_to topic ev droppable [] = []
  publish_to topic ev droppable (r ∷ rs) =
      (if r.topic == topic then deliver ev droppable r else r) ∷ publish_to topic ev droppable rs

  unfoldable pub publish_event : String → A → Bool → Bus A → Bus A
  unfolding publish_to
  publish_event topic ev droppable b = record b { routes = publish_to topic ev droppable b.routes }

  abbrev pub publish_reliable : String → A → Bus A → Bus A
  publish_reliable topic ev b = publish_event topic ev false b

  abbrev pub publish_droppable : String → A → Bus A → Bus A
  publish_droppable topic ev b = publish_event topic ev true b

  unfoldable pub subscribe : String → Bus A → Bus A × ℕ
  subscribe topic b = (
    record b {
      routes =
          b.routes
          ++ record { topic = topic; channel = b.next_channel; sub = new_subscription } ∷ [];
      next_channel = b.next_channel + 1;
    },
    b.next_channel,
  )

  -- The routes that stay, and those that are stopped, when a channel is unsubscribed.
  unfoldable pub keep_others : ℕ → List (Route A) → List (Route A)
  keep_others channel [] = []
  keep_others channel (r ∷ rs) =
      if eqb r.channel channel then keep_others channel rs else r ∷ keep_others channel rs

  unfoldable pub stop_these : ℕ → List (Route A) → List (Route A)
  stop_these channel [] = []
  stop_these channel (r ∷ rs) =
      if eqb r.channel channel
      then record r { sub = stop r.sub } ∷ stop_these channel rs
      else stop_these channel rs

  unfoldable pub unsubscribe : ℕ → Bus A → Bus A
  unfolding keep_others stop_these
  unsubscribe channel b = record b {
    routes = keep_others channel b.routes;
    stopped = b.stopped ++ stop_these channel b.routes;
  }

  -- The route of a channel, as a reader of the channel knows it.
  unfoldable pub route_of : ℕ → List (Route A) → Option (Route A)
  route_of channel [] = none
  route_of channel (r ∷ rs) = if eqb r.channel channel then some r else route_of channel rs
