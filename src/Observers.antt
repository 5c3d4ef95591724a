-- ===== src/Observers.antt =====
-- internal/observers/event_publisher_impl.go: who hears of a processed batch. An observer is what
-- it does with an event.
pub mod File
pub mod Http
use go_musthave_metrics.Base.{List, [], ◌∷◌, ◌++◌, map}

pub record EventPublisherImpl (Observer : Type 0) : Type 0 where
  pub observers : List Observer

module _ {Observer : Type 0} where
  unfoldable pub new_event_publisher : EventPublisherImpl Observer
  new_event_publisher = record { observers = [] }

  unfoldable pub register : EventPublisherImpl Observer → Observer → EventPublisherImpl Observer
  register p observer = record { observers = p.observers ++ observer ∷ [] }

  -- The goroutines that `Publish` starts, in their order; it returns nil.
  unfoldable publish :
      {Event : Type 0} → EventPublisherImpl Observer → Event → List (Observer × Event)
  publish p event = map (λ observer. (observer, event)) p.observers
