-- ===== src/Event/Queuing/Overloads.antt =====
-- include/slirc/event.hpp: the shorter forms of `queue_as`, which leave out the strategy, the position,
-- or both.
use libslirc_old.Prelude.{ℕ, List}
use libslirc_old.EventId.{IdType}
use libslirc_old.Event.{Event, QueuingPosition, at_back, QueuingStrategy, discard, QueuingResult}
use libslirc_old.Event.Queuing.{queue_as, queue_range_as}

module _ (grow : ℕ → ℕ → ℕ) where
  abbrev pub queue_as_id : Event → IdType → QueuingResult × Event
  queue_as_id e id = queue_as grow e id discard at_back

  abbrev pub queue_as_by : Event → IdType → QueuingStrategy → QueuingResult × Event
  queue_as_by e id strategy = queue_as grow e id strategy at_back

  abbrev pub queue_as_at : Event → IdType → QueuingPosition → QueuingResult × Event
  queue_as_at e id position = queue_as grow e id discard position

  abbrev pub queue_range : Event → List IdType → List QueuingResult × Event
  queue_range e ids = queue_range_as grow e ids discard at_back

  abbrev pub queue_range_by : Event → List IdType → QueuingStrategy → List QueuingResult × Event
  queue_range_by e ids strategy = queue_range_as grow e ids strategy at_back

  abbrev pub queue_range_at : Event → List IdType → QueuingPosition → List QueuingResult × Event
  queue_range_at e ids position = queue_range_as grow e ids discard position
