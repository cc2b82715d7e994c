-- ===== src/Event/Queuing/Fresh.antt =====
-- src/event.cpp and include/slirc/event.hpp: an event that is made and queued as another id, too, before
-- anything else is done with it.
use libslirc_old.Prelude.{ℕ, ◌≡◌, false, [], ◌∷◌, ok, arith}
use libslirc_old.Prelude.Vector.{append, empty}
use libslirc_old.EventId.{IdType, id_eq, is_invalid, default_id}
use libslirc_old.Event.{Event, pending, make_event, discard, at_front}
use libslirc_old.Event.Queuing.{
  by_strategy, prepare_append_queue, put_swapped, put_at, append_to_queue_unchecked, queue_as,
}

abbrev pub new_event : (ℕ → ℕ → ℕ) → ℕ → IdType → Event
new_event grow irc id = record {
  irc = irc;
  original_id = id;
  current_id_mutable = default_id;
  queued_ids = append grow empty (id ∷ []);
  next_id_index = 0;
  components = [];
}

pub make_event-new :
    (grow : ℕ → ℕ → ℕ) (irc : ℕ) (id : IdType)
    → is_invalid id ≡ false
    → make_event grow irc id ≡ ok (new_event grow irc id)
unfolding make_event
make_event-new grow irc id valid = ground arith

pub queue_as-new :
    (grow : ℕ → ℕ → ℕ) (irc : ℕ) (id front : IdType)
    → is_invalid front ≡ false
    → id_eq id front ≡ false
    → let queued_event = (queue_as grow (new_event grow irc id) front discard at_front).1 in
      (queued_event.original_id ≡ id) × (pending queued_event ≡ front ∷ id ∷ [])
unfolding make_event queue_as prepare_append_queue by_strategy append_to_queue_unchecked put_at
    put_swapped
queue_as-new grow irc id front valid different = ground arith
