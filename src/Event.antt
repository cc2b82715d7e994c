-- ===== src/Event.antt =====
-- src/event.cpp and the class `event` of include/slirc/event.hpp: an event with the queue of ids that
-- it will be handled as. The ids before `next_id_index` in the vector have been handled.
-- `grow` is how the implementation grows the capacity of a vector, `classes` the program's classes.
mod Tests
pub mod Queuing
pub mod Spec
pub mod Lifetime
pub mod Unqueue
use libslirc_old.Prelude.{
  ℕ, ◌+◌, Bool, true, false, not, List, [], ◌∷◌, ◌++◌, Option, none, some, ltb, ◌==◌, if◌then◌else◌,
  length, drop, get_elem?, any, remove_if, Result, ok, throw, invalid_event_id,
}
use libslirc_old.Prelude.Classes.{Classes}
use libslirc_old.Prelude.Vector.{Vector, empty, append, size}
use libslirc_old.EventId.{IdType, default_id, id_eq, is_invalid}
use libslirc_old.Component.{ComponentType, Component, Container, at_or_insert, assign}

-- The data of the components that the library itself puts into events: the pointers of
-- `handle_afterwards`, the line of `received_data`, the message and the code of `error_info`; and
-- what a user's component holds.
pub data Payload : Type 0 where
  afterwards_events : List ℕ → Payload
  received_line_data : List ℕ → Payload
  error_details : List ℕ → ℕ → Payload
  user_data : ℕ → Payload

pub record Event : Type 0 where
  pub irc : ℕ
  pub original_id : IdType
  pub current_id_mutable : IdType
  pub queued_ids : Vector IdType
  pub next_id_index : ℕ
  pub components : Container Payload

pub data QueuingPosition : Type 0 where
  at_back at_front : QueuingPosition

pub data QueuingStrategy : Type 0 where
  discard replace duplicate : QueuingStrategy

pub data QueuingResult : Type 0 where
  discarded queued replaced invalid : QueuingResult

-- The ids that are still queued, in the order in which they will be handled.
abbrev pub pending : Event → List IdType
pending e = drop e.next_id_index e.queued_ids.items

-- `event::event`; `irc` is the context's address.
pub make_event : (ℕ → ℕ → ℕ) → ℕ → IdType → Result Event
make_event grow irc original_id =
    if is_invalid original_id
    then throw invalid_event_id
    else ok (record {
      irc = irc;
      original_id = original_id;
      current_id_mutable = default_id;
      queued_ids = append grow empty (original_id ∷ []);
      next_id_index = 0;
      components = [];
    })

-- `std::remove_if` over the whole vector: `it == end()` says that nothing was removed.
pub unqueue_matching : (IdType → Bool) → Event → Bool × Event
unqueue_matching matcher e =
    let kept = remove_if matcher e.queued_ids.items in
    if length kept == length e.queued_ids.items
    then (false, e)
    else (true, record e { queued_ids = record (e.queued_ids) { items = kept } })

-- `std::remove` over the whole vector.
pub unqueue : IdType → Event → Bool × Event
unqueue id e =
    let kept = remove_if (λ queued_id. id_eq queued_id id) e.queued_ids.items in
    if length kept == length e.queued_ids.items
    then (false, e)
    else (true, record e { queued_ids = record (e.queued_ids) { items = kept } })

pub is_queued_as : IdType → Event → Bool
is_queued_as id e = any (λ queued_id. id_eq queued_id id) (drop e.next_id_index e.queued_ids.items)

pub is_queued_as_matching : (IdType → Bool) → Event → Bool
is_queued_as_matching matcher e = any matcher (drop e.next_id_index e.queued_ids.items)

-- The id that is returned, and the event behind it.
pub pop_next_queued_id : Event → IdType × Event
pop_next_queued_id e =
    if ltb e.next_id_index (size e.queued_ids)
    then (element, record e { next_id_index = e.next_id_index + 1 })
    else (default_id, e)
  where
    element : IdType
    element = elim (get_elem? e.queued_ids.items e.next_id_index) [
      | none ↦ default_id
      | some id ↦ id
    ]

-- `apis::event_manager::handle_afterwards`, a component type of its own.
abbrev pub handle_afterwards : ComponentType
handle_afterwards = record { type_index = 0; component_base_type = 0 }

abbrev pub add_event : ℕ → Payload → Payload
add_event pointer (afterwards_events es) = afterwards_events (es ++ pointer ∷ [])
add_event pointer p = p

-- `aft.events.push_back(e)`, through the reference that `at_or_insert` returned.
push_afterwards : ℕ → Event → Result (Component Payload × Container Payload) → Result Event
push_afterwards pointer e (throw x) = throw x
push_afterwards pointer e (ok (_, c)) =
    ok (record e { components = assign handle_afterwards (add_event pointer) c })

-- `pointer` is the address of the event to be queued behind this one.
pub afterwards : Classes → ℕ → Event → Result Event
afterwards classes pointer e =
    push_afterwards pointer e
      (at_or_insert classes handle_afterwards handle_afterwards (afterwards_events []) e.components)
