-- ===== src/Event/Queuing.antt =====
-- src/event.cpp: `queue_as` in all its forms, over `prepare_append_queue` and
-- `append_to_queue_unchecked`.
pub mod Overloads
pub mod Fresh
pub mod Pending
pub mod Range
pub mod Invariant
use libslirc_old.Prelude.{
  ℕ, ◌+◌, ◌-◌, Bool, true, false, not, ◌&&◌, List, [], ◌∷◌, ◌++◌, ltb, leb, ◌==◌, if◌then◌else◌,
  length, take, drop, any, remove_if, copy_to,
}
use libslirc_old.Prelude.Vector.{Vector, empty, append, truncate, resize, size}
use libslirc_old.EventId.{IdType, default_id, id_eq, is_invalid}
use libslirc_old.Event.{
  Event, QueuingPosition, at_back, at_front, QueuingStrategy, discard, replace, duplicate,
  QueuingResult, discarded, queued, replaced, invalid,
}

-- Before the queue, over ids that have been handled.
put_in_place : Event → Vector IdType → Event
put_in_place e add_ids = record e {
  queued_ids = record (e.queued_ids) {
    items = copy_to e.queued_ids.items (e.next_id_index - size add_ids) add_ids.items;
  };
  next_id_index = e.next_id_index - size add_ids;
}

-- The pending ids are moved to the beginning of the vector if the space behind them is short.
reorganized : Event → ℕ → Event
reorganized e wanted =
    if ltb 0 e.next_id_index && ltb (e.queued_ids.capacity - size e.queued_ids) wanted
    then record e {
      queued_ids =
          truncate
            (record (e.queued_ids) {
              items = copy_to e.queued_ids.items 0 (drop e.next_id_index e.queued_ids.items);
            })
            (length (drop e.next_id_index e.queued_ids.items));
      next_id_index = 0;
    }
    else e

module _ (grow : ℕ → ℕ → ℕ) where
  -- The switch of `prepare_append_queue`, for a valid id: the result, the ids to add, the event.
  by_strategy :
      QueuingStrategy → Event → Vector IdType → IdType → QueuingResult × Vector IdType × Event
  by_strategy discard e add_ids newid =
      if any (λ id. id_eq id newid) (drop e.next_id_index e.queued_ids.items)
      then (discarded, add_ids, e)
      else (queued, append grow add_ids (newid ∷ []), e)
  by_strategy duplicate e add_ids newid = (queued, append grow add_ids (newid ∷ []), e)
  by_strategy replace e add_ids newid =
      let old = drop e.next_id_index e.queued_ids.items in
      let kept = remove_if (λ id. id_eq id newid) old in
      if length kept == length old then (queued, append grow add_ids (newid ∷ []), e) else (
        replaced,
        append grow add_ids (newid ∷ []),
        record e {
          queued_ids = record (e.queued_ids) {
            items = take e.next_id_index e.queued_ids.items ++ kept;
          };
        },
      )

  pub prepare_append_queue :
      Event → Vector IdType → IdType → QueuingStrategy → QueuingResult × Vector IdType × Event
  prepare_append_queue e add_ids newid strategy =
      if is_invalid newid then (invalid, add_ids, e) else by_strategy strategy e add_ids newid

  -- The old queue is copied behind the new ids, and the vectors are swapped.
  pub put_swapped : Event → Vector IdType → Event
  put_swapped e add_ids =
      let resized =
        resize grow default_id add_ids (size add_ids + size e.queued_ids - e.next_id_index) in
      record e {
        queued_ids = record resized {
          items = copy_to resized.items (size add_ids) (drop e.next_id_index e.queued_ids.items);
        };
        next_id_index = 0;
      }

  put_behind : Event → Vector IdType → Event
  put_behind e add_ids =
      let moved = reorganized e (size add_ids) in
      record moved { queued_ids = append grow moved.queued_ids add_ids.items }

  put_at : QueuingPosition → Event → Vector IdType → Event
  put_at at_front e add_ids =
      if leb (size add_ids) e.next_id_index then put_in_place e add_ids else put_swapped e add_ids
  put_at at_back e add_ids = put_behind e add_ids

  pub append_to_queue_unchecked : Event → Vector IdType → QueuingPosition → Event
  append_to_queue_unchecked e add_ids position =
      if size add_ids == 0 then e else put_at position e add_ids

  pub queue_as : Event → IdType → QueuingStrategy → QueuingPosition → QueuingResult × Event
  queue_as e id strategy position =
      let (result, add_ids, prepared) = prepare_append_queue e empty id strategy in
      if size add_ids == 0
      then (result, prepared)
      else (result, append_to_queue_unchecked prepared add_ids position)

  -- The loop of the `queue_as` over a range: the results in the order of the calls of
  -- `result_callback`.
  pub prepare_all :
      Event
      → Vector IdType
      → List IdType
      → QueuingStrategy
      → List QueuingResult × Vector IdType × Event
  prepare_all e add_ids [] strategy = ([], add_ids, e)
  prepare_all e add_ids (id ∷ ids) strategy =
      let (result, added, prepared) = prepare_append_queue e add_ids id strategy in
      let (results, all_added, last) = prepare_all prepared added ids strategy in
      (result ∷ results, all_added, last)

  pub queue_range_as :
      Event → List IdType → QueuingStrategy → QueuingPosition → List QueuingResult × Event
  queue_range_as e ids strategy position =
      let (results, add_ids, prepared) = prepare_all e empty ids strategy in
      (results, append_to_queue_unchecked prepared add_ids position)
