-- ===== src/Event/Tests.antt =====
-- src/event.cpp on small events. `doubling` is one way for the capacity of a vector to grow.
use libslirc_old.Prelude.{
  ℕ, ◌+◌, ◌≤◌, ◌<◌, ◌≡◌, refl, ◌↔◌, Bool, true, List, [], ◌∷◌, arith, drop, remove_if, count_if, ok,
  throw, invalid_event_id,
}
use libslirc_old.Prelude.Classes.{no_inheritance}
use libslirc_old.EventId.{IdType, default_id, from_enum, id_eq}
use libslirc_old.Event.{
  Event, pending, make_event, QueuingStrategy, discard, replace, QueuingPosition, at_back, at_front,
  queued, replaced, invalid, unqueue_matching, pop_next_queued_id,
}
use libslirc_old.Event.Spec
use libslirc_old.Event.Queuing.{queue_as, queue_range_as}
use libslirc_old.Event.Queuing.Pending.{InRange, queue_as_refines}
use libslirc_old.Event.Queuing.Range.{queue_range_as_refines}
use libslirc_old.Event.Queuing.Invariant.{IsValid}
use libslirc_old.Event.Unqueue.{handled, unqueue-pending, unqueue_loses}
use libslirc_old.Event.Lifetime.{here, next, queues, pops, lifetime-IsValid}

abbrev doubling : ℕ → ℕ → ℕ
doubling c n = c + n

doubling_grows : (c n : ℕ) → n ≤ doubling c n
doubling_grows c n = omega arith

abbrev a : IdType
a = from_enum 1 0

abbrev b : IdType
b = from_enum 1 1

abbrev c : IdType
c = from_enum 2 0

-- `a` has been handled, `b` and `c` are pending, and the vector is full.
abbrev busy : Event
busy = record {
  irc = 1;
  original_id = a;
  current_id_mutable = default_id;
  queued_ids = record { items = a ∷ b ∷ c ∷ []; capacity = 3 };
  next_id_index = 1;
  components = [];
}

abbrev fresh : Event
fresh = record busy { queued_ids = record { items = a ∷ []; capacity = 1 }; next_id_index = 0 }

busy-InRange : InRange busy
busy-InRange = omega arith

made : make_event doubling 1 a ≡ ok fresh
unfolding make_event
made = refl

made_invalid : make_event doubling 1 default_id ≡ throw invalid_event_id
unfolding make_event
made_invalid = refl

queue_as_refines_example :
    let (result, after) = queue_as doubling busy b replace at_front in
    (result ≡ Spec.queue_one replace b (pending busy))
    × (pending after ≡ Spec.queue_as replace at_front b (pending busy))
queue_as_refines_example = queue_as_refines doubling busy b replace at_front busy-InRange

abbrev Ranged : QueuingStrategy → QueuingPosition → List IdType → Type 0
Ranged strategy position ids =
    let (results, after) = queue_range_as doubling busy ids strategy position in
    (results ≡ Spec.range_results strategy ids (pending busy))
    × (pending after ≡ Spec.queue_range_as strategy position ids (pending busy))

queue_range_as_refines_example : Ranged replace at_back (b ∷ default_id ∷ a ∷ b ∷ [])
queue_range_as_refines_example =
    queue_range_as_refines doubling busy (b ∷ default_id ∷ a ∷ b ∷ []) replace at_back busy-InRange
      refl

range_results_test :
    Spec.range_results replace (b ∷ default_id ∷ a ∷ b ∷ []) (pending busy)
    ≡ replaced ∷ invalid ∷ queued ∷ queued ∷ []
range_results_test = refl

abbrev is : IdType → IdType → Bool
is id x = id_eq x id

unqueue-pending_example :
    let (found, after) = unqueue_matching (is a) busy in
    (pending after ≡ drop (count_if (is a) (handled busy)) (remove_if (is a) (pending busy)))
    × ((found ≡ true) ↔ (0 < count_if (is a) (handled busy) + count_if (is a) (pending busy)))
unqueue-pending_example = unqueue-pending (is a) busy busy-InRange

-- The handled `a` is taken out, and the pending `b` is lost.
unqueue_loses_example :
    let (found, after) = unqueue_matching (is a) busy in
    (found ≡ true) × (0 < count_if (is a) (handled busy)) × (pending after ≡ c ∷ [])
unqueue_loses_example = unqueue_loses (is a) busy busy-InRange refl refl

lifetime-IsValid_example :
    IsValid (pop_next_queued_id (queue_as doubling fresh b discard at_back).1).1
lifetime-IsValid_example =
    lifetime-IsValid doubling no_inheritance doubling_grows 1 a made
      (next (next here (queues fresh b discard at_back)) (pops _))
