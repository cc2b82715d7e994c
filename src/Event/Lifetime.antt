-- ===== src/Event/Lifetime.antt =====
-- src/event.cpp: an event from its creation on, under any calls of its operations.
use libslirc_old.Prelude.{
  ℕ, ◌≤◌, ◌≡◌, Bool, false, List, arith, any, ok, throw, Result, [], all-remove_if, length,
  length-remove_if, true, ◌∷◌,
}
use libslirc_old.Prelude.Classes.{Classes}
use libslirc_old.Component.{Component, Container, at_or_insert}
use libslirc_old.Prelude.Vector.{empty, append}
use libslirc_old.EventId.{IdType, is_valid, default_id}
use libslirc_old.Event.{
  Event, make_event, QueuingStrategy, QueuingPosition, pop_next_queued_id, unqueue_matching,
  afterwards, push_afterwards, handle_afterwards, afterwards_events, Payload,
}
use libslirc_old.Event.Queuing.{queue_as, queue_range_as}
use libslirc_old.Event.Queuing.Range.{AllValid}
use libslirc_old.Event.Queuing.Invariant.{IsValid, queue_as-IsValid, queue_range_as-IsValid}
use libslirc_old.Event.Unqueue.{handled, unqueue_fresh}

module _ (grow : ℕ → ℕ → ℕ) (classes : Classes) where
  -- One call on the event; `handles` is the change of `current_id_mutable` around a handling.
  -- `unqueue` is called with a matcher that no handled id fulfils.
  pub data Step : Event → Event → Type 0 where
    queues :
        (e : Event) (id : IdType) (strategy : QueuingStrategy) (position : QueuingPosition)
        → Step e (queue_as grow e id strategy position).1
    queues_range :
        (e : Event) (ids : List IdType) (strategy : QueuingStrategy) (position : QueuingPosition)
        → Step e (queue_range_as grow e ids strategy position).1
    pops : (e : Event) → Step e (pop_next_queued_id e).1
    unqueues :
        (e : Event) (matcher : IdType → Bool)
        → any matcher (handled e) ≡ false
        → Step e (unqueue_matching matcher e).1
    adds_afterwards :
        (e : Event) (pointer : ℕ) {after : Event}
        → afterwards classes pointer e ≡ ok after
        → Step e after
    handles : (e : Event) (id : IdType) → Step e (record e { current_id_mutable = id })

  pub data Reach (start : Event) : Event → Type 0 where
    here : Reach start start
    next : {e after : Event} → Reach start e → Step e after → Reach start after

unqueue-AllValid :
    (matcher : IdType → Bool) (e : Event)
    → AllValid e.queued_ids.items
    → let after = (unqueue_matching matcher e).1 in
      AllValid after.queued_ids.items
      × (length after.queued_ids.items ≤ length e.queued_ids.items)
      × (after.queued_ids.capacity ≡ e.queued_ids.capacity)
unfolding unqueue_matching
unqueue-AllValid matcher e v = ground (
  arith,
  all-remove_if is_valid matcher e.queued_ids.items,
  length-remove_if matcher e.queued_ids.items,
)

push-IsValid :
    (pointer : ℕ) (e : Event) (r : Result (Component Payload × Container Payload)) {after : Event}
    → push_afterwards pointer e r ≡ ok after
    → IsValid e
    → IsValid after
unfolding push_afterwards
push-IsValid pointer e (throw x) h v = absurd (cc)
push-IsValid pointer e (ok (_, c)) h v = ground arith

pub pop-IsValid : (e : Event) → IsValid e → IsValid (pop_next_queued_id e).1
unfolding pop_next_queued_id
pop-IsValid e v = ground arith

-- A new event for a valid id.
abbrev pub made : (ℕ → ℕ → ℕ) → ℕ → IdType → Event
made grow irc id = record {
  irc = irc;
  original_id = id;
  current_id_mutable = default_id;
  queued_ids = append grow empty (id ∷ []);
  next_id_index = 0;
  components = [];
}

pub make_event-made :
    (grow : ℕ → ℕ → ℕ) (irc : ℕ) (id : IdType)
    → is_valid id ≡ true
    → make_event grow irc id ≡ ok (made grow irc id)
unfolding make_event
make_event-made grow irc id h = ground arith

module _ (grow : ℕ → ℕ → ℕ) (classes : Classes) (grows : (c n : ℕ) → n ≤ grow c n) where
  pub make_event-IsValid :
      (irc : ℕ) (id : IdType) {e : Event} → make_event grow irc id ≡ ok e → IsValid e
  unfolding make_event
  make_event-IsValid irc id h = ground (arith, grows 0 1)

  afterwards-IsValid :
      (pointer : ℕ) (e : Event) {after : Event}
      → afterwards classes pointer e ≡ ok after
      → IsValid e
      → IsValid after
  unfolding afterwards
  afterwards-IsValid pointer e h v =
      push-IsValid pointer e
        (at_or_insert classes handle_afterwards handle_afterwards (afterwards_events [])
          e.components)
        h v

  unqueue-IsValid :
      (matcher : IdType → Bool) (e : Event)
      → any matcher (handled e) ≡ false
      → IsValid e
      → IsValid (unqueue_matching matcher e).1
  unqueue-IsValid matcher e h v =
      ground (arith, unqueue_fresh matcher e v.range h, unqueue-AllValid matcher e v.valid)

  Step-IsValid : {e after : Event} → Step grow classes e after → IsValid e → IsValid after
  Step-IsValid (queues e id strategy position) v =
      queue_as-IsValid grow grows e id strategy position v
  Step-IsValid (queues_range e ids strategy position) v =
      queue_range_as-IsValid grow grows e ids strategy position v
  Step-IsValid (pops e) v = pop-IsValid e v
  Step-IsValid (unqueues e matcher h) v = unqueue-IsValid matcher e h v
  Step-IsValid (adds_afterwards e pointer h) v = afterwards-IsValid pointer e h v
  Step-IsValid (handles e id) v = record { range = v.range; roomy = v.roomy; valid = v.valid }

  -- An event that `make_event` has made keeps its index in the vector of ids, the vector in its
  -- capacity and every id in it valid, under all calls but an `unqueue` that matches a handled id.
  pub lifetime-IsValid :
      (irc : ℕ) (id : IdType) {start e : Event}
      → make_event grow irc id ≡ ok start
      → Reach grow classes start e
      → IsValid e
  lifetime-IsValid irc id made here = make_event-IsValid irc id made
  lifetime-IsValid irc id made (next r s) = Step-IsValid s (lifetime-IsValid irc id made r)
