-- ===== src/Event/Queuing/Invariant.antt =====
-- src/event.cpp: what `queue_as` keeps of the vector of ids and its index.
use libslirc_old.Prelude.{
  ℕ, ◌+◌, ◌-◌, ◌≤◌, refl, List, [], ◌∷◌, ◌++◌, arith, length, take, replicate, remove_if, copy_to,
  length-append, length-drop, length-take, length-remove_if, length-copy_to, all-append, all-take,
  all-drop, all-copy_to, all-remove_if,
}
use libslirc_old.Prelude.Vector.{Vector, empty, size}
use libslirc_old.EventId.{IdType, id_eq, default_id, is_valid}
use libslirc_old.Event.{
  Event, pending, QueuingPosition, at_back, at_front, QueuingStrategy, discard, replace, duplicate,
}
use libslirc_old.Event.Queuing.{
  by_strategy, prepare_append_queue, put_in_place, put_swapped, reorganized, put_behind, put_at,
  append_to_queue_unchecked, queue_as, prepare_all, queue_range_as,
}
use libslirc_old.Event.Queuing.Pending.{InRange, pending-put_swapped}
use libslirc_old.Event.Queuing.Range.{AllValid}

-- The index lies in the vector, the vector in its capacity, and no id in it is invalid.
pub record IsValid (e : Event) : Type 0 where
  pub range : InRange e
  pub roomy : size e.queued_ids ≤ e.queued_ids.capacity
  pub valid : AllValid e.queued_ids.items

put_in_place-IsValid :
    (e : Event) (add_ids : Vector IdType)
    → AllValid add_ids.items
    → IsValid e
    → IsValid (put_in_place e add_ids)
unfolding put_in_place
put_in_place-IsValid e add_ids a v =
    let at = e.next_id_index - size add_ids in
    let items = e.queued_ids.items in
    ground
      (arith, length-copy_to items at add_ids.items, all-copy_to is_valid items at add_ids.items)

reorganized-IsValid : (e : Event) (wanted : ℕ) → IsValid e → IsValid (reorganized e wanted)
unfolding reorganized
reorganized-IsValid e wanted v =
    let items = e.queued_ids.items in
    ground (
      arith,
      length-drop e.next_id_index items,
      length-copy_to items 0 (pending e),
      length-take (length (pending e)) (copy_to items 0 (pending e)),
      all-drop is_valid e.next_id_index items,
      all-copy_to is_valid items 0 (pending e),
      all-take is_valid (length (pending e)) (copy_to items 0 (pending e)),
    )

module _ (grow : ℕ → ℕ → ℕ) (grows : (c n : ℕ) → n ≤ grow c n) where
  put_swapped-IsValid :
      (e : Event) (add_ids : Vector IdType)
      → AllValid add_ids.items
      → IsValid e
      → IsValid (put_swapped grow e add_ids)
  unfolding put_swapped
  put_swapped-IsValid e add_ids a v =
      let n = size add_ids + size e.queued_ids - e.next_id_index in
      let room = replicate (n - size add_ids) default_id in
      ground (
        arith,
        pending-put_swapped grow e add_ids v.range,
        all-append is_valid add_ids.items (pending e),
        all-drop is_valid e.next_id_index e.queued_ids.items,
        length-copy_to (add_ids.items ++ room) (size add_ids) (pending e),
        length-append add_ids.items room,
        grows add_ids.capacity (size add_ids + length room),
      )

  put_behind-IsValid :
      (e : Event) (add_ids : Vector IdType)
      → AllValid add_ids.items
      → IsValid e
      → IsValid (put_behind grow e add_ids)
  unfolding put_behind
  put_behind-IsValid e add_ids a v =
      let moved = reorganized e (size add_ids) in
      ground (
        arith,
        reorganized-IsValid e (size add_ids) v,
        length-append moved.queued_ids.items add_ids.items,
        all-append is_valid moved.queued_ids.items add_ids.items,
        grows moved.queued_ids.capacity (size moved.queued_ids + size add_ids),
      )

  append-IsValid :
      (e : Event) (add_ids : Vector IdType) (position : QueuingPosition)
      → AllValid add_ids.items
      → IsValid e
      → IsValid (append_to_queue_unchecked grow e add_ids position)
  unfolding append_to_queue_unchecked put_at
  append-IsValid e add_ids at_back a v = ground (arith, put_behind-IsValid e add_ids a v)
  append-IsValid e add_ids at_front a v =
      ground (arith, put_in_place-IsValid e add_ids a v, put_swapped-IsValid e add_ids a v)

  prepare-IsValid :
      (e : Event) (add_ids : Vector IdType) (id : IdType) (strategy : QueuingStrategy)
      → AllValid add_ids.items
      → IsValid e
      → let (_, added, prepared) = prepare_append_queue grow e add_ids id strategy in
        AllValid added.items × IsValid prepared
  unfolding prepare_append_queue by_strategy
  prepare-IsValid e add_ids id discard a v =
      ground (arith, all-append is_valid add_ids.items (id ∷ []))
  prepare-IsValid e add_ids id duplicate a v =
      ground (arith, all-append is_valid add_ids.items (id ∷ []))
  prepare-IsValid e add_ids id replace a v =
      let items = e.queued_ids.items in
      let old = take e.next_id_index items in
      let kept = remove_if (λ x. id_eq x id) (pending e) in
      ground (
        arith,
        all-append is_valid add_ids.items (id ∷ []),
        all-append is_valid old kept,
        all-take is_valid e.next_id_index items,
        all-drop is_valid e.next_id_index items,
        all-remove_if is_valid (λ x. id_eq x id) (pending e),
        length-append old kept,
        length-take e.next_id_index items,
        length-drop e.next_id_index items,
        length-remove_if (λ x. id_eq x id) (pending e),
      )

  pub queue_as-IsValid :
      (e : Event) (id : IdType) (strategy : QueuingStrategy) (position : QueuingPosition)
      → IsValid e
      → IsValid (queue_as grow e id strategy position).1
  unfolding queue_as
  queue_as-IsValid e id strategy position v =
      let (result, added, prepared) = prepare_append_queue grow e empty id strategy in
      let kept = prepare-IsValid e empty id strategy refl v in
      ground (arith, append-IsValid prepared added position kept.0 kept.1)

  prepare_all-IsValid :
      (e : Event) (add_ids : Vector IdType) (ids : List IdType) (strategy : QueuingStrategy)
      → AllValid add_ids.items
      → IsValid e
      → let (_, added, prepared) = prepare_all grow e add_ids ids strategy in
        AllValid added.items × IsValid prepared
  unfolding prepare_all
  prepare_all-IsValid e add_ids [] strategy a v = (a, v)
  prepare_all-IsValid e add_ids (id ∷ ids) strategy a v =
      let p = prepare_append_queue grow e add_ids id strategy in
      let kept = prepare-IsValid e add_ids id strategy a v in
      prepare_all-IsValid p.2 p.1 ids strategy kept.0 kept.1

  pub queue_range_as-IsValid :
      (e : Event) (ids : List IdType) (strategy : QueuingStrategy) (position : QueuingPosition)
      → IsValid e
      → IsValid (queue_range_as grow e ids strategy position).1
  unfolding queue_range_as
  queue_range_as-IsValid e ids strategy position v =
      let kept = prepare_all-IsValid e empty ids strategy refl v in
      append-IsValid _ _ position kept.0 kept.1
