-- ===== src/Event/Queuing/Pending.antt =====
-- src/event.cpp: the vector, its index and its spare capacity implement the list of pending ids.
use libslirc_old.Prelude.{
  ℕ, ◌-◌, ◌≤◌, ◌≡◌, refl, sym, ap, ◌∙◌, inl, inr, true, List, [], ◌∷◌, ◌++◌, append-nil, arith, leb,
  ◌==◌, if◌then◌else◌, length, take, drop, replicate, subst, copy_to, length-append, length-drop,
  length-take, drop-append_le, drop-copy_to, take-copy_to, copy_to-append, drop-take-append,
  remove_if-none, length-remove_if_lt, Bool-cases,
}
use libslirc_old.Prelude.Vector.{Vector, empty, size}
use libslirc_old.EventId.{IdType, id_eq, default_id}
use libslirc_old.Event.{
  Event, pending, QueuingPosition, at_back, at_front, QueuingStrategy, discard, replace, duplicate,
  QueuingResult,
}
use libslirc_old.Event.Queuing.{
  by_strategy, prepare_append_queue, put_in_place, put_swapped, reorganized, put_behind, put_at,
  append_to_queue_unchecked, queue_as,
}
use libslirc_old.Event.Spec

-- The index lies in the vector.
abbrev pub InRange : Event → Type 0
InRange e = e.next_id_index ≤ length e.queued_ids.items

insert_ids-nil : (position : QueuingPosition) (q : List IdType) → Spec.insert_ids position [] q ≡ q
insert_ids-nil at_back q = append-nil q
insert_ids-nil at_front q = refl

pending-put_in_place :
    (e : Event) (add_ids : Vector IdType)
    → InRange e
    → size add_ids ≤ e.next_id_index
    → pending (put_in_place e add_ids) ≡ add_ids.items ++ pending e
unfolding put_in_place
pending-put_in_place e add_ids r h =
    drop-copy_to e.queued_ids.items (e.next_id_index - size add_ids) add_ids.items (omega arith)
    ∙ ap (λ n. add_ids.items ++ drop n e.queued_ids.items) (omega arith)

pending-reorganized :
    (e : Event) (wanted : ℕ)
    → InRange e
    → (pending (reorganized e wanted) ≡ pending e) × InRange (reorganized e wanted)
unfolding reorganized
pending-reorganized e wanted r = ground (
  arith,
  take-copy_to e.queued_ids.items (pending e),
  length-drop e.next_id_index e.queued_ids.items,
)

module _ (grow : ℕ → ℕ → ℕ) where
  pub pending-put_swapped :
      (e : Event) (add_ids : Vector IdType)
      → InRange e
      → pending (put_swapped grow e add_ids) ≡ add_ids.items ++ pending e
  unfolding put_swapped
  pending-put_swapped e add_ids r =
      subst
        (λ n.
          copy_to (add_ids.items ++ replicate n default_id) (size add_ids) (pending e)
          ≡ add_ids.items ++ pending e)
        (omega (arith, length-drop e.next_id_index e.queued_ids.items))
        (copy_to-append add_ids.items default_id (pending e))

  pending-put_behind :
      (e : Event) (add_ids : Vector IdType)
      → InRange e
      → pending (put_behind grow e add_ids) ≡ pending e ++ add_ids.items
  unfolding put_behind
  pending-put_behind e add_ids r =
      let (same, range) = pending-reorganized e (size add_ids) r in
      drop-append_le _ _ add_ids.items range ∙ ap (λ q. q ++ add_ids.items) same

  pending-put_at :
      (position : QueuingPosition) (e : Event) (add_ids : Vector IdType)
      → InRange e
      → pending (put_at grow position e add_ids)
        ≡ Spec.insert_ids position add_ids.items (pending e)
  unfolding put_at
  pending-put_at at_back e add_ids r = pending-put_behind e add_ids r
  pending-put_at at_front e add_ids r = elim (Bool-cases (leb (size add_ids) e.next_id_index)) [
    | inl fits ↦ rw fits (pending-put_in_place e add_ids r (ground arith))
    | inr no_room ↦ rw no_room (pending-put_swapped e add_ids r)
  ]

  -- `append_to_queue_unchecked` puts the new ids, in their order, to their end of the pending ids,
  -- whatever the capacity and the room before the queue.
  pub pending-append :
      (e : Event) (add_ids : Vector IdType) (position : QueuingPosition)
      → InRange e
      → pending (append_to_queue_unchecked grow e add_ids position)
        ≡ Spec.insert_ids position add_ids.items (pending e)
  unfolding append_to_queue_unchecked
  pending-append e add_ids position r = elim (Bool-cases (size add_ids == 0)) [
    | inl none_new ↦ rw none_new (no_new (add_ids.items) none_new)
    | inr some_new ↦ rw some_new (pending-put_at position e add_ids r)
  ]
    where
      no_new :
          (ids : List IdType)
          → (length ids == 0) ≡ true
          → pending e ≡ Spec.insert_ids position ids (pending e)
      no_new [] h = sym (insert_ids-nil position (pending e))
      no_new (id ∷ ids) h = absurd (ground arith)

  -- One id, prepared: what the result is, which ids are to be added, and which old ids stay.
  pub record Prepared (e : Event) (add_ids : Vector IdType) (id : IdType)
      (strategy : QueuingStrategy) (r : QueuingResult × Vector IdType × Event) : Type 0 where
    pub result : r.0 ≡ Spec.queue_one strategy id (pending e)
    pub added :
        r.1.items ≡ (if Spec.is_inserted r.0 then add_ids.items ++ id ∷ [] else add_ids.items)
    pub kept :
        pending r.2
        ≡ (if Spec.is_inserted r.0 then Spec.kept_of strategy id (pending e) else pending e)
    pub range : InRange r.2

  pub prepare-Prepared :
      (e : Event) (add_ids : Vector IdType) (id : IdType) (strategy : QueuingStrategy)
      → InRange e
      → Prepared e add_ids id strategy (prepare_append_queue grow e add_ids id strategy)
  unfolding prepare_append_queue by_strategy
  prepare-Prepared e add_ids id discard r = ground arith
  prepare-Prepared e add_ids id duplicate r = ground arith
  prepare-Prepared e add_ids id replace r = ground (
    arith,
    remove_if-none (λ x. id_eq x id) (pending e),
    length-remove_if_lt (λ x. id_eq x id) (pending e),
    drop-take-append e.next_id_index e.queued_ids.items (Spec.without id (pending e)),
    length-take e.next_id_index e.queued_ids.items,
    length-append (take e.next_id_index e.queued_ids.items) (Spec.without id (pending e)),
  )

  -- `queue_as` of one id, as long as the index lies in the vector: for a valid id it returns the
  -- documented result and does to the pending ids what is documented of the strategy and the position.
  -- For an invalid id, where an exception is documented, it returns `invalid` and changes no pending id.
  pub queue_as_refines :
      (e : Event) (id : IdType) (strategy : QueuingStrategy) (position : QueuingPosition)
      → InRange e
      → let (result, after) = queue_as grow e id strategy position in
        (result ≡ Spec.queue_one strategy id (pending e))
        × (pending after ≡ Spec.queue_as strategy position id (pending e))
  unfolding queue_as
  queue_as_refines e id strategy position r =
      ground (arith, ready, pending-append prepared.2 prepared.1 position ready.range)
    where
      prepared : QueuingResult × Vector IdType × Event
      prepared = prepare_append_queue grow e empty id strategy

      ready : Prepared e empty id strategy prepared
      ready = prepare-Prepared e empty id strategy r
