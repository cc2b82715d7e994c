-- ===== src/Event/Queuing/Range.antt =====
-- include/slirc/event.hpp, `queue_as` of a range: one pass over the ids, then one insertion.
use libslirc_old.Prelude.{
  ℕ, ◌≡◌, refl, ap, ◌∙◌, true, ◌||◌, List, [], ◌∷◌, ◌++◌, append-nil, append_assoc, arith, all,
  remove_if_congr, remove_if-remove_if, ap₂, all-remove_if,
}
use libslirc_old.Prelude.Vector.{Vector, empty}
use libslirc_old.EventId.{IdType, id_eq, is_valid, is_invalid}
use libslirc_old.EventId.Laws.{id_eq_sym}
use libslirc_old.Event.{
  Event, pending, QueuingPosition, QueuingStrategy, discard, replace, duplicate, QueuingResult,
}
use libslirc_old.Event.Queuing.{prepare_append_queue, prepare_all, queue_range_as}
use libslirc_old.Event.Queuing.Pending.{InRange, Prepared, prepare-Prepared, pending-append}
use libslirc_old.Event.Spec

abbrev pub AllValid : List IdType → Type 0
AllValid q = all is_valid q ≡ true

-- An invalid id is never among valid ones.
without-invalid :
    (id : IdType) (q : List IdType) → AllValid q → is_invalid id ≡ true → Spec.without id q ≡ q
without-invalid id [] v h = refl
without-invalid id (x ∷ q) v h = ground (arith, without-invalid id q)

old_ids-nil : (q : List IdType) → Spec.old_ids replace [] q ≡ q
old_ids-nil [] = refl
old_ids-nil (x ∷ q) = ap (◌∷◌ x) (old_ids-nil q)

-- What a range does step by step is what it does at once.
old_ids-cons :
    (id : IdType) (ids q : List IdType)
    → Spec.old_ids replace ids (Spec.without id q) ≡ Spec.old_ids replace (id ∷ ids) q
old_ids-cons id ids q =
    remove_if-remove_if (λ x. Spec.contains x ids) (λ x. id_eq x id) q
    ∙ remove_if_congr _ _ q (λ x. ap (λ b. b || Spec.contains x ids) (id_eq_sym x id))

module _ (grow : ℕ → ℕ → ℕ) where
  record AllPrepared (e : Event) (add_ids : Vector IdType) (ids : List IdType)
      (strategy : QueuingStrategy) (r : List QueuingResult × Vector IdType × Event) : Type 0 where
    results : r.0 ≡ Spec.range_results strategy ids (pending e)
    added : r.1.items ≡ add_ids.items ++ Spec.new_ids strategy ids (pending e)
    kept : pending r.2 ≡ Spec.old_ids strategy ids (pending e)
    range : InRange r.2

  prepared_valid :
      (e : Event) (add_ids : Vector IdType) (id : IdType) (strategy : QueuingStrategy)
      (p : QueuingResult × Vector IdType × Event)
      → AllValid (pending e)
      → Prepared grow e add_ids id strategy p
      → AllValid (pending p.2)
  prepared_valid e add_ids id discard p v f = ground (arith, f)
  prepared_valid e add_ids id replace p v f =
      ground (arith, f, all-remove_if is_valid (λ x. id_eq x id) (pending e))
  prepared_valid e add_ids id duplicate p v f = ground (arith, f)

  AllPrepared-cons :
      (e : Event) (add_ids : Vector IdType) (id : IdType) (ids : List IdType)
      (strategy : QueuingStrategy) (p : QueuingResult × Vector IdType × Event)
      (r : List QueuingResult × Vector IdType × Event)
      → AllValid (pending e)
      → Prepared grow e add_ids id strategy p
      → AllPrepared p.2 p.1 ids strategy r
      → AllPrepared e add_ids (id ∷ ids) strategy (p.0 ∷ r.0, r.1, r.2)
  AllPrepared-cons e add_ids id ids discard p r v f h =
      ground
        (arith, f, h, append_assoc add_ids.items (id ∷ []) (Spec.new_ids discard ids (pending e)))
  AllPrepared-cons e add_ids id ids replace p r v f h = ground (
    arith,
    f,
    h,
    append_assoc add_ids.items (id ∷ []) (Spec.new_ids replace ids (pending e)),
    old_ids-cons id ids (pending e),
    without-invalid id (pending e) v,
  )
  AllPrepared-cons e add_ids id ids duplicate p r v f h =
      ground
        (arith, f, h, append_assoc add_ids.items (id ∷ []) (Spec.new_ids duplicate ids (pending e)))

  prepare_all-AllPrepared :
      (e : Event) (add_ids : Vector IdType) (ids : List IdType) (strategy : QueuingStrategy)
      → InRange e
      → AllValid (pending e)
      → AllPrepared e add_ids ids strategy (prepare_all grow e add_ids ids strategy)
  unfolding prepare_all
  prepare_all-AllPrepared e add_ids [] discard r v = ground (arith, append-nil add_ids.items)
  prepare_all-AllPrepared e add_ids [] replace r v =
      ground (arith, append-nil add_ids.items, old_ids-nil (pending e))
  prepare_all-AllPrepared e add_ids [] duplicate r v = ground (arith, append-nil add_ids.items)
  prepare_all-AllPrepared e add_ids (id ∷ ids) strategy r v =
      let p = prepare_append_queue grow e add_ids id strategy in
      let ready = prepare-Prepared grow e add_ids id strategy r in
      AllPrepared-cons e add_ids id ids strategy p (prepare_all grow p.2 p.1 ids strategy) v ready (
        prepare_all-AllPrepared p.2 p.1 ids strategy ready.range
          (prepared_valid e add_ids id strategy p v ready))

  -- `queue_as` of a range gives the results in order and does to the pending ids what is documented
  -- of the strategy and the position: invalid ids are left out, the strategy is held against the
  -- ids that were pending before, and the new ids keep their order at either end. The index lies
  -- in the vector, and no pending id is invalid.
  pub queue_range_as_refines :
      (e : Event) (ids : List IdType) (strategy : QueuingStrategy) (position : QueuingPosition)
      → InRange e
      → AllValid (pending e)
      → let (results, after) = queue_range_as grow e ids strategy position in
        (results ≡ Spec.range_results strategy ids (pending e))
        × (pending after ≡ Spec.queue_range_as strategy position ids (pending e))
  unfolding queue_range_as
  queue_range_as_refines e ids strategy position r v = (
    ready.results,
    pending-append grow prepared.2 prepared.1 position ready.range
        ∙ ap₂ (Spec.insert_ids position) ready.added ready.kept,
  )
    where
      prepared : List QueuingResult × Vector IdType × Event
      prepared = prepare_all grow e empty ids strategy

      ready : AllPrepared e empty ids strategy prepared
      ready = prepare_all-AllPrepared e empty ids strategy r v
