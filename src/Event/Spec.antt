-- ===== src/Event/Spec.antt =====
-- What event.hpp documents of the queue of pending ids, as a list of ids.
use libslirc_old.Prelude.{Bool, true, false, List, [], ◌∷◌, ◌++◌, if◌then◌else◌, any, remove_if}
use libslirc_old.EventId.{IdType, id_eq, is_invalid}
use libslirc_old.Event.{
  QueuingPosition, at_back, at_front, QueuingStrategy, discard, replace, QueuingResult, discarded,
  queued, replaced, invalid,
}

abbrev pub contains : IdType → List IdType → Bool
contains id = any (λ x. id_eq x id)

abbrev pub without : IdType → List IdType → List IdType
without id = remove_if (λ x. id_eq x id)

abbrev pub insert_ids : QueuingPosition → List IdType → List IdType → List IdType
insert_ids at_back ids q = q ++ ids
insert_ids at_front ids q = ids ++ q

-- What becomes of a valid id that is to be queued.
abbrev pub result_of : QueuingStrategy → Bool → QueuingResult
result_of discard true = discarded
result_of replace true = replaced
result_of _ _ = queued

abbrev pub queue_one : QueuingStrategy → IdType → List IdType → QueuingResult
queue_one strategy id q = if is_invalid id then invalid else result_of strategy (contains id q)

-- The old ids that stay.
abbrev pub kept_of : QueuingStrategy → IdType → List IdType → List IdType
kept_of replace id q = without id q
kept_of _ id q = q

abbrev pub is_inserted : QueuingResult → Bool
is_inserted queued = true
is_inserted replaced = true
is_inserted _ = false

-- One id: an invalid or discarded one changes nothing, any other goes to its end of the queue.
abbrev pub queue_as : QueuingStrategy → QueuingPosition → IdType → List IdType → List IdType
queue_as strategy position id q =
    if is_inserted (queue_one strategy id q)
    then insert_ids position (id ∷ []) (kept_of strategy id q)
    else q

-- A range: the strategy is held against the old ids alone, and the new ones keep their order.
abbrev pub new_ids : QueuingStrategy → List IdType → List IdType → List IdType
new_ids discard ids q = remove_if (λ id. is_invalid id) (remove_if (λ id. contains id q) ids)
new_ids _ ids q = remove_if (λ id. is_invalid id) ids

abbrev pub old_ids : QueuingStrategy → List IdType → List IdType → List IdType
old_ids replace ids q = remove_if (λ x. contains x ids) q
old_ids _ ids q = q

abbrev pub queue_range_as :
    QueuingStrategy → QueuingPosition → List IdType → List IdType → List IdType
queue_range_as strategy position ids q =
    insert_ids position (new_ids strategy ids q) (old_ids strategy ids q)

-- The results of a range: an id that replaces an old one does so at its first occurrence.
abbrev pub range_results : QueuingStrategy → List IdType → List IdType → List QueuingResult
range_results strategy [] q = []
range_results strategy (id ∷ ids) q =
    queue_one strategy id q ∷ range_results strategy ids (kept_of strategy id q)
