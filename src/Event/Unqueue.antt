-- ===== src/Event/Unqueue.antt =====
-- src/event.cpp: `pop_next_queued_id`, `is_queued_as` and `unqueue` on the list of pending ids.
-- `unqueue` erases from the whole vector, the handled ids before the index included, and leaves the
-- index where it is.
use mathlib.Core.Logic.Or
use mathlib.Core.List.{Mem, mem-cons_self, mem-cons_of_mem, not-mem-nil, eq-or-mem_of_mem-cons}
use libslirc_old.Prelude.{
  remove_if_of_length, ◌+◌, ◌<◌, ◌≡◌, refl, sym, ap, ◌∙◌, ◌⊎◌, inl, inr, ◌↔◌, Bool, true, false,
  List, [], ◌∷◌, ◌++◌, arith, ltb, length, take, drop, any, remove_if, get_elem?-drop, drop_all,
  count_if, length-remove_if-count_if, drop-append_ge, count_if-append, count_if-any,
  remove_if-append, remove_if-none, take-append-drop, length-take, length-append, Bool-cases,
}
use libslirc_old.EventId.{IdType, id_eq, default_id}
use libslirc_old.EventId.Laws.{id_eq_iff, id_eq_refl}
use libslirc_old.Event.{Event, pending, pop_next_queued_id, is_queued_as, unqueue, unqueue_matching}
use libslirc_old.Event.Queuing.Pending.{InRange}

-- The ids that have been handled, as far as the vector still holds them.
abbrev pub handled : Event → List IdType
handled e = take e.next_id_index e.queued_ids.items

-- `pop_next_queued_id` returns the first pending id and leaves the others, and returns the invalid
-- id and changes nothing when no id is pending.
pub pop-pending :
    (e : Event)
    → InRange e
    → ((pending e ≡ []) × (pop_next_queued_id e ≡ (default_id, e)))
      ⊎ ((id : IdType) × (ids : List IdType) × (after : Event) × (pending e ≡ id ∷ ids)
          × (pop_next_queued_id e ≡ (id, after))
          × (pending after ≡ ids)
          × InRange after)
unfolding pop_next_queued_id
pop-pending e r = elim (Bool-cases (ltb e.next_id_index (length e.queued_ids.items))) [
  | inl more ↦
      let (id, at, rest) = get_elem?-drop e.queued_ids.items e.next_id_index (ground arith) in
      inr (
        id,
        drop (e.next_id_index + 1) e.queued_ids.items,
        record e { next_id_index = e.next_id_index + 1 },
        rest,
        ground arith,
        refl,
        ground arith,
      )
  | inr done ↦ inl (drop_all e.next_id_index e.queued_ids.items (ground arith), ground arith)
]

-- The event behind the pop of a pending id.
pub pop_front :
    (id : IdType) (ids : List IdType) (e : Event)
    → InRange e
    → pending e ≡ id ∷ ids
    → let after = record e { next_id_index = e.next_id_index + 1 } in
      (pop_next_queued_id e ≡ (id, after)) × (pending after ≡ ids) × InRange after
unfolding pop_next_queued_id
pop_front id ids e r p = elim (Bool-cases (ltb e.next_id_index (length e.queued_ids.items))) [
  | inl more ↦
      let (other, at, rest) = get_elem?-drop e.queued_ids.items e.next_id_index (ground arith) in
      (ground arith, ground arith, ground arith)
  | inr done ↦ absurd (
      let none_left : pending e ≡ [] = drop_all e.next_id_index e.queued_ids.items (ground arith) in
      cc)
]

find-Mem : (id : IdType) (q : List IdType) → any (λ x. id_eq x id) q ≡ true → Mem id q
find-Mem id [] h = absurd (cc)
find-Mem id (x ∷ q) h = elim (Bool-cases (id_eq x id)) [
  | inl same ↦ rw ((id_eq_iff x id).0 same) mem-cons_self
  | inr other ↦ mem-cons_of_mem x (find-Mem id q (ground arith))
]

Mem-find : (id : IdType) (q : List IdType) → Mem id q → any (λ x. id_eq x id) q ≡ true
Mem-find id [] m = absurd (not-mem-nil m)
Mem-find id (x ∷ q) m =
    Or.elim (hlevel) (eq-or-mem_of_mem-cons m) (λ e. ground (arith, id_eq_refl x))
      (λ n. ground (arith, Mem-find id q n))

-- `is_queued_as` says whether an id is among the pending ones.
pub is_queued_as_iff : (id : IdType) (e : Event) → (is_queued_as id e ≡ true) ↔ Mem id (pending e)
unfolding is_queued_as
is_queued_as_iff id e = (find-Mem id (pending e), Mem-find id (pending e))

module _ (matcher : IdType → Bool) (e : Event) (r : InRange e) where
  kept_parts :
      remove_if matcher e.queued_ids.items
      ≡ remove_if matcher (handled e) ++ remove_if matcher (pending e)
  kept_parts =
      ap (remove_if matcher) (sym (take-append-drop e.next_id_index e.queued_ids.items))
      ∙ remove_if-append matcher (handled e) (pending e)

  count_parts :
      count_if matcher e.queued_ids.items
      ≡ count_if matcher (handled e) + count_if matcher (pending e)
  count_parts =
      ap (count_if matcher) (sym (take-append-drop e.next_id_index e.queued_ids.items))
      ∙ count_if-append matcher (handled e) (pending e)

  drop-kept :
      drop e.next_id_index (remove_if matcher e.queued_ids.items)
      ≡ drop (count_if matcher (handled e)) (remove_if matcher (pending e))
  drop-kept =
      ap (drop e.next_id_index) kept_parts
      ∙ drop-append_ge e.next_id_index _ _ (
          omega (
            arith,
            length-remove_if-count_if matcher (handled e),
            length-take e.next_id_index e.queued_ids.items r,
          ))
      ∙ ap (λ k. drop k (remove_if matcher (pending e)))
          (omega (
            arith,
            length-remove_if-count_if matcher (handled e),
            length-take e.next_id_index e.queued_ids.items r,
          ))

  -- `unqueue` by a matcher leaves of the pending ids those that do not match, and then drops from
  -- their front as many more as there were matches among the ids handled before. It returns
  -- whether anything in the whole vector matched. The index lies in the vector.
  pub unqueue-pending :
      let (found, after) = unqueue_matching matcher e in
      (pending after ≡ drop (count_if matcher (handled e)) (remove_if matcher (pending e)))
      × ((found ≡ true) ↔ (0 < count_if matcher (handled e) + count_if matcher (pending e)))
  unfolding unqueue_matching
  unqueue-pending = (
    ground (arith, drop-kept, remove_if_of_length matcher e.queued_ids.items),
    (
      λ h. ground (arith, count_parts, length-remove_if-count_if matcher e.queued_ids.items),
      λ h. ground (arith, count_parts, length-remove_if-count_if matcher e.queued_ids.items),
    ),
  )

  -- If no handled id matches, `unqueue` removes exactly the matching pending ids, returns whether
  -- there were any, and keeps the index in the vector.
  pub unqueue_fresh :
      any matcher (handled e) ≡ false
      → let (found, after) = unqueue_matching matcher e in
        (pending after ≡ remove_if matcher (pending e))
        × (found ≡ any matcher (pending e))
        × InRange after
  unfolding unqueue_matching
  unqueue_fresh h =
      let zero : count_if matcher (handled e) ≡ 0 =
        ground (arith, count_if-any matcher (handled e)) in
      let (left, found) = unqueue-pending in
      (
        left ∙ ap (λ k. drop k (remove_if matcher (pending e))) zero,
        ground (arith, found, count_if-any matcher (pending e)),
        ground (
          arith,
          ap length kept_parts,
          length-append (remove_if matcher (handled e)) (remove_if matcher (pending e)),
          length-remove_if-count_if matcher (handled e),
          length-take e.next_id_index e.queued_ids.items r,
        ),
      )

  -- If a handled id matches and no pending one does, `unqueue` still returns true, and as many ids
  -- as matched are lost from the front of the pending ones.
  pub unqueue_loses :
      any matcher (handled e) ≡ true
      → any matcher (pending e) ≡ false
      → let (found, after) = unqueue_matching matcher e in
        (found ≡ true)
        × (0 < count_if matcher (handled e))
        × (pending after ≡ drop (count_if matcher (handled e)) (pending e))
  unqueue_loses h k =
      let matched = (count_if-any matcher (handled e)).0 h in
      let (left, found) = unqueue-pending in
      (
        found.1 (omega arith),
        matched,
        left ∙ ap (drop (count_if matcher (handled e))) (remove_if-none matcher (pending e) k),
      )

-- `unqueue` of an id is `unqueue` by equality with it.
pub unqueue-matching :
    (id : IdType) (e : Event) → unqueue id e ≡ unqueue_matching (λ x. id_eq x id) e
unfolding unqueue unqueue_matching
unqueue-matching id e = refl
