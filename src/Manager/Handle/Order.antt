-- ===== src/Manager/Handle/Order.antt =====
-- src/modules/event_manager.cpp, `handle`: the order of the signals, and what becomes of the events
-- behind the handled one.
use libslirc_old.Prelude.{
  ℕ, zero, suc, ◌+◌, ◌≤◌, ◌≡◌, refl, sym, ap, ◌∙◌, inl, inr, Bool, true, false, List, [], ◌∷◌,
  arith, length, all-drop, subst,
}
use libslirc_old.Prelude.Classes.{Classes}
use libslirc_old.EventId.{IdType, is_valid, default_id}
use libslirc_old.Event.{Event, pending, pop_next_queued_id}
use libslirc_old.Event.Queuing.Invariant.{IsValid}
use libslirc_old.Event.Queuing.Pending.{InRange}
use libslirc_old.Event.Queuing.Range.{AllValid}
use libslirc_old.Event.Unqueue.{pop-pending}
use libslirc_old.Manager.Handle.Steps.{handle_ids_last, handle_ids_more}
use libslirc_old.Manager.Handle.{
  Context, Outcome, finished, ◌>>=◌, set_current, restore, popped, handle_as, manager_handle_as,
  handle_ids, handle_rounds, handle, requeue_afterwards, begin_handling, finishing_handling,
  finished_handling,
}

restore-quiet :
    {U : Type 0} (id : IdType) (e : Event) (c : Context U) (r : Bool × Context U)
    → e ≡ record (c.event) { current_id_mutable = id }
    → (r.0 ≡ false) × (r.1.event ≡ c.event)
    → restore id r ≡ finished (record (r.1) { event = e })
restore-quiet id e c (false, after) at (h, same) = ground arith
restore-quiet id e c (true, after) at (h, same) = absurd (cc)

-- Handlers that neither throw nor touch the event.
abbrev pub AreQuiet : {U : Type 0} → (IdType → Context U → Bool × Context U) → Type 0
AreQuiet {U} signals =
    (id : IdType) (c : Context U) → ((signals id c).0 ≡ false) × ((signals id c).1.event ≡ c.event)

module _ {U : Type 0} (signals : IdType → Context U → Bool × Context U) where
  -- The signal of an id has been called, and the event is as before.
  abbrev pub signalled : IdType → Context U → Context U
  signalled id c = record ((signals id (set_current id c)).1) { event = c.event }

  -- Each id is popped, then signalled.
  abbrev pub visit : List IdType → Context U → Context U
  visit [] c = c
  visit (id ∷ ids) c = visit ids (signalled id (popped c).1)

  module _ (quiet : AreQuiet signals) where
    handle_as-signalled :
        (id : IdType) (c : Context U) → handle_as signals id c ≡ finished (signalled id c)
    unfolding handle_as manager_handle_as
    handle_as-signalled id c =
        restore-quiet c.event.current_id_mutable c.event (set_current id c)
          (signals id (set_current id c)) refl (quiet id (set_current id c))

    handle_ids-visit :
        (ids : List IdType) (fuel : ℕ) (c : Context U)
        → pending c.event ≡ ids
        → InRange c.event
        → AllValid ids
        → length ids + 1 ≤ fuel
        → handle_ids signals fuel (popped c).0 (popped c).1 ≡ finished (visit ids c)
    unfolding handle_ids
    handle_ids-visit ids zero c p r v h = absurd (omega arith)
    handle_ids-visit [] (suc fuel) c p r v h = elim (pop-pending c.event r) [
      | inl (none_left, e) ↦
          subst
            (λ (q : IdType × Event).
              handle_ids signals (suc fuel) q.0 (record c { event = q.1 }) ≡ finished c)
            (sym e) (handle_ids_last signals fuel default_id c refl)
      | inr (id, ids, after, front, e, rest, range) ↦ absurd (cc)
    ]
    handle_ids-visit (id ∷ ids) (suc fuel) c p r v h = elim (pop-pending c.event r) [
      | inl (none_left, e) ↦ absurd (cc)
      | inr (first, others, after, front, e, rest, range) ↦
          let left : Context U = record c { event = after } in
          let at : pop_next_queued_id c.event ≡ (id, after) = e ∙ ground arith in
          subst
            (λ (q : IdType × Event).
              handle_ids signals (suc fuel) q.0 (record c { event = q.1 })
              ≡ finished (visit ids (signalled id (record c { event = q.1 }))))
            (sym at)
            (handle_ids_more signals fuel id left (ground arith)
              ∙ ap
                  (λ o.
                    o >>= λ handled. handle_ids signals fuel (popped handled).0 (popped handled).1)
                  (handle_as-signalled id left)
              ∙ handle_ids-visit ids fuel (signalled id left) (ground arith) range (ground arith)
                  (omega arith))
    ]

pop_empty : (e : Event) → pending e ≡ [] → InRange e → pop_next_queued_id e ≡ (default_id, e)
pop_empty e p r = elim (pop-pending e r) [
  | inl (none_left, at) ↦ at
  | inr (id, ids, after, front, at, rest, range) ↦ absurd (cc)
]

module _ {U : Type 0} (signals : IdType → Context U → Bool × Context U)
    (quiet : AreQuiet signals) where
  visit-pending :
      (ids : List IdType) (c : Context U)
      → pending c.event ≡ ids
      → InRange c.event
      → (pending (visit signals ids c).event ≡ []) × InRange (visit signals ids c).event
  visit-pending [] c p r = (p, r)
  visit-pending (id ∷ ids) c p r = elim (pop-pending c.event r) [
    | inl (none_left, e) ↦ absurd (cc)
    | inr (first, others, after, front, e, rest, range) ↦
        visit-pending ids (signalled signals id (popped c).1)
          (subst (λ (q : IdType × Event). pending q.1 ≡ ids) (sym e) (ground arith))
          (subst (λ (q : IdType × Event). InRange q.1) (sym e) range)
  ]

  handle_rounds-visit :
      (inner fuel : ℕ) (c : Context U)
      → InRange c.event
      → AllValid (pending c.event)
      → length (pending c.event) + 1 ≤ inner
      → handle_rounds signals inner (suc fuel) (popped c).0 (popped c).1
        ≡ finished (signalled signals finishing_handling (visit signals (pending c.event) c))
  unfolding handle_rounds
  handle_rounds-visit inner fuel c r v h =
      let drained = visit signals (pending c.event) c in
      let (none_left, range) = visit-pending (pending c.event) c refl r in
      let ids = handle_ids-visit signals quiet (pending c.event) inner c refl r v h in
      let finishing = handle_as-signalled signals quiet finishing_handling drained in
      let done = signalled signals finishing_handling drained in
      let last = pop_empty drained.event none_left range in
      let again = λ (q : IdType × Event).
        let rest : Context U = record done { event = q.1 } in
        let o : Outcome (Context U) = elim (is_valid q.0) [
          | false ↦ finished rest
          | true ↦ handle_rounds signals inner fuel q.0 rest
        ] in
        o in
      let round = λ (finishing' : Context U).
        let (following, rest) = popped finishing' in
        let o : Outcome (Context U) = elim (is_valid following) [
          | false ↦ finished rest
          | true ↦ handle_rounds signals inner fuel following rest
        ] in
        o in
      ap (λ o. o >>= λ d. handle_as signals finishing_handling d >>= round) ids
      ∙ ap (λ o. o >>= round) finishing
      ∙ ap again last

module _ {U : Type 0} (accepts : ℕ → ℕ → U → Bool × U) (classes : Classes)
    (signals : IdType → Context U → Bool × Context U) (quiet : AreQuiet signals) where
  -- With handlers that neither throw nor touch the event, `handle` calls the signals of
  -- begin_handling, of each pending id in order (each popped before its signal), of
  -- finishing_handling and of finished_handling, once each and in this order, and then queues the
  -- events behind the handled one. Fuel of two more than the pending ids is enough.
  pub handle_in_order :
      (fuel : ℕ) (c : Context U)
      → IsValid c.event
      → length (pending c.event) + 2 ≤ fuel
      → handle accepts classes signals fuel c
        ≡ requeue_afterwards accepts classes (
            signalled signals finished_handling (
              signalled signals finishing_handling
                (visit signals (pending c.event) (signalled signals begin_handling c))))
  unfolding handle
  handle_in_order zero c v h = absurd (omega arith)
  handle_in_order (suc fuel) c v h =
      let begun = signalled signals begin_handling c in
      ap
        (λ o. o >>= λ b.
          handle_rounds signals (suc fuel) (suc fuel) (popped b).0 (popped b).1 >>= λ d.
          handle_as signals finished_handling d >>= requeue_afterwards accepts classes)
        (handle_as-signalled signals quiet begin_handling c)
      ∙ ap
          (λ o.
            o >>= λ d. handle_as signals finished_handling d >>= requeue_afterwards accepts classes)
          (handle_rounds-visit signals quiet (suc fuel) fuel begun v.range
            (all-drop is_valid c.event.next_id_index c.event.queued_ids.items v.valid)
            (omega arith))
      ∙ ap (λ o. o >>= requeue_afterwards accepts classes)
          (handle_as-signalled signals quiet finished_handling
            (signalled signals finishing_handling (visit signals (pending c.event) begun)))
