-- ===== src/Manager/Dispatch/Order.antt =====
-- src/modules/event_manager.cpp, `handle`: which handlers are called, and in which order.
use libslirc_old.Prelude.{
  ℕ, ◌+◌, ◌≤◌, ◌≡◌, refl, sym, ap, ◌∙◌, Bool, false, List, [], ◌∷◌, ◌++◌, arith, length,
  append_assoc, append-nil, length-drop,
}
use libslirc_old.Prelude.Classes.{Classes}
use libslirc_old.EventId.{IdType}
use libslirc_old.Component.{Container}
use libslirc_old.Event.{Event, Payload, pending}
use libslirc_old.Event.Queuing.Invariant.{IsValid}
use libslirc_old.Event.Queuing.Pending.{InRange}
use libslirc_old.Event.Unqueue.{pop_front}
use libslirc_old.Manager.Handlers.{Slot, Signals}
use libslirc_old.Manager.Handle.{
  Context, handle, requeue_afterwards, begin_handling, finishing_handling, finished_handling,
  set_current,
}
use libslirc_old.Manager.Handle.Order.{AreQuiet, signalled, visit, handle_in_order}
use libslirc_old.Manager.Dispatch.{
  seeing, call_slots, connections, Emits, with_user, changing, calls_of, calls_of_ids, perform,
  handled_ids,
}

perform-append :
    {V : Type 0} (act : ℕ → IdType → V → V) (xs ys : List (IdType × ℕ)) (v : V)
    → perform act (xs ++ ys) v ≡ perform act ys (perform act xs v)
perform-append act [] ys v = refl
perform-append act ((id, h) ∷ xs) ys v = perform-append act xs ys (act h id v)

calls_of_ids-append :
    (slots : IdType → List Slot) (xs ys : List IdType)
    → calls_of_ids slots (xs ++ ys) ≡ calls_of_ids slots xs ++ calls_of_ids slots ys
calls_of_ids-append slots [] ys = refl
calls_of_ids-append slots (x ∷ xs) ys = simp (calls_of_ids-append slots xs ys, append_assoc)

module _ {S V : Type 0} (act : ℕ → IdType → Container Payload → V → V) where
  call_slots-changing :
      (l : List Slot) (c : Context (S × V))
      → call_slots (changing act) l c ≡ (
        false,
        with_user
            (perform
              (seeing act c.event.components)
              (calls_of c.event.current_id_mutable l)
              c.world.user.1)
            c,
      )
  unfolding call_slots
  call_slots-changing [] c = refl
  call_slots-changing (s ∷ l) c =
      call_slots-changing l
        (with_user (act s.handler c.event.current_id_mutable c.event.components c.world.user.1) c)

  module _ (b : Signals S) (signals : IdType → Context (S × V) → Bool × Context (S × V))
      (emits : Emits b (changing act) signals) where
    changing-AreQuiet : AreQuiet signals
    changing-AreQuiet id c =
        let e = emits id c ∙ call_slots-changing (b.slots (connections c) id) c in ground arith

    -- The ids are handled, in order.
    abbrev handling : List IdType → Context (S × V) → Context (S × V)
    handling ids c =
        with_user
          (perform (seeing act c.event.components) (calls_of_ids (b.slots (connections c)) ids)
            c.world.user.1)
          c

    signalled-handling :
        (id : IdType) (c : Context (S × V)) → signalled signals id c ≡ handling (id ∷ []) c
    signalled-handling id c =
        let at = set_current id c in
        let e = emits id at ∙ call_slots-changing (b.slots (connections c) id) at in
        ground (arith, e, append-nil (calls_of id (b.slots (connections c) id)))

    -- Popped ids are behind the index.
    abbrev moved : ℕ → Context (S × V) → Context (S × V)
    moved n c = record c { event = record (c.event) { next_id_index = c.event.next_id_index + n } }

    handling-handling :
        (xs ys : List IdType) (c : Context (S × V))
        → handling ys (handling xs c) ≡ handling (xs ++ ys) c
    handling-handling xs ys c =
        let slots = b.slots (connections c) in
        ap (λ v. with_user v c)
          (sym (
            ap (λ l. perform (seeing act c.event.components) l c.world.user.1)
              (calls_of_ids-append slots xs ys)
            ∙ perform-append (seeing act c.event.components) (calls_of_ids slots xs)
                (calls_of_ids slots ys) c.world.user.1))

    visit-handling :
        (ids : List IdType) (c : Context (S × V))
        → pending c.event ≡ ids
        → InRange c.event
        → visit signals ids c ≡ moved (length ids) (handling ids c)
    visit-handling [] c p r = ground arith
    visit-handling (id ∷ ids) c p r =
        let (at, rest, range) = pop_front id ids c.event r p in
        let next = moved 1 c in
        ap
          (λ (q : IdType × Event).
            visit signals ids (signalled signals id (record c { event = q.1 })))
          at
        ∙ ap (visit signals ids) (signalled-handling id next)
        ∙ visit-handling ids (handling (id ∷ []) next) rest range
        ∙ ap (moved (length ids)) (handling-handling (id ∷ []) ids next)
        ∙ ground arith

    -- All ids of an event, with the events around them.
    signalled-all :
        (c : Context (S × V))
        → InRange c.event
        → signalled signals finished_handling (
            signalled signals finishing_handling
              (visit signals (pending c.event) (signalled signals begin_handling c)))
          ≡ moved (length (pending c.event)) (handling (handled_ids c.event) c)
    signalled-all c r =
        let ids = pending c.event in
        let n = length ids in
        let begun = handling (begin_handling ∷ []) c in
        let last = finishing_handling ∷ finished_handling ∷ [] in
        let behind = λ (d : Context (S × V)).
          signalled signals finished_handling (signalled signals finishing_handling d) in
        ap (λ d. behind (visit signals ids d)) (signalled-handling begin_handling c)
        ∙ ap behind (visit-handling ids begun refl r)
        ∙ ap (signalled signals finished_handling)
            (signalled-handling finishing_handling (moved n (handling ids begun)))
        ∙ signalled-handling finished_handling
            (handling (finishing_handling ∷ []) (moved n (handling ids begun)))
        ∙ handling-handling (finishing_handling ∷ []) (finished_handling ∷ [])
            (moved n (handling ids begun))
        ∙ ap (moved n) (ap (handling last) (handling-handling (begin_handling ∷ []) ids c))
        ∙ ap (moved n) (handling-handling (begin_handling ∷ ids) last c)

-- An event whose ids are all handled.
abbrev pub drained : Event → Event
drained e = record e { next_id_index = length e.queued_ids.items }

module _ {S V : Type 0} (act : ℕ → IdType → Container Payload → V → V) (b : Signals S)
    (signals : IdType → Context (S × V) → Bool × Context (S × V))
    (emits : Emits b (changing act) signals) (accepts : ℕ → ℕ → S × V → Bool × (S × V))
    (classes : Classes) where
  -- With handlers that change the user's state alone, by the id and the components of the event,
  -- `handle` calls exactly the handlers that are connected to begin_handling, to each pending id in
  -- order, to finishing_handling and to finished_handling, those of an id in the order of its slots, and
  -- then queues the events behind the handled one. Boost calls the slots as it documents; fuel of two
  -- more than the pending ids is enough.
  pub handle_dispatches :
      (fuel : ℕ) (c : Context (S × V))
      → IsValid c.event
      → length (pending c.event) + 2 ≤ fuel
      → let calls = calls_of_ids (b.slots (connections c)) (handled_ids c.event) in
        handle accepts classes signals fuel c
        ≡ requeue_afterwards accepts classes (
            with_user
              (perform (seeing act c.event.components) calls c.world.user.1)
              (record c { event = drained c.event }))
  handle_dispatches fuel c v h =
      handle_in_order accepts classes signals (changing-AreQuiet act b signals emits) fuel c v h
      ∙ ap (requeue_afterwards accepts classes) (
          signalled-all act b signals emits c v.range
          ∙ ground (arith, length-drop c.event.next_id_index c.event.queued_ids.items, v.range))
