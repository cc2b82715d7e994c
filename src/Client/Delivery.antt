-- ===== src/Client/Delivery.antt =====
-- irc.hpp, src/event.cpp and src/modules/event_manager.cpp: an event from `irc::make_event` to the
-- handlers that `handle` calls.
use libslirc_old.Prelude.{ℕ, ◌≤◌, ◌≡◌, refl, ap, ◌∙◌, Bool, true, List, [], ◌∷◌, ◌++◌, Option, some}
use libslirc_old.Prelude.Assoc.{lookup, put, lookup-put_self}
use libslirc_old.Prelude.Classes.{Classes}
use libslirc_old.EventId.{IdType, is_valid}
use libslirc_old.Component.{Container}
use libslirc_old.Event.{Payload}
use libslirc_old.Event.Lifetime.{made, make_event-made, make_event-IsValid}
use libslirc_old.Manager.{Impl, World, queue_event}
use libslirc_old.Manager.Delivery.{waiting, InRange, queue_event-idle}
use libslirc_old.Manager.Handlers.{Signals}
use libslirc_old.Manager.Handle
use libslirc_old.Manager.Handle.{
  Context, Outcome, finished, begin_handling, finishing_handling, finished_handling,
}
use libslirc_old.Manager.Handle.Afterwards.{find_nothing, requeue_nothing}
use libslirc_old.Manager.Dispatch.{
  seeing, connections, Emits, with_user, changing, calls_of_ids, perform,
}
use libslirc_old.Manager.Dispatch.Order.{drained, handle_dispatches}
use libslirc_old.Client.{
  ◌>>=◌, returning, Objects, event_manager, make_event, next_event, queue, handle, returned,
  write_back,
}
use libslirc_old.Client.Steps.{
  make_event-made_at, manager_of-found, next_event-front, queue-found, handle-found,
}

-- A context makes an event and queues it; what `wait_event` returns is handled.
abbrev pub run_event :
    {U : Type 0} (accepts : ℕ → ℕ → U → Bool × U) (classes : Classes)
    (signals : IdType → Context U → Bool × Context U) (grow : ℕ → ℕ → ℕ)
    (context manager address fuel : ℕ) (id : IdType)
    → Objects U
    → Option (Outcome (Objects U))
run_event accepts classes signals grow context manager address fuel id o =
    returning (make_event grow context address id o) >>= λ made_one.
    queue accepts address made_one >>= λ queued.
    next_event manager queued >>= λ (next : ℕ × Objects _).
    handle accepts classes signals fuel next.0 next.1

-- The ids of a new event.
abbrev pub ids_of_new : IdType → List IdType
ids_of_new id = begin_handling ∷ id ∷ finishing_handling ∷ finished_handling ∷ []

module _ {S V : Type 0} (act : ℕ → IdType → Container Payload → V → V) (b : Signals S)
    (signals : IdType → Context (S × V) → Bool × Context (S × V))
    (emits : Emits b (changing act) signals) (accepts : ℕ → ℕ → S × V → Bool × (S × V))
    (classes : Classes) (grow : ℕ → ℕ → ℕ) (grows : (c n : ℕ) → n ≤ grow c n) where
  -- The handling of a new event.
  handle-made :
      (context fuel : ℕ) (id : IdType) (m : Impl) (w : World (S × V))
      → is_valid id ≡ true
      → 3 ≤ fuel
      → let e = made grow context id in
        let start : Context (S × V) = record { event = e; impl = m; world = w } in
        let calls = calls_of_ids (b.slots (connections start)) (ids_of_new id) in
        Handle.handle accepts classes signals fuel start
        ≡ finished (
            with_user (perform (seeing act []) calls w.user.1) (record start { event = drained e }))
  handle-made context fuel id m w h f =
      let e = made grow context id in
      let start : Context (S × V) = record { event = e; impl = m; world = w } in
      let calls = calls_of_ids (b.slots (connections start)) (ids_of_new id) in
      let end =
        with_user (perform (seeing act []) calls w.user.1) (record start { event = drained e }) in
      handle_dispatches act b signals emits accepts classes fuel start
        (make_event-IsValid grow classes grows context id (make_event-made grow context id h)) f
      ∙ requeue_nothing accepts classes end (find_nothing classes)

  -- A context with an event manager that has no events and for which nobody waits: an event that
  -- `make_event` makes of a valid id and `queue` queues is what `wait_event` returns, and its
  -- `handle` calls exactly the handlers that are connected to begin_handling, to the id, to
  -- finishing_handling and to finished_handling, in this order and those of an id in the order of its
  -- slots. Afterwards no id of the event is pending, and the event manager has no event. The handling
  -- has a fuel of at least 3; the handlers change the user's state alone, by the id and the components of
  -- the event.
  pub event_delivered :
      (context manager address fuel : ℕ) (id : IdType) (o : Objects (S × V)) (m : Impl)
      → event_manager context o ≡ some manager
      → lookup manager o.managers ≡ some m
      → InRange m
      → m.queue ≡ []
      → waiting m ≡ []
      → is_valid id ≡ true
      → 3 ≤ fuel
      → let calls = calls_of_ids (b.slots o.world.user.0) (ids_of_new id) in
        (after : Objects (S × V)) × (left : Impl) × (run_event accepts classes signals grow context
            manager address fuel id o
          ≡ some (finished after))
        × (after.world.user ≡ (o.world.user.0, perform (seeing act []) calls o.world.user.1))
        × (lookup address after.events ≡ some (drained (made grow context id)))
        × (lookup manager after.managers ≡ some left)
        × (left.queue ≡ [])
  unfolding event_manager
  event_delivered context manager address fuel id o m has at range empty idle valid f =
      let e = made grow context id in
      let made_one : Objects (S × V) = record o { events = put address e o.events } in
      let found = lookup-put_self address e o.events in
      let (full, same) = queue_event-idle accepts address m o.world range idle in
      let left = (queue_event accepts address m o.world).0 in
      let queued : Objects (S × V) = record made_one { managers = put manager left o.managers } in
      let held = lookup-put_self manager left o.managers in
      let emptied : Impl = record left { queue = [] } in
      let next : Objects (S × V) = record queued {
        managers = put manager emptied queued.managers;
      } in
      let start : Context (S × V) = record { event = e; impl = emptied; world = o.world } in
      let calls = calls_of_ids (b.slots o.world.user.0) (ids_of_new id) in
      let end =
        with_user (perform (seeing act []) calls o.world.user.1)
          (record start { event = drained e }) in
      let made_step = make_event-made_at grow context address id o valid in
      let queue_step =
        queue-found accepts address made_one found (manager_of-found e made_one has at)
        ∙ ap (λ w. some (record queued { world = w })) same in
      let next_step =
        next_event-front manager address [] queued left held
          (full ∙ ap (λ q. q ++ address ∷ []) empty) in
      let handle_step =
        handle-found accepts classes signals fuel address next found
          (manager_of-found e next has (lookup-put_self manager emptied queued.managers))
        ∙ ap (λ r. some (returned (write_back address manager next) r))
            (handle-made context fuel id emptied o.world valid f) in
      let handled = λ (n : ℕ × Objects (S × V)). handle accepts classes signals fuel n.0 n.1 in
      let received = λ (q : Objects (S × V)). next_event manager q >>= handled in
      (
        write_back address manager next end,
        emptied,
        ap (λ r. returning r >>= λ one. queue accepts address one >>= received) made_step
            ∙ ap (λ r. r >>= received) queue_step
            ∙ ap (λ r. r >>= handled) next_step
            ∙ handle_step,
        refl,
        lookup-put_self address (drained e) next.events,
        lookup-put_self manager emptied next.managers,
        refl,
      )
