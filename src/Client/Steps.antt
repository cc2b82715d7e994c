-- ===== src/Client/Steps.antt =====
-- irc.hpp and src/event.cpp: the calls of an event whose context has an event manager.
use libslirc_old.Prelude.{ℕ, ◌≡◌, ap, Bool, true, List, ◌∷◌, some, arith, ok}
use libslirc_old.Prelude.Assoc.{lookup, put}
use libslirc_old.Prelude.Classes.{Classes}
use libslirc_old.EventId.{IdType, is_valid}
use libslirc_old.Event.{Event}
use libslirc_old.Event.Lifetime.{made, make_event-made}
use libslirc_old.Manager.{Impl, queue_event}
use libslirc_old.Manager.Delivery.{take_front-cons}
use libslirc_old.Manager.Handle
use libslirc_old.Manager.Handle.{
  Context, finished, begin_handling, finishing_handling, finished_handling,
}
use libslirc_old.Client.{
  Objects, event_manager, manager_of, make_event, made_at, next_event, queue, handle, returned,
  write_back,
}

module _ {U : Type 0} where
  pub make_event-made_at :
      (grow : ℕ → ℕ → ℕ) (context address : ℕ) (id : IdType) (o : Objects U)
      → is_valid id ≡ true
      → make_event grow context address id o
        ≡ ok (record o { events = put address (made grow context id) o.events })
  unfolding make_event made_at
  make_event-made_at grow context address id o h =
      ap (made_at address o) (make_event-made grow context id h)

  pub manager_of-found :
      (e : Event) (o : Objects U) {a : ℕ} {m : Impl}
      → event_manager e.irc o ≡ some a
      → lookup a o.managers ≡ some m
      → manager_of e o ≡ some (a, m)
  unfolding manager_of
  manager_of-found e o h l = ground arith

  pub next_event-front :
      (a e : ℕ) (rest : List ℕ) (o : Objects U) (m : Impl)
      → lookup a o.managers ≡ some m
      → m.queue ≡ e ∷ rest
      → next_event a o
        ≡ some (e, record o { managers = put a (record m { queue = rest }) o.managers })
  unfolding next_event
  next_event-front a e rest o m l h = ground (arith, take_front-cons e rest m)

  module _ (accepts : ℕ → ℕ → U → Bool × U) where
    pub queue-found :
        (address : ℕ) (o : Objects U) {e : Event} {a : ℕ} {m : Impl}
        → lookup address o.events ≡ some e
        → manager_of e o ≡ some (a, m)
        → let (left, w) = queue_event accepts address m o.world in
          queue accepts address o ≡ some (record o { managers = put a left o.managers; world = w })
    unfolding queue
    queue-found address o h l = ground arith

    pub handle-found :
        (classes : Classes) (signals : IdType → Context U → Bool × Context U) (fuel address : ℕ)
        (o : Objects U) {e : Event} {a : ℕ} {m : Impl}
        → lookup address o.events ≡ some e
        → manager_of e o ≡ some (a, m)
        → let start : Context U = record { event = e; impl = m; world = o.world } in
          handle accepts classes signals fuel address o
          ≡ some
              (returned (write_back address a o) (Handle.handle accepts classes signals fuel start))
    unfolding handle
    handle-found classes signals fuel address o h l = ground arith
