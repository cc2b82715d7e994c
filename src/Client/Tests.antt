-- ===== src/Client/Tests.antt =====
-- irc.hpp and src/event.cpp: a context with an event manager at the address 50.
use libslirc_old.Prelude.{
  ℕ, ◌+◌, ◌≡◌, ◌↔◌, refl, subst, Bool, false, List, [], ◌∷◌, none, some, arith, throw, range_error,
}
use libslirc_old.Prelude.Assoc.{lookup}
use libslirc_old.Prelude.Classes.{no_inheritance}
use libslirc_old.EventId.{IdType, from_enum}
use libslirc_old.Event.Lifetime.{made, make_event-made, make_event-IsValid}
use libslirc_old.Manager.Handle.Afterwards.{find_nothing}
use libslirc_old.Client.Loop.{AreReady, serve, serve_all}
use libslirc_old.Irc.{Irc, get}
use libslirc_old.Irc.Lifetime.{IsValid, api}
use libslirc_old.Manager.{Impl, empty_impl}
use libslirc_old.Manager.Handle.{finished, finishing_handling}
use libslirc_old.Manager.Handlers.{connect, normal, first}
use libslirc_old.Manager.Handlers.Table.{Table, slots_of, signals}
use libslirc_old.Manager.Dispatch.{calls_of_ids, perform, seeing}
use libslirc_old.Manager.Dispatch.Order.{drained}
use libslirc_old.Manager.Dispatch.Samples.{noting, emit}
use libslirc_old.Client.{Objects, event_manager, queue, handle}
use libslirc_old.Client.Delivery.{run_event, ids_of_new, event_delivered}
use libslirc_old.Client.Unloaded.{queue-none}

abbrev doubling : ℕ → ℕ → ℕ
doubling c n = c + n

abbrev said : IdType
said = from_enum 2 0

-- A normal handler of `said`, one of `first`, and one of `finishing_handling`.
abbrev connected : Table
connected =
    (connect signals 50 finishing_handling 42 normal
      (connect signals 50 said 41 first (connect signals 50 said 40 normal []).1).1).1

abbrev accepts : ℕ → ℕ → Table × List ℕ → Bool × (Table × List ℕ)
accepts f e u = (false, u)

abbrev loaded : Irc
loaded = record {
  modules = (0, record { dynamic_type = 0; address = 50 }) ∷ [];
  event_manager = some 50;
}

abbrev objects : Objects (Table × List ℕ)
objects = record {
  contexts = (1, loaded) ∷ [];
  managers = (50, empty_impl) ∷ [];
  events = (60, made doubling 1 said) ∷ [];
  world = record { blocked = []; user = (connected, []) };
}

objects_manager : event_manager 1 objects ≡ some 50
unfolding event_manager lookup
objects_manager = refl

objects_impl : lookup 50 objects.managers ≡ some empty_impl
unfolding lookup
objects_impl = refl

abbrev calls : List (IdType × ℕ)
calls = calls_of_ids (slots_of connected) (ids_of_new said)

called : perform (seeing noting []) calls [] ≡ 41 ∷ 40 ∷ 42 ∷ []
unfolding connect
called = refl

event_delivered_example :
    (after : Objects (Table × List ℕ)) × (left : Impl) × (run_event accepts no_inheritance emit
        doubling 1 50 61 3 said objects
      ≡ some (finished after))
    × (after.world.user ≡ (connected, perform (seeing noting []) calls []))
    × (lookup 61 after.events ≡ some (drained (made doubling 1 said)))
    × (lookup 50 after.managers ≡ some left)
    × (left.queue ≡ [])
event_delivered_example =
    event_delivered noting signals emit (λ id c. refl) accepts no_inheritance doubling
      (λ c n. omega arith) 1 50 61 3 said objects empty_impl objects_manager objects_impl
      (omega arith) refl refl refl (omega arith)

loaded-IsValid : IsValid no_inheritance loaded
unfolding lookup
loaded-IsValid = record { unique = (refl, tt); fitting = (refl, tt); manager = refl }

objects_event : lookup 60 objects.events ≡ some (made doubling 1 said)
unfolding lookup
objects_event = refl

objects_context : lookup 1 objects.contexts ≡ some loaded
unfolding lookup
objects_context = refl

alive : (a : ℕ) → some 50 ≡ some a → (m : Impl) × (lookup a objects.managers ≡ some m)
alive a h =
    let e : ◌≡◌ {A = ℕ} 50 a = cc in
    (empty_impl, subst (λ i. lookup i objects.managers ≡ some empty_impl) e objects_impl)

queue-none_example :
    ((queue accepts 60 objects ≡ none) ↔ (get no_inheritance api loaded ≡ throw range_error))
    × ((handle accepts no_inheritance emit 3 60 objects ≡ none)
        ↔ (get no_inheritance api loaded ≡ throw range_error))
queue-none_example =
    queue-none accepts no_inheritance emit 60 3 objects (made doubling 1 said) loaded objects_event
      objects_context loaded-IsValid alive

-- The event is queued.
abbrev stocked : Objects (Table × List ℕ)
stocked = record objects { managers = (50, record empty_impl { queue = 60 ∷ [] }) ∷ [] }

stocked_impl : lookup 50 stocked.managers ≡ some (record empty_impl { queue = 60 ∷ [] })
unfolding lookup
stocked_impl = refl

said_ready : AreReady accepts no_inheritance emit 50 3 stocked ((60, made doubling 1 said) ∷ [])
unfolding lookup event_manager
said_ready = (
  (
    objects_event,
    make_event-IsValid doubling no_inheritance (λ c n. omega arith) 1 said
        (make_event-made doubling 1 said refl),
    find_nothing no_inheritance,
    objects_manager,
    omega arith,
  ),
  tt,
)

serve_all_example :
    (after : Objects (Table × List ℕ)) × (left : Impl) × (serve accepts no_inheritance emit 50 3 1
        stocked
      ≡ some (finished after))
    × (after.world.user ≡ (connected, 41 ∷ 40 ∷ 42 ∷ []))
    × (lookup 50 after.managers ≡ some left)
    × (left.queue ≡ [])
unfolding connect lookup
serve_all_example =
    serve_all noting signals emit (λ id c. refl) accepts no_inheritance 50 3
      ((60, made doubling 1 said) ∷ []) stocked (record empty_impl { queue = 60 ∷ [] }) said_ready
      (refl, tt) stocked_impl refl
