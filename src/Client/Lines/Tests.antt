-- ===== src/Client/Lines/Tests.antt =====
-- src/modules/connection.cpp and irc.hpp: two lines that are read, with a handler that notes them.
use libslirc_old.Prelude.{ℕ, ◌+◌, ◌≡◌, refl, Bool, false, List, [], ◌∷◌, ◌++◌, some, arith}
use libslirc_old.Prelude.Assoc.{lookup}
use libslirc_old.Prelude.Classes.{no_inheritance}
use libslirc_old.Component.{Container}
use libslirc_old.EventId.{IdType}
use libslirc_old.Event.{Payload}
use libslirc_old.Irc.{Irc}
use libslirc_old.Network.{new_network_service}
use libslirc_old.Connection.Impl
use libslirc_old.Connection.Impl.{connected, received_data, received_line, new_impl, Machine}
use libslirc_old.Connection.Impl.Received.{line_in}
use libslirc_old.Connection.Stages.Reads.{reads}
use libslirc_old.Manager
use libslirc_old.Manager.{empty_impl}
use libslirc_old.Manager.Handle.{Context, finished}
use libslirc_old.Manager.Handlers.{connect, normal}
use libslirc_old.Manager.Handlers.Table.{Table, slots_of, signals}
use libslirc_old.Manager.Dispatch.{changing, connections, call_slots}
use libslirc_old.Client.{Objects, event_manager}
use libslirc_old.Client.Lines.Served.{queue_and_serve, lines_served}

abbrev doubling : ℕ → ℕ → ℕ
doubling c n = c + n

-- A handler that notes the line of the event.
abbrev hearing : ℕ → IdType → Container Payload → List (List ℕ) → List (List ℕ)
hearing handler id components heard =
    heard ++ line_in (lookup received_data.component_base_type components)

abbrev hear : IdType → Context (Table × List (List ℕ)) → Bool × Context (Table × List (List ℕ))
hear id c = call_slots (changing hearing) (slots_of (connections c) id) c

abbrev listening : Table
listening = (connect signals 50 received_line 40 normal []).1

abbrev accepts : ℕ → ℕ → Table × List (List ℕ) → Bool × (Table × List (List ℕ))
accepts f e u = (false, u)

abbrev cancels : Impl.Impl → Bool
cancels c = false

abbrev loaded : Irc
loaded = record {
  modules = (0, record { dynamic_type = 0; address = 50 }) ∷ [];
  event_manager = some 50;
}

abbrev objects : Objects (Table × List (List ℕ))
objects = record {
  contexts = (1, loaded) ∷ [];
  managers = (50, empty_impl) ∷ [];
  events = [];
  world = record { blocked = []; user = (listening, []) };
}

abbrev established : Machine
established = record {
  impl = record new_impl { curstate = connected };
  network = new_network_service;
  operations = [];
  emitted = [];
}

-- "a\r", "\nb" and "\nc\n".
abbrev chunks : List (List ℕ)
chunks = (97 ∷ 13 ∷ []) ∷ (10 ∷ 98 ∷ []) ∷ (10 ∷ 99 ∷ 10 ∷ []) ∷ []

objects_manager : event_manager 1 objects ≡ some 50
unfolding event_manager lookup
objects_manager = refl

objects_impl : lookup 50 objects.managers ≡ some empty_impl
unfolding lookup
objects_impl = refl

lines_served_example :
    let read = reads doubling 1 cancels chunks established in
    (after : Objects (Table × List (List ℕ))) × (left : Manager.Impl) × (queue_and_serve hearing
        signals hear
        (λ id c. refl)
        accepts
        no_inheritance
        50
        3
        doubling
        (λ c n. omega arith)
        1
        60
        read.emitted
        3
        objects
      ≡ some (finished after))
    × (after.world.user ≡ (listening, (97 ∷ []) ∷ (98 ∷ []) ∷ (99 ∷ []) ∷ []))
    × (lookup 50 after.managers ≡ some left)
    × (left.queue ≡ [])
unfolding connect lookup
lines_served_example =
    lines_served hearing signals hear (λ id c. refl) accepts no_inheritance 50 3 doubling
      (λ c n. omega arith) 1 cancels chunks established 60 objects empty_impl refl refl refl
      objects_manager objects_impl (omega arith) refl refl (omega arith)
