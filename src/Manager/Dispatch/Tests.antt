-- ===== src/Manager/Dispatch/Tests.antt =====
-- src/modules/event_manager.cpp, `handle` of an event with three handlers.
use libslirc_old.Prelude.{ℕ, ◌≡◌, refl, Bool, false, List, [], ◌∷◌, arith}
use libslirc_old.Prelude.Classes.{no_inheritance}
use libslirc_old.EventId.{IdType}
use libslirc_old.Manager.Handle.{Context, handle, requeue_afterwards, finished_handling}
use libslirc_old.Manager.Handle.Samples.{a, b, busy, busy-IsValid}
use libslirc_old.Manager.Handlers.{connect, normal, first}
use libslirc_old.Manager.Handlers.Table.{Table, slots_of, signals}
use libslirc_old.Manager.Dispatch.{with_user, calls_of_ids, perform, seeing, handled_ids}
use libslirc_old.Manager.Dispatch.Samples.{noting, emit}
use libslirc_old.Manager.Dispatch.Order.{drained, handle_dispatches}

-- A handler of `a`, one of `first` for `b`, then one of `finished_handling`.
abbrev connected : Table
connected =
    (connect signals 9 finished_handling 42 normal
      (connect signals 9 b 41 first (connect signals 9 a 40 normal []).1).1).1

abbrev start : Context (Table × List ℕ)
start = record {
  event = busy;
  impl = record { queue = []; queue_consumers = []; queue_consumer_index = 0 };
  world = record { blocked = []; user = (connected, []) };
}

abbrev accepts : ℕ → ℕ → Table × List ℕ → Bool × (Table × List ℕ)
accepts f e u = (false, u)

abbrev calls : List (IdType × ℕ)
calls = calls_of_ids (slots_of connected) (handled_ids busy)

called : perform (seeing noting busy.components) calls [] ≡ 41 ∷ 40 ∷ 42 ∷ []
unfolding connect
called = refl

handle_dispatches_example :
    handle accepts no_inheritance emit 4 start
    ≡ requeue_afterwards accepts no_inheritance (
        with_user
          (perform (seeing noting busy.components) calls [])
          (record start { event = drained busy }))
handle_dispatches_example =
    handle_dispatches noting signals emit (λ id c. refl) accepts no_inheritance 4 start busy-IsValid
      (omega arith)
