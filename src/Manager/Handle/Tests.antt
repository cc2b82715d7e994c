-- ===== src/Manager/Handle/Tests.antt =====
-- src/modules/event_manager.cpp, `handle` of a small event.
use libslirc_old.Prelude.{
  ℕ, zero, suc, ◌+◌, ◌≤◌, ◌≡◌, refl, Bool, false, if◌then◌else◌, ◌==◌, [], ◌∷◌, arith, none, some,
  ltb, length,
}
use libslirc_old.Prelude.Assoc.{IsUnique, lookup}
use libslirc_old.Prelude.Classes.{no_inheritance}
use libslirc_old.EventId.{IdType}
use libslirc_old.Component.{ComponentType, find_, find}
use libslirc_old.Event.{pending, handle_afterwards, afterwards_events, duplicate, at_back}
use libslirc_old.Event.Queuing.{queue_as}
use libslirc_old.Event.Queuing.Invariant.{IsValid}
use libslirc_old.Manager.{Impl}
use libslirc_old.Manager.Delivery.{waiting, offer, view_of}
use libslirc_old.Manager.Handle.{
  Context, finished, begin_handling, finishing_handling, finished_handling, handle,
  requeue_afterwards,
}
use libslirc_old.Manager.Handle.Order.{signalled, visit, handle_in_order}
use libslirc_old.Manager.Handle.Afterwards.{requeue_lem}
use libslirc_old.Manager.Handle.Samples.{b, busy, busy-IsValid}

abbrev doubling : ℕ → ℕ → ℕ
doubling c n = c + n

abbrev accepts : ℕ → ℕ → ℕ → Bool × ℕ
accepts f e calls = (ltb f e, calls + 1)

abbrev stocked : Impl
stocked = record { queue = 5 ∷ 6 ∷ []; queue_consumers = []; queue_consumer_index = 0 }

abbrev context : Context ℕ
context = record { event = busy; impl = stocked; world = record { blocked = []; user = 2 } }

-- While its credit lasts, a handler queues `b` once more.
abbrev spending : IdType → Context ℕ → Bool × Context ℕ
spending id c = elim c.world.user [
  | zero ↦ (false, c)
  | suc left ↦ (
    false,
    record c {
      event = (queue_as doubling c.event b duplicate at_back).1;
      world = record (c.world) { user = left };
    },
  )
]

abbrev Spends : Context ℕ → ℕ → Type 0
Spends c n =
    let after : Context ℕ = (spending b (record c { world = record (c.world) { user = n } })).1 in
    IsValid after.event
    × (length (pending after.event) + after.world.user ≤ length (pending c.event) + n)

abbrev counting : IdType → Context ℕ → Bool × Context ℕ
counting id c = (false, record c { world = record (c.world) { user = id.id + c.world.user } })

handle_in_order_example :
    handle accepts no_inheritance counting 4 context
    ≡ requeue_afterwards accepts no_inheritance (
        signalled counting finished_handling (
          signalled counting finishing_handling
            (visit counting (pending busy) (signalled counting begin_handling context))))
handle_in_order_example =
    handle_in_order accepts no_inheritance counting (λ id c. (refl, refl)) 4 context busy-IsValid
      (omega arith)

busy_holds :
    find no_inheritance handle_afterwards busy.components
    ≡ some (record { dynamic_type = 0; value = afterwards_events (30 ∷ 31 ∷ []) })
unfolding lookup libslirc_old.Component.find_ find
busy_holds = refl

busy-IsUnique : IsUnique busy.components
unfolding lookup
busy-IsUnique = (refl, tt)

requeue_lem_example :
    (after : Context ℕ) × (requeue_afterwards accepts no_inheritance context ≡ finished after)
    × (view_of accepts (after.impl, after.world)
        ≡ offer accepts (waiting stocked) (30 ∷ 31 ∷ 5 ∷ 6 ∷ []) context.world)
    × (find no_inheritance handle_afterwards after.event.components ≡ none)
    × ((t : ComponentType)
        → find_ t after.event.components
          ≡ (if 0 == t.component_base_type then none else find_ t busy.components))
    × (after.event ≡ record busy { components = after.event.components })
requeue_lem_example =
    requeue_lem accepts no_inheritance context (30 ∷ 31 ∷ []) 0 (omega arith) busy-IsUnique
      busy_holds
