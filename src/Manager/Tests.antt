-- ===== src/Manager/Tests.antt =====
-- src/modules/event_manager.cpp on small queues. A callback `f` accepts the events above `f`, and
-- counts the events that it is called with.
use libslirc_old.Prelude.{
  ℕ, zero, suc, ◌+◌, ◌≤◌, ◌<◌, ◌≡◌, ◌≢◌, refl, ◌∙◌, ◌⊎◌, inl, inr, Bool, true, false, List, [], ◌∷◌,
  ◌++◌, arith, Option, none, some, ltb, ◌==◌, if◌then◌else◌, length, count, ==_refl, ap,
  length-append,
}
use libslirc_old.Prelude.Assoc.{IsUnique, lookup}
use libslirc_old.Manager.{
  Consumer, returning, callback, Impl, World, WaitData, fresh_data, try_unqueue, queue_event,
  queue_afterwards, wait_callback,
}
use libslirc_old.Manager.Delivery.{waiting, InRange, IsSettled, offer, view_of, try_unqueue_refines}
use libslirc_old.Manager.Waiting.{System, Reach, queues, blocks, here, next}
use libslirc_old.Manager.Waiting.Steps.{Inv}
use libslirc_old.Manager.Waiting.Conservation.{Reach-Inv}

abbrev accepts : ℕ → ℕ → ℕ → Bool × ℕ
accepts f e calls = (ltb f e, calls + 1)

-- The first consumer has been called.
abbrev crowded : Impl
crowded = record {
  queue = 5 ∷ 6 ∷ [];
  queue_consumers = callback 7 ∷ callback 9 ∷ returning 100 ∷ [];
  queue_consumer_index = 1;
}

abbrev one_blocked : World ℕ
one_blocked = record { blocked = (100, fresh_data) ∷ []; user = 0 }

-- The callback refuses 5, the blocked call gets it, and 6 stays in the queue.
crowded_test :
    let (m, w) = try_unqueue accepts crowded one_blocked in
    (m ≡ record { queue = 6 ∷ []; queue_consumers = []; queue_consumer_index = 0 })
    × (w ≡ record {
      blocked = (100, record { has_returned = false; awaits_event = false; event = some 5 }) ∷ [];
      user = 1;
    })
unfolding try_unqueue libslirc_old.Manager.reset libslirc_old.Manager.offer_loop
    libslirc_old.Manager.round lookup libslirc_old.Prelude.Assoc.put
crowded_test = (refl, refl)

try_unqueue_refines_example :
    let done = try_unqueue accepts crowded one_blocked in
    (view_of accepts done ≡ offer accepts (waiting crowded) (5 ∷ 6 ∷ []) one_blocked)
    × IsSettled done.0
    × InRange done.0
try_unqueue_refines_example = try_unqueue_refines accepts crowded one_blocked (omega arith)

abbrev stocked : Impl
stocked = record { queue = 5 ∷ 6 ∷ []; queue_consumers = []; queue_consumer_index = 0 }

abbrev decides : ℕ → ℕ → List ℕ → Bool
decides f e accepted = ltb f e

-- A call blocks, an event is queued, and the call has got it.
abbrev served : System
served = record {
  impl = record { queue = []; queue_consumers = []; queue_consumer_index = 0 };
  world = record {
    blocked = (100, record { has_returned = false; awaits_event = false; event = some 5 }) ∷ [];
    user = [];
  };
  queued = 5 ∷ [];
  returned = [];
}

served-Reach : Reach decides served
unfolding lookup queue_event libslirc_old.Manager.take_or_register try_unqueue
    libslirc_old.Manager.reset libslirc_old.Manager.offer_loop libslirc_old.Manager.round
    libslirc_old.Prelude.Assoc.put
served-Reach = next (next here (blocks _ 100 refl)) (queues _ 5)

Reach-Inv_example : Inv decides served
Reach-Inv_example = Reach-Inv decides served-Reach

served_data :
    lookup 100 served.world.blocked
    ≡ some (record { has_returned = false; awaits_event = false; event = some 5 })
unfolding lookup
served_data = refl
