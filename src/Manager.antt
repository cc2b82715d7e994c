-- ===== src/Manager.antt =====
-- src/modules/event_manager.cpp: the queue of events and the consumers that wait for one. An event
-- pointer is its address. A consumer is a `std::function<bool(event::pointer)>`: either the one that
-- `wait_event` makes for the data of a blocked call, or a callback of the user, whose effect on the
-- user's state is the parameter `accepts`; it returns, and throws nothing.
pub mod Delivery
pub mod Waiting
pub mod Handle
pub mod Handlers
pub mod Dispatch
mod Tests
use libslirc_old.Prelude.{
  ℕ, zero, suc, ◌+◌, ◌-◌, Bool, true, false, ◌&&◌, List, [], ◌∷◌, ◌++◌, Option, none, some, ltb,
  ◌==◌, if◌then◌else◌, length, get_elem?, reverse,
}
use libslirc_old.Prelude.Assoc.{lookup, put, erase}

pub data Consumer : Type 0 where
  -- `make_returning_wait_event_consumer(data)`: the weak pointer to the data of a blocked call.
  returning : ℕ → Consumer
  -- A callback that was given to `wait_event`.
  callback : ℕ → Consumer

-- `returning_wait_event_consumer_data`: `event` is the variable of the blocked call, a reference that
-- dangles when the call has returned. `has_returned` says so; the code does not see it.
pub record WaitData : Type 0 where
  pub has_returned : Bool
  pub awaits_event : Bool
  pub event : Option ℕ

-- `modules::event_manager::impl` without the signals.
pub record Impl : Type 0 where
  pub queue : List ℕ
  pub queue_consumers : List Consumer
  pub queue_consumer_index : ℕ

abbrev pub empty_impl : Impl
empty_impl = record { queue = []; queue_consumers = []; queue_consumer_index = 0 }

-- `prepare_returning_wait_event_data`
abbrev pub fresh_data : WaitData
fresh_data = record { has_returned = false; awaits_event = true; event = none }

-- The data of calls that are blocked in `wait_event`, or have been and whose data a consumer still holds,
-- by address, and the user's state.
pub record World (U : Type 0) : Type 0 where
  pub blocked : List (ℕ × WaitData)
  pub user : U

-- The end of `handle`: the events of `handle_afterwards`, copied in reverse to the front.
abbrev pub front_inserted : List ℕ → List ℕ → List ℕ
front_inserted [] q = q
front_inserted (e ∷ es) q = front_inserted es (e ∷ q)

-- `queue_consumers.resize(queue_consumer_index = 0)` when every consumer has been called.
reset : Impl → Impl
reset m =
    if ltb 0 m.queue_consumer_index && m.queue_consumer_index == length m.queue_consumers
    then record m { queue_consumers = []; queue_consumer_index = 0 }
    else m

module _ {U : Type 0} (accepts : ℕ → ℕ → U → Bool × U) where
  -- The λ of `make_returning_wait_event_consumer`, on the data that the weak pointer gives.
  offer_data : ℕ → ℕ → World U → Option WaitData → Bool × World U
  offer_data address e w none = (false, w)
  offer_data address e w (some d) =
      if d.awaits_event
      then (
        true,
        record w {
          blocked = put address (record d { awaits_event = false; event = some e }) w.blocked;
        },
      )
      else (false, w)

  pub call : Consumer → ℕ → World U → Bool × World U
  unfolding offer_data
  call (returning address) e w = offer_data address e w (lookup address w.blocked)
  call (callback f) e w = let (taken, u) = accepts f e w.user in (taken, record w { user = u })

  -- One round of the loop of `try_unqueue`, none when its condition fails.
  round : Impl → World U → Option (Impl × World U)
  unfolding call
  round m w = elim m.queue [
    | [] ↦ none
    | e ∷ rest ↦ elim (get_elem? m.queue_consumers m.queue_consumer_index) [
      | none ↦ none
      | some consumer ↦
          let (taken, after) = call consumer e w in
          some (
            record m {
              queue = if taken then rest else e ∷ rest;
              queue_consumer_index = m.queue_consumer_index + 1;
            },
            after,
          )
    ]
  ]

  -- The loop, for at most as many rounds as there are consumers left.
  offer_loop : ℕ → Impl → World U → Impl × World U
  offer_loop zero m w = (m, w)
  offer_loop (suc rounds) m w = elim (round m w) [
    | none ↦ (m, w)
    | some (m', w') ↦ offer_loop rounds m' w'
  ]

  pub try_unqueue : Impl → World U → Impl × World U
  try_unqueue m w =
      let (m', w') = offer_loop (length m.queue_consumers - m.queue_consumer_index) m w in
      (reset m', w')

  -- `queue(e)`
  pub queue_event : ℕ → Impl → World U → Impl × World U
  queue_event e m w = try_unqueue (record m { queue = m.queue ++ e ∷ [] }) w

  pub queue_afterwards : List ℕ → Impl → World U → Impl × World U
  queue_afterwards es m w = try_unqueue (record m { queue = front_inserted (reverse es) m.queue }) w

  -- `wait_event(callback)`
  pub wait_callback : ℕ → Impl → World U → Impl × World U
  wait_callback f m w = elim m.queue [
    | [] ↦ (record m { queue_consumers = m.queue_consumers ++ callback f ∷ [] }, w)
    | e ∷ rest ↦
        let (taken, u) = accepts f e w.user in
        (if taken then record m { queue = rest } else m, record w { user = u })
  ]

-- The locked part at the start of `wait_event`: the front of the queue, if there is one.
pub take_front : Impl → Option (ℕ × Impl)
take_front m = elim m.queue [ [] ↦ none | e ∷ rest ↦ some (e, record m { queue = rest }) ]

-- The second locked part: the front of the queue, or a consumer for the new data at `address`.
pub take_or_register : {U : Type 0} → ℕ → Impl → World U → Option ℕ × Impl × World U
take_or_register address m w = elim m.queue [
  | e ∷ rest ↦ (some e, record m { queue = rest }, w)
  | [] ↦ (
    none,
    record m { queue_consumers = m.queue_consumers ++ returning address ∷ [] },
    record w { blocked = put address fresh_data w.blocked },
  )
]
