-- ===== src/Manager/Handle.antt =====
-- src/modules/event_manager.cpp, `handle` and `handle_as`, with `event::handle_as` of src/event.cpp.
-- The signals are Boost's: `signals id` calls the handlers that are connected to an id, which may
-- change the event, the queue and the user's state, and may throw. The loops of `handle` end when no
-- handler queues more ids, so they run on fuel; Handle/Termination says how much is enough.
mod Steps
pub mod Termination
pub mod Order
pub mod Afterwards
pub mod Samples
mod Tests
use libslirc_old.Prelude.{
  ℕ, zero, suc, Bool, true, false, List, [], ◌∷◌, Option, none, some, if◌then◌else◌, Result, ok,
  throw,
}
use libslirc_old.Prelude.Classes.{Classes}
use libslirc_old.EventId.{IdType, from_enum, is_valid}
use libslirc_old.Component.{Component, Container, find, remove}
use libslirc_old.Event.{Event, Payload, afterwards_events, handle_afterwards, pop_next_queued_id}
use libslirc_old.Manager.{Impl, World, queue_afterwards}

-- `apis::event_manager::events`, the enum type 0.
abbrev pub begin_handling : IdType
begin_handling = from_enum 0 0

abbrev pub finishing_handling : IdType
finishing_handling = from_enum 0 1

abbrev pub finished_handling : IdType
finished_handling = from_enum 0 2

-- What a handler can reach: the event, the event manager and the user's state.
pub record Context (U : Type 0) : Type 0 where
  pub event : Event
  pub impl : Impl
  pub world : World U

pub data Outcome {ℓ} (S : Type ℓ) : Type ℓ where
  finished : S → Outcome S
  thrown : S → Outcome S
  out_of_fuel : Outcome S

infixl 5 ◌>>=◌
abbrev pub ◌>>=◌ {ℓ} : {S : Type ℓ} → Outcome S → (S → Outcome S) → Outcome S
finished s >>= f = f s
thrown s >>= f = thrown s
out_of_fuel >>= f = out_of_fuel

abbrev pub set_current : {U : Type 0} → IdType → Context U → Context U
set_current id c = record c { event = record (c.event) { current_id_mutable = id } }

-- `util::scoped_swap` sets the id back when the scope is left, by an exception too.
abbrev pub restore : {U : Type 0} → IdType → Bool × Context U → Outcome (Context U)
restore id (false, c) = finished (set_current id c)
restore id (true, c) = thrown (set_current id c)

abbrev pub popped : {U : Type 0} → Context U → IdType × Context U
popped c = let (id, e) = pop_next_queued_id c.event in (id, record c { event = e })

module _ {U : Type 0} (signals : IdType → Context U → Bool × Context U) where
  -- `event_manager::handle_as(e)`: the signal of the event's current id.
  manager_handle_as : Context U → Bool × Context U
  manager_handle_as c = signals c.event.current_id_mutable c

  -- `event::handle_as(id)`
  pub handle_as : IdType → Context U → Outcome (Context U)
  unfolding manager_handle_as
  handle_as id c = restore c.event.current_id_mutable (manager_handle_as (set_current id c))

  -- The inner loop, `while(next_id)`.
  pub handle_ids : ℕ → IdType → Context U → Outcome (Context U)
  handle_ids zero next_id c = out_of_fuel
  handle_ids (suc fuel) next_id c = elim (is_valid next_id) [
    | false ↦ finished c
    | true ↦ handle_as next_id c >>= λ handled.
        let (following, rest) = popped handled in handle_ids fuel following rest
  ]

  -- The outer loop, `do ... while(next_id)`, with `inner` the fuel of each inner loop.
  pub handle_rounds : ℕ → ℕ → IdType → Context U → Outcome (Context U)
  handle_rounds inner zero next_id c = out_of_fuel
  handle_rounds inner (suc fuel) next_id c = handle_ids inner next_id c >>= λ drained.
      handle_as finishing_handling drained >>= λ finishing.
      let (following, rest) = popped finishing in
      elim (is_valid following) [
        | false ↦ finished rest
        | true ↦ handle_rounds inner fuel following rest
      ]

module _ {U : Type 0} (accepts : ℕ → ℕ → U → Bool × U) (classes : Classes) where
  abbrev events_of : Payload → List ℕ
  events_of (afterwards_events es) = es
  events_of p = []

  remove_afterwards : Context U → Result (Bool × Container Payload) → Outcome (Context U)
  remove_afterwards c (ok (_, components)) =
      finished (record c { event = record (c.event) { components = components } })
  remove_afterwards c (throw x) = thrown c

  -- The end of `handle`: the events behind this one go to the front of the queue.
  pub requeue_afterwards : Context U → Outcome (Context U)
  unfolding remove_afterwards
  requeue_afterwards c = elim (find classes handle_afterwards c.event.components) [
    | none ↦ finished c
    | some ha ↦
        let (m, w) = queue_afterwards accepts (events_of ha.value) c.impl c.world in
        remove_afterwards (record c { impl = m; world = w })
          (remove classes handle_afterwards c.event.components)
  ]

  pub handle : (IdType → Context U → Bool × Context U) → ℕ → Context U → Outcome (Context U)
  handle signals fuel c = handle_as signals begin_handling c >>= λ begun.
      let (next_id, rest) = popped begun in
      handle_rounds signals fuel fuel next_id rest >>= λ drained.
      handle_as signals finished_handling drained >>= requeue_afterwards
