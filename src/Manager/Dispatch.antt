-- ===== src/Manager/Dispatch.antt =====
-- src/modules/event_manager.cpp: `handle` with the handlers that `connect` has put into the signals.
-- The user's state is that of the signals and the rest. Boost calls the slots of a signal in their
-- order, until one throws.
pub mod Order
pub mod Samples
mod Tests
use libslirc_old.Prelude.{ℕ, ◌≡◌, Bool, true, false, List, [], ◌∷◌, ◌++◌, length}
use libslirc_old.EventId.{IdType}
use libslirc_old.Component.{Container}
use libslirc_old.Event.{Event, Payload, pending}
use libslirc_old.Manager.{World}
use libslirc_old.Manager.Handlers.{Slot, Signals}
use libslirc_old.Manager.Handle.{
  Context, begin_handling, finishing_handling, finished_handling, set_current,
}

-- The effect of the handlers, by their numbers; the Boolean says whether one throws.
abbrev pub Handlers : Type 0 → Type 0 → Type 0
Handlers S V = ℕ → Context (S × V) → Bool × Context (S × V)

module _ {S V : Type 0} where
  -- A slot that throws ends the call of the signal.
  abbrev pub until_thrown :
      (Context (S × V) → Bool × Context (S × V)) → Bool × Context (S × V) → Bool × Context (S × V)
  until_thrown next (true, c) = (true, c)
  until_thrown next (false, c) = next c

  pub call_slots : Handlers S V → List Slot → Context (S × V) → Bool × Context (S × V)
  call_slots run [] c = (false, c)
  call_slots run (s ∷ l) c = until_thrown (call_slots run l) (run s.handler c)

  abbrev pub connections : Context (S × V) → S
  connections c = c.world.user.0

  -- The call of a signal, as Boost documents it for handlers that neither connect nor disconnect.
  abbrev pub Emits :
      Signals S → Handlers S V → (IdType → Context (S × V) → Bool × Context (S × V)) → Type 0
  Emits b run signals =
      (id : IdType) (c : Context (S × V))
      → signals id c ≡ call_slots run (b.slots (connections c) id) c

  abbrev pub with_user : V → Context (S × V) → Context (S × V)
  with_user v c = record c { world = record (c.world) { user = (c.world.user.0, v) } }

  -- Handlers that change the user's state alone, by the id that the event is handled as and by the
  -- event's components.
  abbrev pub changing : (ℕ → IdType → Container Payload → V → V) → Handlers S V
  changing act handler c = (
    false,
    with_user (act handler c.event.current_id_mutable c.event.components c.world.user.1) c,
  )

-- What such handlers do with the components of an event.
abbrev pub seeing :
    {V : Type 0} → (ℕ → IdType → Container Payload → V → V) → Container Payload → ℕ → IdType → V → V
seeing act components handler id v = act handler id components v

-- The calls of handlers, each with the id.
abbrev pub calls_of : IdType → List Slot → List (IdType × ℕ)
calls_of id [] = []
calls_of id (s ∷ l) = (id, s.handler) ∷ calls_of id l

abbrev pub calls_of_ids : (IdType → List Slot) → List IdType → List (IdType × ℕ)
calls_of_ids slots [] = []
calls_of_ids slots (id ∷ ids) = calls_of id (slots id) ++ calls_of_ids slots ids

abbrev pub perform : {V : Type 0} → (ℕ → IdType → V → V) → List (IdType × ℕ) → V → V
perform act [] v = v
perform act ((id, handler) ∷ l) v = perform act l (act handler id v)

-- The ids that an event is handled as, when no handler queues more.
abbrev pub handled_ids : Event → List IdType
handled_ids e = begin_handling ∷ pending e ++ finishing_handling ∷ finished_handling ∷ []
