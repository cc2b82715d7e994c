-- ===== src/Client/Unloaded.antt =====
-- irc.hpp and src/event.cpp: `event::queue` and `event::handle` in a context whose event manager may
-- have been unloaded.
use libslirc_old.Prelude.{
  ℕ, ◌≡◌, ◌↔◌, Bool, none, some, arith, throw, range_error, inl, inr, Option-cases,
}
use libslirc_old.Prelude.Assoc.{lookup}
use libslirc_old.Prelude.Classes.{Classes}
use libslirc_old.EventId.{IdType}
use libslirc_old.Event.{Event}
use libslirc_old.Irc.{Irc, get}
use libslirc_old.Irc.Lifetime.{IsValid, api, event_manager-get}
use libslirc_old.Manager.{Impl}
use libslirc_old.Manager.Handle.{Context}
use libslirc_old.Client.{Objects, event_manager, manager_of, queue, handle}

module _ {U : Type 0} (accepts : ℕ → ℕ → U → Bool × U) (classes : Classes)
    (signals : IdType → Context U → Bool × Context U) where
  -- The event manager that a context points to exists.
  abbrev pub IsAlive : Objects U → Irc → Type 0
  IsAlive o c = (a : ℕ) → c.event_manager ≡ some a → (m : Impl) × (lookup a o.managers ≡ some m)

  -- In a valid context, whose event manager exists if there is one: `queue` and `handle` of an event
  -- follow a null pointer exactly when `get<apis::event_manager>()` throws range_error.
  pub queue-none :
      (address fuel : ℕ) (o : Objects U) (e : Event) (c : Irc)
      → lookup address o.events ≡ some e
      → lookup e.irc o.contexts ≡ some c
      → IsValid classes c
      → IsAlive o c
      → ((queue accepts address o ≡ none) ↔ (get classes api c ≡ throw range_error))
        × ((handle accepts classes signals fuel address o ≡ none)
            ↔ (get classes api c ≡ throw range_error))
  unfolding queue handle manager_of event_manager
  queue-none address fuel o e c at in_context v alive =
      let missing = (event_manager-get classes c v).1 in
      elim (Option-cases c.event_manager) [
        | inl null ↦
            let thrown = missing.1 null in
            ((λ h. thrown, λ h. ground arith), (λ h. thrown, λ h. ground arith))
        | inr (a, some_) ↦
            let (m, exists) = alive a some_ in
            (
              (λ h. absurd (ground arith), λ h. absurd (cc (missing.0 h, some_))),
              (λ h. absurd (ground arith), λ h. absurd (cc (missing.0 h, some_))),
            )
      ]
