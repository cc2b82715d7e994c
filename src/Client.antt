-- ===== src/Client.antt =====
-- include/slirc/irc.hpp and src/event.cpp: the calls that go from an event to its IRC context and from
-- there to the event manager that is loaded. Objects are found by their addresses; `none` stands for a
-- null or dangling pointer, where the behaviour of the code is undefined. The handlers of the event
-- that is handled change that event, its event manager and the user's state.
pub mod Steps
pub mod Delivery
pub mod Unloaded
pub mod Loop
pub mod Queued
pub mod Lines
mod Tests
use libslirc_old.Prelude.{ℕ, Bool, List, Option, none, some, ◌∷◌, Result, ok, throw}
use libslirc_old.Prelude.Assoc.{lookup, put}
use libslirc_old.Prelude.Classes.{Classes}
use libslirc_old.EventId.{IdType}
use libslirc_old.Event
use libslirc_old.Event.{Event}
use libslirc_old.Irc.{Irc}
use libslirc_old.Manager.{Impl, World, queue_event, take_front}
use libslirc_old.Manager.Handle
use libslirc_old.Manager.Handle.{Context, Outcome, finished, thrown, out_of_fuel}

infixl 5 ◌>>=◌
abbrev pub ◌>>=◌ {ℓ κ} : {A : Type ℓ} {B : Type κ} → Option A → (A → Option B) → Option B
none >>= f = none
some a >>= f = f a

-- What a call that throws leaves to the rest is not looked at.
abbrev pub returning {ℓ} : {A : Type ℓ} → Result A → Option A
returning (ok a) = some a
returning (throw x) = none

pub record Objects (U : Type 0) : Type 0 where
  pub contexts : List (ℕ × Irc)
  pub managers : List (ℕ × Impl)
  pub events : List (ℕ × Event)
  pub world : World U

module _ {U : Type 0} where
  -- `irc::event_manager()`, of the context at an address.
  pub event_manager : ℕ → Objects U → Option ℕ
  event_manager context o = do c ← lookup context o.contexts; c.event_manager

  -- `irc.event_manager()` in a member of the event.
  pub manager_of : Event → Objects U → Option (ℕ × Impl)
  unfolding event_manager
  manager_of e o = do a ← event_manager e.irc o; m ← lookup a o.managers; some (a, m)

  made_at : ℕ → Objects U → Result Event → Result (Objects U)
  made_at address o (throw x) = throw x
  made_at address o (ok e) = ok (record o { events = put address e o.events })

  -- `irc::make_event`, of the context at an address, for a new event at `address`.
  pub make_event : (ℕ → ℕ → ℕ) → ℕ → ℕ → IdType → Objects U → Result (Objects U)
  unfolding made_at
  make_event grow context address id o = made_at address o (Event.make_event grow context id)

  -- The first part of `wait_event`, of the event manager at an address.
  pub next_event : ℕ → Objects U → Option (ℕ × Objects U)
  next_event a o = do
    m ← lookup a o.managers
    (e, rest) ← take_front m
    some (e, record o { managers = put a rest o.managers })

  -- What a handling leaves behind, of the event and of the event manager at `a`.
  abbrev pub write_back : ℕ → ℕ → Objects U → Context U → Objects U
  write_back address a o c = record o {
    events = put address c.event o.events;
    managers = put a c.impl o.managers;
    world = c.world;
  }

  abbrev pub returned : (Context U → Objects U) → Outcome (Context U) → Outcome (Objects U)
  returned f (finished c) = finished (f c)
  returned f (thrown c) = thrown (f c)
  returned f out_of_fuel = out_of_fuel

  module _ (accepts : ℕ → ℕ → U → Bool × U) where
    -- `event::queue()`, of the event at an address.
    pub queue : ℕ → Objects U → Option (Objects U)
    unfolding manager_of
    queue address o = do
      e ← lookup address o.events
      (a, m) ← manager_of e o
      let (left, w) = queue_event accepts address m o.world
      some (record o { managers = put a left o.managers; world = w })

    -- `event::handle()`
    pub handle :
        Classes
        → (IdType → Context U → Bool × Context U)
        → ℕ
        → ℕ
        → Objects U
        → Option (Outcome (Objects U))
    unfolding manager_of
    handle classes signals fuel address o = do
      e ← lookup address o.events
      (a, m) ← manager_of e o
      let start : Context U = record { event = e; impl = m; world = o.world }
      some (returned (write_back address a o) (Handle.handle accepts classes signals fuel start))
