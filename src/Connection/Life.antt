-- ===== src/Connection/Life.antt =====
-- src/modules/connection.cpp: the life of the module and of its implementation. The module shares the
-- implementation with the callbacks that run; a callback holds it weakly until it is called, and then
-- locks it. The destructor of the module disconnects; it is noexcept, so that an exception terminates the
-- program.
pub mod Quiet
mod Tests
use libslirc_old.Prelude.{
  ℕ, ◌≡◌, Bool, true, false, List, ◌∷◌, ◌++◌, Option, none, some, if◌then◌else◌, Exception,
}
use libslirc_old.Network.{NetworkService}
use libslirc_old.Connection.Impl.{Operation, Impl, Machine, Done}
use libslirc_old.Connection.System.{Outcome, callback, Step, new_machine}
use libslirc_old.Connection.Api.{destroy}

pub data Life : Type 0 where
  alive : Machine → Life
  -- The destructor has returned.
  destroyed : Machine → Life
  terminated : Life

-- What a destructor leaves.
abbrev pub left_by : Done → Life
left_by (none, m) = destroyed m
left_by (some e, m) = terminated

module _ (grow : ℕ → ℕ → ℕ) (irc : ℕ) (cancel_fails : Impl → Bool) (ssl_support : Bool) where
  -- A callback behind the destructor: `locked` says whether it has locked the implementation before.
  pub late_callback : Bool → (op : Operation) → Outcome op → Machine → Done
  late_callback true op r m = callback grow irc cancel_fails ssl_support op r m
  late_callback false op r m = (none, m)

  pub data LifeStep : Life → Life → Type 0 where
    lives :
        {m n : Machine} → Step grow irc cancel_fails ssl_support m n → LifeStep (alive m) (alive n)
    destroys :
        (m : Machine) → LifeStep (alive m) (left_by (destroy grow irc cancel_fails ssl_support m))
    completes_late :
        (m : Machine) (before after : List Operation) (op : Operation) (r : Outcome op)
        (locked : Bool)
        → m.operations ≡ before ++ op ∷ after
        → LifeStep
            (destroyed m)
            (destroyed (late_callback locked op r (record m { operations = before ++ after })).1)

  pub data Run (l : Life) : Life → Type 0 where
    here : Run l l
    next : {k n : Life} → Run l k → LifeStep k n → Run l n
