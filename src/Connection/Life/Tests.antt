-- ===== src/Connection/Life/Tests.antt =====
-- src/modules/connection.cpp: a connection that is destroyed while a read is under way.
use libslirc_old.Prelude.{ℕ, ◌≡◌, ◌⊎◌, refl, ap, sym, subst, Bool, true, false, [], ◌∷◌, none}
use libslirc_old.Network.{new_network_service}
use libslirc_old.Connection.Text.{codes}
use libslirc_old.Connection.Impl.{
  disconnected, disconnecting, reading, succeeded, Impl, new_impl, Machine, Done,
}
use libslirc_old.Connection.Impl.Trace.{allowed}
use libslirc_old.Connection.Stages.Ignored.{disconnect-ignored}
use libslirc_old.Connection.Api.{destroy}
use libslirc_old.Connection.Life.{
  Life, destroyed, left_by, late_callback, Run, here, next, completes_late,
}
use libslirc_old.Connection.Life.Quiet.{StaysQuiet, destroyed_quiet}

abbrev grow : ℕ → ℕ → ℕ
grow capacity needed = needed

abbrev cancels : Impl → Bool
cancels c = false

-- A `disconnect` has thrown, and a read is under way.
abbrev stuck : Machine
stuck = record {
  impl = record new_impl { curstate = disconnecting };
  network = new_network_service;
  operations = reading ∷ [];
  emitted = [];
}

returns : destroy grow 1 cancels false stuck ≡ (none, stuck)
unfolding destroy
returns = disconnect-ignored grow 1 cancels stuck refl

-- The read ends, in a callback that has locked the implementation.
abbrev behind : Life
behind =
    destroyed
      (late_callback grow 1 cancels false true reading (succeeded (codes "QUIT"))
        (record stuck { operations = [] })).1

late_read : Run grow 1 cancels false (left_by (destroy grow 1 cancels false stuck)) behind
late_read =
    subst (λ d. Run grow 1 cancels false (left_by d) behind) (sym returns)
      (next here (completes_late stuck [] [] reading (succeeded (codes "QUIT")) true refl))

destroyed_quiet_example :
    StaysQuiet (destroy grow 1 cancels false stuck).1 behind
    × (((destroy grow 1 cancels false stuck).1.impl.curstate ≡ disconnected)
        ⊎ (allowed disconnecting disconnecting ≡ false))
destroyed_quiet_example =
    destroyed_quiet grow 1 cancels false stuck behind (ap (λ (d : Done). d.0) returns) late_read
