-- ===== src/Manager/Handle/Termination/Total.antt =====
-- src/modules/event_manager.cpp, `handle` as a whole: it ends.
use libslirc_old.Prelude.{◌≢◌}
use libslirc_old.Prelude.Classes.{Classes}
use libslirc_old.Manager.Handle.{Context, Outcome, out_of_fuel}

abbrev Ends : {U : Type 0} → Outcome (Context U) → Type 0
Ends r = r ≢ out_of_fuel
