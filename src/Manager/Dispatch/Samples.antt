-- ===== src/Manager/Dispatch/Samples.antt =====
-- Handlers that keep a list of their calls, over the signals of one list.
use libslirc_old.Prelude.{ℕ, Bool, List, [], ◌∷◌, ◌++◌}
use libslirc_old.EventId.{IdType}
use libslirc_old.Component.{Container}
use libslirc_old.Event.{Payload}
use libslirc_old.Manager.Handle.{Context}
use libslirc_old.Manager.Handlers.Table.{Table, slots_of}
use libslirc_old.Manager.Dispatch.{call_slots, connections, changing}

-- A handler writes itself down.
abbrev pub noting : ℕ → IdType → Container Payload → List ℕ → List ℕ
noting handler id components calls = calls ++ handler ∷ []

abbrev pub emit : IdType → Context (Table × List ℕ) → Bool × Context (Table × List ℕ)
emit id c = call_slots (changing noting) (slots_of (connections c) id) c
