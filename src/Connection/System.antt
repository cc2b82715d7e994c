-- ===== src/Connection/System.antt =====
-- src/modules/connection.cpp: a connection in use. Members are called and operations of Asio end in any
-- order. Each callback, and each member but `do_send_raw`, has the mutex for its whole run, so that the
-- steps are the calls and the callbacks; an exception leaves the state that it finds.
pub mod Progress
pub mod Live
pub mod Ended
pub mod Stranded
pub mod Stuck
mod Tests
use libslirc_old.Prelude.{
  ℕ, ◌≡◌, refl, Bool, true, false, not, List, [], ◌∷◌, ◌++◌, Option, none, some, if◌then◌else◌,
  Result, ok, throw, Exception,
}
use libslirc_old.Network.{Service, NetworkService, set_service, begin_shutdown, new_network_service}
use libslirc_old.Connection.Impl.{
  ConnectionState, disconnected, connecting, connected, disconnecting, state_id, changed, Operation,
  resolving, connecting_to, handshaking, reading, writing, ErrorCode, Completion, errored,
  succeeded, Impl, new_impl, Machine, Done, state_event,
}
use libslirc_old.Connection.Stages.{
  connect, disconnect, do_send_raw, on_resolved, on_connected, on_handshake, on_read, on_written,
}
use libslirc_old.Connection.Endpoint.{set_endpoint}

-- What an operation of Asio can end with: the endpoints, the bytes, or their number.
abbrev pub Outcome : Operation → Type 0
Outcome (resolving host port) = Completion (List ℕ)
Outcome (connecting_to endpoint) = Completion (Unit {0})
Outcome handshaking = Completion (Unit {0})
Outcome reading = Completion (List ℕ)
Outcome (writing bytes) = Completion ℕ

-- A new connection; the network service is as it is.
abbrev pub new_machine : NetworkService → Machine
new_machine network = record { impl = new_impl; network = network; operations = []; emitted = [] }

module _ (grow : ℕ → ℕ → ℕ) (irc : ℕ) (cancel_fails : Impl → Bool) (ssl_support : Bool) where
  abbrev pub callback : (op : Operation) → Outcome op → Machine → Done
  callback (resolving host port) r m = on_resolved grow irc cancel_fails r m
  callback (connecting_to endpoint) r m = on_connected grow irc cancel_fails r m
  callback handshaking r m = on_handshake grow irc cancel_fails r m
  callback reading r m = on_read grow irc cancel_fails r m
  callback (writing bytes) r m = on_written grow irc cancel_fails r m

  pub data Step : Machine → Machine → Type 0 where
    configures :
        (m : Machine) (endpoint : List ℕ) (new_port : ℕ)
        → Step m (set_endpoint ssl_support endpoint new_port m).1
    connects : (m : Machine) → Step m (connect grow irc cancel_fails m).1
    disconnects : (m : Machine) → Step m (disconnect grow irc cancel_fails m).1
    sends : (m : Machine) (bytes : List ℕ) → Step m (do_send_raw grow irc cancel_fails bytes m)
    -- Any of the operations that are under way ends in any way.
    completes :
        (m : Machine) (before after : List Operation) (op : Operation) (r : Outcome op)
        → m.operations ≡ before ++ op ∷ after
        → Step m (callback op r (record m { operations = before ++ after })).1
    -- The rest of the program uses the network service, too; a shutdown is not taken back.
    network_changes :
        (m : Machine) (n : NetworkService)
        → (m.network.internal_service_stopping ≡ true → n.internal_service_stopping ≡ true)
        → Step m (record m { network = n })

  pub data Steps (m : Machine) : Machine → Type 0 where
    here : Steps m m
    next : {n k : Machine} → Steps m n → Step n k → Steps m k

  abbrev pub Reach : Machine → Type 0
  Reach m = (network : NetworkService) × Steps (new_machine network) m

  -- What a call of `disconnect` or a callback throws.
  abbrev pub thrown_by : {m n : Machine} → Step m n → Option Exception
  thrown_by (disconnects m) = (disconnect grow irc cancel_fails m).0
  thrown_by (completes m before after op r e) =
      (callback op r (record m { operations = before ++ after })).0
  thrown_by (configures m endpoint new_port) = none
  thrown_by (connects m) = none
  thrown_by (sends m bytes) = none
  thrown_by (network_changes m n h) = none

  -- No `disconnect` and no callback of a run has thrown.
  abbrev pub NothingThrown : {m n : Machine} → Steps m n → Type 0
  NothingThrown here = Unit
  NothingThrown (next r step) = NothingThrown r × (thrown_by step ≡ none)
