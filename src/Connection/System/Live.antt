-- ===== src/Connection/System/Live.antt =====
-- src/modules/connection.cpp: as long as nothing has thrown, a connection that is not at rest goes on.
use libslirc_old.Prelude.{ℕ, ◌≡◌, refl, sym, subst, Bool, true, false, ◌++◌, none}
use libslirc_old.Connection.Impl.{
  Operation, resolving, connecting_to, handshaking, reading, writing, Impl, Machine, Done,
}
use libslirc_old.Connection.Stages.Progress.{IsLive}
use libslirc_old.Connection.Stages.Unfailing.{
  never, connect-never, do_send_raw-never, disconnect-never, on_resolved-never, on_connected-never,
  on_handshake-never, on_read-never, on_written-never,
}
use libslirc_old.Connection.System.{
  Outcome, callback, Step, configures, connects, disconnects, sends, completes, network_changes,
  Steps, here, next, Reach, thrown_by, NothingThrown,
}
use libslirc_old.Connection.System.Progress.{unhindered-IsLive}

module _ (grow : ℕ → ℕ → ℕ) (irc : ℕ) (cancel_fails : Impl → Bool) (ssl_support : Bool) where
  callback-never :
      (op : Operation) (r : Outcome op) (m : Machine)
      → (callback grow irc cancel_fails ssl_support op r m).0 ≡ none
      → callback grow irc cancel_fails ssl_support op r m
        ≡ callback grow irc never ssl_support op r m
  callback-never (resolving host port) r m h = on_resolved-never grow irc cancel_fails r m h
  callback-never (connecting_to endpoint) r m h = on_connected-never grow irc cancel_fails r m h
  callback-never handshaking r m h = on_handshake-never grow irc cancel_fails r m
  callback-never reading r m h = on_read-never grow irc cancel_fails r m h
  callback-never (writing bytes) r m h = on_written-never grow irc cancel_fails r m h

  Step-never :
      {m n : Machine} (step : Step grow irc cancel_fails ssl_support m n)
      → thrown_by grow irc cancel_fails ssl_support step ≡ none
      → Step grow irc never ssl_support m n
  Step-never (configures m endpoint new_port) h = configures m endpoint new_port
  Step-never (connects m) h =
      subst (λ (d : Done). Step grow irc never ssl_support m d.1)
        (sym (connect-never grow irc cancel_fails m)) (connects m)
  Step-never (disconnects m) h =
      subst (λ (d : Done). Step grow irc never ssl_support m d.1)
        (sym (disconnect-never grow irc cancel_fails m h)) (disconnects m)
  Step-never (sends m bytes) h =
      subst (Step grow irc never ssl_support m)
        (sym (do_send_raw-never grow irc cancel_fails bytes m)) (sends m bytes)
  Step-never (completes m before after op r e) h =
      subst (λ (d : Done). Step grow irc never ssl_support m d.1)
        (sym (callback-never op r (record m { operations = before ++ after }) h))
        (completes m before after op r e)
  Step-never (network_changes m n keeps) h = network_changes m n keeps

  Steps-never :
      {m n : Machine} (run : Steps grow irc cancel_fails ssl_support m n)
      → NothingThrown grow irc cancel_fails ssl_support run
      → Steps grow irc never ssl_support m n
  Steps-never here h = here
  Steps-never (next r step) (h, quiet) = next (Steps-never r h) (Step-never step quiet)

  -- As long as no `disconnect` and no callback has thrown, a connection with a plain socket, where the
  -- network service is not shutting down, is never disconnecting when a call or a callback has ended. While
  -- it is connecting, a name lookup or an attempt to connect is under way; while it is connected, a read is.
  -- Whether `cancel` throws is left open; it does so in the runs that are not considered here.
  pub Reach-IsLive :
      {m : Machine} (r : Reach grow irc cancel_fails ssl_support m)
      → NothingThrown grow irc cancel_fails ssl_support r.1
      → m.impl.socket ≡ true
      → m.impl.ssl ≡ false
      → m.network.internal_service_stopping ≡ false
      → IsLive m
  Reach-IsLive (network, r) quiet socket plain running =
      unhindered-IsLive grow irc never ssl_support (network, Steps-never r quiet) socket plain
        (λ c. refl) running
