-- ===== src/Connection/System/Stuck.antt =====
-- src/modules/connection.cpp: a connection that a `disconnect` leaves stuck when it throws.
use libslirc_old.Prelude.{
  ℕ, ◌≡◌, ◌≢◌, ap, ◌∙◌, Bool, true, false, List, ◌++◌, Option, none, some, Exception,
  already_connected,
}
use libslirc_old.Connection.Impl.{
  ConnectionState, connecting, connected, disconnected, disconnecting, is_state, Impl, Machine,
  Done,
}
use libslirc_old.Connection.Impl.Trace.{allowed}
use libslirc_old.Connection.Stages.{connect, disconnect}
use libslirc_old.Connection.Stages.Ignored.{
  connect-refused, disconnect-ignored, do_send_raw-curstate, CannotEnd, disconnect-throws,
}
use libslirc_old.Connection.Endpoint.Effects.{set_endpoint-refused}
use libslirc_old.Connection.Endpoint.{set_endpoint}
use libslirc_old.Connection.System.Ended.{callback-ignored}
use libslirc_old.Connection.System.{
  Step, configures, connects, disconnects, sends, completes, network_changes, Steps, here, next,
}

at_disconnecting :
    {s : ConnectionState}
    → s ≡ disconnecting
    → (is_state s connecting ≡ false)
      × (is_state s connected ≡ false)
      × (is_state s disconnected ≡ false)
at_disconnecting e = (
  ap (λ s. is_state s connecting) e,
  ap (λ s. is_state s connected) e,
  ap (λ s. is_state s disconnected) e,
)

module _ (grow : ℕ → ℕ → ℕ) (irc : ℕ) (cancel_fails : Impl → Bool) (ssl_support : Bool) where
  -- What leaves the machine leaves its state.
  left :
      {m : Machine} (d : Done) {x : Option Exception}
      → d ≡ (x, m)
      → m.impl.curstate ≡ disconnecting
      → d.1.impl.curstate ≡ disconnecting
  left d same e = ap (λ (c : Done). c.1.impl.curstate) same ∙ e

  Step-disconnecting :
      {m n : Machine}
      → Step grow irc cancel_fails ssl_support m n
      → m.impl.curstate ≡ disconnecting
      → n.impl.curstate ≡ disconnecting
  Step-disconnecting (configures m endpoint new_port) e =
      left _ (set_endpoint-refused ssl_support endpoint new_port m (at_disconnecting e).2) e
  Step-disconnecting (connects m) e =
      left _ (connect-refused grow irc cancel_fails m (at_disconnecting e).2) e
  Step-disconnecting (disconnects m) e = left _ (disconnect-ignored grow irc cancel_fails m e) e
  Step-disconnecting (sends m bytes) e = do_send_raw-curstate grow irc cancel_fails bytes m ∙ e
  Step-disconnecting (completes m before after op r h) e =
      left _
        (callback-ignored grow irc cancel_fails ssl_support op r
          (record m { operations = before ++ after })
          ((at_disconnecting e).0, (at_disconnecting e).1))
        e
  Step-disconnecting (network_changes m n h) e = e

  Steps-disconnecting :
      {m n : Machine}
      → Steps grow irc cancel_fails ssl_support m n
      → m.impl.curstate ≡ disconnecting
      → n.impl.curstate ≡ disconnecting
  Steps-disconnecting here e = e
  Steps-disconnecting (next r step) e = Step-disconnecting step (Steps-disconnecting r e)

  -- The members in a state that is disconnecting.
  pub record IsStuck (m : Machine) : Type 0 where
    pub state : m.impl.curstate ≡ disconnecting
    pub cannot_connect : connect grow irc cancel_fails m ≡ (some already_connected, m)
    pub no_disconnect : disconnect grow irc cancel_fails m ≡ (none, m)
    pub no_endpoint :
        (endpoint : List ℕ) (new_port : ℕ)
        → set_endpoint ssl_support endpoint new_port m ≡ (some already_connected, m)

  -- If there is no socket, or `cancel` throws, then a `disconnect` of a connection that is connecting or
  -- connected throws, and whatever happens after it, the connection stays disconnecting: `connect` and
  -- `set_endpoint` throw already_connected, and `disconnect` does nothing.
  pub disconnect-IsStuck :
      (m : Machine) {n : Machine}
      → allowed m.impl.curstate disconnecting ≡ true
      → CannotEnd grow irc cancel_fails m
      → Steps grow irc cancel_fails ssl_support (disconnect grow irc cancel_fails m).1 n
      → ((disconnect grow irc cancel_fails m).0 ≢ none) × IsStuck n
  disconnect-IsStuck m {n} a w r =
      let (throws, e) = disconnect-throws grow irc cancel_fails m a w in
      let state : n.impl.curstate ≡ disconnecting = Steps-disconnecting r e in
      (
        throws,
        record {
          state = state;
          cannot_connect = connect-refused grow irc cancel_fails n (at_disconnecting state).2;
          no_disconnect = disconnect-ignored grow irc cancel_fails n state;
          no_endpoint = λ endpoint new_port.
              set_endpoint-refused ssl_support endpoint new_port n (at_disconnecting state).2;
        },
      )
