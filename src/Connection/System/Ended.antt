-- ===== src/Connection/System/Ended.antt =====
-- src/modules/connection.cpp: the callbacks of a connection that is neither connecting nor connected.
use libslirc_old.Prelude.{ℕ, ◌≡◌, Bool, none}
use libslirc_old.Connection.Impl.{
  Operation, resolving, connecting_to, handshaking, reading, writing, Impl, Machine,
}
use libslirc_old.Connection.Stages.Ignored.{
  on_resolved-ignored, on_connected-ignored, on_handshake-ignored, on_read-ignored,
  on_written-ignored,
}
use libslirc_old.Connection.Stages.Returns.{IsEnded}
use libslirc_old.Connection.System.{Outcome, callback}

module _ (grow : ℕ → ℕ → ℕ) (irc : ℕ) (cancel_fails : Impl → Bool) (ssl_support : Bool) where
  pub callback-ignored :
      (op : Operation) (r : Outcome op) (m : Machine)
      → IsEnded m.impl.curstate
      → callback grow irc cancel_fails ssl_support op r m ≡ (none, m)
  callback-ignored (resolving host port) r m e = on_resolved-ignored grow irc cancel_fails m e.0 r
  callback-ignored (connecting_to endpoint) r m e =
      on_connected-ignored grow irc cancel_fails m e.0 r
  callback-ignored handshaking r m e = on_handshake-ignored grow irc cancel_fails m e.0 r
  callback-ignored reading r m e = on_read-ignored grow irc cancel_fails m e.1 r
  callback-ignored (writing bytes) r m e = on_written-ignored grow irc cancel_fails m e.1 r
