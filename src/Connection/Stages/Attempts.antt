-- ===== src/Connection/Stages/Attempts.antt =====
-- src/modules/connection.cpp: the attempts to connect, and the end of a connection, keep it going.
use libslirc_old.Prelude.{
  ℕ, ◌≡◌, refl, ap, Bool, true, false, not, List, [], ◌∷◌, ◌++◌, if◌then◌else◌, arith,
}
use libslirc_old.Connection.Impl.{
  disconnected, connecting, connected, connecting_to, handshaking, reading, ErrorCode, Impl,
  Machine, Done, has_socket,
}
use libslirc_old.Connection.Impl.Trace.{allowed}
use libslirc_old.Connection.Impl.Effects.{emit_error-Leads}
use libslirc_old.Connection.Stages.{
  do_unscheduled_disconnect, connect_opt_ssl_handshake, try_next, connect_try_next, failed,
}
use libslirc_old.Connection.Stages.Effects.{
  still, starts, relabel, then_still, impl_Leads, from_state, disconnected_socket-Leads,
  connect_success-Leads,
}
use libslirc_old.Connection.Stages.Progress.{
  live_started, no_socket, over_ssl, cancel_failure, Goes, goes, hindered, then-Goes,
}

-- Both branches of a test.
pub by_test :
    {A : Type 0} (P : A → Type 0) (b : Bool) (x y : A)
    → (b ≡ true → P x)
    → (b ≡ false → P y)
    → P (if b then x else y)
by_test P true x y f g = f refl
by_test P false x y f g = g refl

module _ (grow : ℕ → ℕ → ℕ) (irc : ℕ) (cancel_fails : Impl → Bool) where
  pub do_unscheduled_disconnect-Goes :
      (m : Machine)
      → allowed m.impl.curstate disconnected ≡ true
      → Goes cancel_fails m (do_unscheduled_disconnect grow irc cancel_fails m).1
  unfolding do_unscheduled_disconnect
  do_unscheduled_disconnect-Goes m a =
      by_test (λ (d : Done). Goes cancel_fails m d.1) (not (has_socket m.impl)) _ _
        (λ e. hindered (still m) (no_socket (ground arith)))
        (λ e.
          by_test (λ (d : Done). Goes cancel_fails m d.1) (cancel_fails m.impl) _ _
            (λ f. hindered (still m) (cancel_failure m.impl f))
            (λ f. goes (disconnected_socket-Leads grow irc cancel_fails m a) refl))

  pub failed-Goes :
      (text : List ℕ) (error : ErrorCode) (m : Machine)
      → allowed m.impl.curstate disconnected ≡ true
      → Goes cancel_fails m (failed grow irc cancel_fails text error m).1
  unfolding failed
  failed-Goes text error m a =
      let said = emit_error-Leads grow irc (text ++ error.message) error m in
      then-Goes said (do_unscheduled_disconnect-Goes _ (from_state disconnected said a))

  try_next-Goes :
      (l : List ℕ) (m : Machine)
      → m.impl.curstate ≡ connecting
      → Goes cancel_fails m (try_next grow irc cancel_fails l m).1
  unfolding try_next
  try_next-Goes [] m c = do_unscheduled_disconnect-Goes m (ap (λ s. allowed s disconnected) c)
  try_next-Goes (endpoint ∷ more) m c =
      by_test (λ (d : Done). Goes cancel_fails m d.1) (not (has_socket m.impl)) _ _
        (λ e. hindered (still m) (no_socket (ground arith)))
        (λ e.
          goes
            (relabel c refl (
              then_still (starts (connecting_to endpoint) m)
                (impl_Leads _ _ refl refl refl refl refl)))
            (live_started connecting m.operations (connecting_to endpoint) refl))

  pub connect_try_next-Goes :
      (m : Machine)
      → m.impl.curstate ≡ connecting
      → Goes cancel_fails m (connect_try_next grow irc cancel_fails m).1
  unfolding connect_try_next
  connect_try_next-Goes m c = try_next-Goes m.impl.resolve_iterator m c

  pub connect_opt_ssl_handshake-Goes :
      (m : Machine)
      → m.impl.curstate ≡ connecting
      → Goes cancel_fails m (connect_opt_ssl_handshake grow irc cancel_fails m)
  unfolding connect_opt_ssl_handshake
  connect_opt_ssl_handshake-Goes m c =
      by_test (λ (n : Machine). Goes cancel_fails m n) m.impl.ssl _ _
        (λ e. hindered (starts handshaking m) (over_ssl e))
        (λ e.
          goes (connect_success-Leads grow irc cancel_fails m (ap (λ s. allowed s connected) c))
            (live_started connected m.operations reading refl))
