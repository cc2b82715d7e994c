-- ===== src/Connection/Stages/Returns.antt =====
-- src/modules/connection.cpp: a `disconnect` that returns, and a handshake that fails.
use libslirc_old.Prelude.{ℕ, ◌≡◌, refl, ap, ◌++◌, sym, subst, Bool, true, false, not, ◌||◌, none}
use libslirc_old.Connection.Text.{codes}
use libslirc_old.Connection.Stages.{on_handshake}
use libslirc_old.Connection.Stages.Ignored.{if_false}
use libslirc_old.Connection.Impl.{
  ErrorCode, errored, emit_error, ConnectionState, disconnected, connecting, connected,
  disconnecting, is_state, Impl, Machine, Done, emit_state_change, has_socket,
}
use libslirc_old.Connection.Impl.Trace.{allowed}
use libslirc_old.Connection.Impl.Effects.{emit_state_change-Leads}
use libslirc_old.Connection.Stages.{
  disconnected_socket, do_unscheduled_disconnect, do_disconnect, disconnect,
}
use libslirc_old.Connection.Stages.Attempts.{by_test}
use libslirc_old.Connection.Stages.Effects.{from_state, disconnected_socket-Leads}

-- Neither connecting nor connected.
abbrev pub IsEnded : ConnectionState → Type 0
IsEnded s = (is_state s connecting ≡ false) × (is_state s connected ≡ false)

ended :
    (s : ConnectionState)
    → (is_state s disconnecting || is_state s disconnected) ≡ true
    → IsEnded s × (allowed s disconnecting ≡ false)
ended disconnected h = ((refl, refl), refl)
ended disconnecting h = ((refl, refl), refl)
ended connecting h = absurd (cc)
ended connected h = absurd (cc)

-- A connection that is not at rest can be told to disconnect.
pub busy :
    (s : ConnectionState)
    → (is_state s disconnecting || is_state s disconnected) ≡ false
    → allowed s disconnecting ≡ true
busy connecting h = refl
busy connected h = refl
busy disconnected h = absurd (cc)
busy disconnecting h = absurd (cc)

-- What a call leaves if it returns.
abbrev pub Ends : ConnectionState → Done → Type 0
Ends s d =
    d.0 ≡ none
    → IsEnded d.1.impl.curstate
      × (allowed s disconnecting ≡ true → d.1.impl.curstate ≡ disconnected)

Ends-disconnected :
    (s : ConnectionState) (m : Machine) → m.impl.curstate ≡ disconnected → Ends s (none, m)
Ends-disconnected s m e h = (subst IsEnded (sym e) (refl, refl), λ _. e)

module _ (grow : ℕ → ℕ → ℕ) (irc : ℕ) (cancel_fails : Impl → Bool) where
  unscheduled-Ends :
      (s : ConnectionState) (m : Machine)
      → allowed m.impl.curstate disconnected ≡ true
      → Ends s (do_unscheduled_disconnect grow irc cancel_fails m)
  unfolding do_unscheduled_disconnect
  unscheduled-Ends s m a =
      by_test (Ends s) (not (has_socket m.impl)) _ _ (λ e h. absurd (cc))
        λ e.
          by_test (Ends s) (cancel_fails m.impl) _ _ (λ f h. absurd (cc))
            λ f.
              Ends-disconnected s (disconnected_socket grow irc cancel_fails m)
                (disconnected_socket-Leads grow irc cancel_fails m a).state

  -- A `disconnect` that returns leaves a connection that is neither connecting nor connected, and one
  -- that was either is disconnected.
  pub disconnect-Ends : (m : Machine) → Ends m.impl.curstate (disconnect grow irc cancel_fails m)
  unfolding disconnect do_disconnect
  disconnect-Ends m =
      by_test (Ends m.impl.curstate)
        (is_state m.impl.curstate disconnecting || is_state m.impl.curstate disconnected) _ _
        (λ e h. let (over, never) = ended m.impl.curstate e in (over, λ a. absurd (cc)))
        (λ e.
          let announced =
            emit_state_change-Leads grow irc disconnecting m (busy m.impl.curstate e) in
          unscheduled-Ends m.impl.curstate (emit_state_change grow irc disconnecting m)
            (from_state disconnected announced refl))

  -- The handshake of a connection that is connecting has failed.
  pub on_handshake-errored :
      (error : ErrorCode) (m : Machine)
      → m.impl.curstate ≡ connecting
      → on_handshake grow irc cancel_fails (errored error) m
        ≡ (none, emit_error grow irc (codes "SSL handshake failed: " ++ error.message) error m)
  unfolding on_handshake
  on_handshake-errored error m c = if_false _ _ _ (ap (λ s. not (is_state s connecting)) c)
