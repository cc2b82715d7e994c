-- ===== src/Connection/Stages/Callbacks.antt =====
-- src/modules/connection.cpp: the callbacks of Asio keep a connection going.
use libslirc_old.Prelude.{
  ℕ, ◌≡◌, refl, ap, ◌∙◌, ◌⊎◌, inl, inr, Bool, false, not, List, ◌++◌, Option, none, some,
  if◌then◌else◌, arith,
}
use libslirc_old.Connection.Text.{codes}
use libslirc_old.Connection.Buffers.{Buffers}
use libslirc_old.Connection.Impl.{
  ConnectionState, disconnected, connecting, connected, disconnecting, is_state, Operation,
  resolving, connecting_to, handshaking, reading, writing, Completion, errored, succeeded, Impl,
  Machine, Done,
}
use libslirc_old.Connection.Impl.Trace.{allowed}
use libslirc_old.Connection.Impl.Effects.{emit_error-Leads}
use libslirc_old.Connection.Stages.{
  started_write, on_resolved, on_connected, on_handshake, on_read, on_written,
}
use libslirc_old.Connection.Stages.Effects.{
  still, starts, relabel, then_starts, impl_Leads, recv-Leads, connect_success-Leads,
}
use libslirc_old.Connection.Stages.Progress.{
  serves, IsLive, kept, live_started, live_more, Hindered, Goes, goes, then-Goes, still-Goes,
}
use libslirc_old.Connection.Stages.Attempts.{
  by_test, failed-Goes, connect_try_next-Goes, connect_opt_ssl_handshake-Goes,
}

-- Whether the state is the one that a callback asks for.
asked : (s t : ConnectionState) → not (is_state s t) ≡ false → s ≡ t
asked disconnected disconnected h = refl
asked connecting connecting h = refl
asked connected connected h = refl
asked disconnecting disconnecting h = refl
asked _ _ h = absurd (cc)

module _ (grow : ℕ → ℕ → ℕ) (irc : ℕ) (cancel_fails : Impl → Bool) where
  -- What is known when a callback runs: if it will not act, then something else will.
  abbrev pub Awaited : Operation → Machine → Type 0
  Awaited op m = Hindered cancel_fails m ⊎ (serves m.impl.curstate op ≡ false → IsLive m)

  unserved :
      (op : Operation) (m : Machine)
      → serves m.impl.curstate op ≡ false
      → Awaited op m
      → Hindered cancel_fails m ⊎ IsLive m
  unserved op m n (inl h) = inl h
  unserved op m n (inr f) = inr (f n)

  -- A callback that returns at once in any other state.
  callback-Goes :
      (op : Operation) (t : ConnectionState) (m : Machine) (d : Done)
      → (is_state m.impl.curstate t ≡ false → serves m.impl.curstate op ≡ false)
      → Awaited op m
      → (m.impl.curstate ≡ t → Goes cancel_fails m d.1)
      → Goes cancel_fails m (if not (is_state m.impl.curstate t) then (none, m) else d).1
  callback-Goes op t m d idle w acts =
      by_test (λ (d : Done). Goes cancel_fails m d.1) (not (is_state m.impl.curstate t)) (none, m) d
        (λ e. still-Goes (still m) (unserved op m (idle (ground arith)) w))
        (λ e. acts (asked m.impl.curstate t e))

  pub on_resolved-Goes :
      (r : Completion (List ℕ)) (host : List ℕ) (port : ℕ) (m : Machine)
      → Awaited (resolving host port) m
      → Goes cancel_fails m (on_resolved grow irc cancel_fails r m).1
  unfolding on_resolved
  on_resolved-Goes (errored error) host port m w =
      callback-Goes (resolving host port) connecting m _ (λ e. e) w
        (λ c.
          failed-Goes grow irc cancel_fails (codes "Name lookup failed: ") error m
            (ap (λ s. allowed s disconnected) c))
  on_resolved-Goes (succeeded endpoints) host port m w =
      callback-Goes (resolving host port) connecting m _ (λ e. e) w
        (λ c.
          then-Goes (impl_Leads _ m refl refl refl refl refl)
            (connect_try_next-Goes grow irc cancel_fails _ c))

  pub on_connected-Goes :
      (r : Completion (Unit {0})) (endpoint : ℕ) (m : Machine)
      → Awaited (connecting_to endpoint) m
      → Goes cancel_fails m (on_connected grow irc cancel_fails r m).1
  unfolding on_connected
  on_connected-Goes (errored error) endpoint m w =
      callback-Goes (connecting_to endpoint) connecting m _ (λ e. e) w
        (λ c.
          let said =
            emit_error-Leads grow irc (codes "Connection failed: " ++ error.message) error m in
          then-Goes said (connect_try_next-Goes grow irc cancel_fails _ (said.state ∙ c)))
  on_connected-Goes (succeeded _) endpoint m w =
      callback-Goes (connecting_to endpoint) connecting m _ (λ e. e) w
        (connect_opt_ssl_handshake-Goes grow irc cancel_fails m)

  pub on_handshake-Goes :
      (r : Completion (Unit {0})) (m : Machine)
      → Awaited handshaking m
      → Goes cancel_fails m (on_handshake grow irc cancel_fails r m).1
  unfolding on_handshake
  on_handshake-Goes (errored error) m w =
      callback-Goes handshaking connecting m _ (λ e. refl) w
        (λ c.
          still-Goes
            (emit_error-Leads grow irc (codes "SSL handshake failed: " ++ error.message) error m)
            (unserved handshaking m refl w))
  on_handshake-Goes (succeeded _) m w =
      callback-Goes handshaking connecting m _ (λ e. refl) w
        (λ c.
          goes (connect_success-Leads grow irc cancel_fails m (ap (λ s. allowed s connected) c))
            (live_started connected m.operations reading refl))

  pub on_read-Goes :
      (r : Completion (List ℕ)) (m : Machine)
      → Awaited reading m
      → Goes cancel_fails m (on_read grow irc cancel_fails r m).1
  unfolding on_read
  on_read-Goes (errored error) m w =
      callback-Goes reading connected m _ (λ e. e) w
        (λ c.
          failed-Goes grow irc cancel_fails (codes "Connection failed: ") error m
            (ap (λ s. allowed s disconnected) c))
  on_read-Goes (succeeded bytes) m w =
      callback-Goes reading connected m _ (λ e. e) w
        (λ c.
          goes
            (relabel c refl (
              then_starts reading (impl_Leads _ m refl refl refl refl refl)
                (recv-Leads grow irc cancel_fails _)))
            (live_started connected m.operations reading refl))

  -- `started_write` leaves what it finds, but that a write may be under way behind it.
  pub started_write-Goes :
      (r : Buffers × Option (List ℕ)) (m : Machine)
      → Hindered cancel_fails m ⊎ IsLive m
      → Goes cancel_fails m (started_write grow irc cancel_fails r m)
  unfolding started_write
  started_write-Goes (b, none) m w = record {
    keeps = kept (impl_Leads _ m refl refl refl refl refl);
    going = w;
  }
  started_write-Goes (b, some bytes) m w = record {
    keeps = kept (
        then_starts (writing bytes) (impl_Leads _ m refl refl refl refl refl)
          (starts (writing bytes) _));
    going = elim w [
      | inl h ↦ inl h
      | inr l ↦ inr (live_more m.impl.curstate m.operations (writing bytes) l)
    ];
  }

  pub on_written-Goes :
      (r : Completion ℕ) (bytes : List ℕ) (m : Machine)
      → Awaited (writing bytes) m
      → Goes cancel_fails m (on_written grow irc cancel_fails r m).1
  unfolding on_written
  on_written-Goes (errored error) bytes m w =
      callback-Goes (writing bytes) connected m _ (λ e. refl) w
        (λ c.
          failed-Goes grow irc cancel_fails (codes "Sending data failed: ") error m
            (ap (λ s. allowed s disconnected) c))
  on_written-Goes (succeeded num_transferred) bytes m w =
      callback-Goes (writing bytes) connected m _ (λ e. refl) w
        (λ c. started_write-Goes _ m (unserved (writing bytes) m refl w))
