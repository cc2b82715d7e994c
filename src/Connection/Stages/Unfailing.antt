-- ===== src/Connection/Stages/Unfailing.antt =====
-- src/modules/connection.cpp: a call or a callback that throws nothing does what it would do with a socket
-- whose `cancel` never fails.
use libslirc_old.Prelude.{
  ℕ, ◌≡◌, refl, ap, Bool, false, List, [], ◌∷◌, ◌++◌, none, some, arith, Bool-cases, inl, inr,
  Option,
}
use libslirc_old.Connection.Buffers.{Buffers, append, written}
use libslirc_old.Connection.Text.{codes}
use libslirc_old.Connection.Lines.{split}
use libslirc_old.Connection.Impl.{
  disconnecting, ErrorCode, Completion, errored, succeeded, Impl, Machine, reading, start,
  emit_error, emit_line, emit_state_change,
}
use libslirc_old.Connection.Stages.{
  do_unscheduled_disconnect, do_disconnect, emit_lines, recv, connect_success,
  connect_opt_ssl_handshake, try_next, connect_try_next, connect, disconnect, do_send_raw, failed,
  on_resolved, on_connected, on_handshake, on_read, on_written, disconnected_socket, started_write,
  with_impl,
}

abbrev pub never : Impl → Bool
never c = false

module _ (grow : ℕ → ℕ → ℕ) (irc : ℕ) (cancel_fails : Impl → Bool) where
  do_unscheduled_disconnect-never :
      (m : Machine)
      → (do_unscheduled_disconnect grow irc cancel_fails m).0 ≡ none
      → do_unscheduled_disconnect grow irc cancel_fails m
        ≡ do_unscheduled_disconnect grow irc never m
  unfolding do_unscheduled_disconnect disconnected_socket
  do_unscheduled_disconnect-never m h = elim (Bool-cases (cancel_fails m.impl)) [
    | inl fails ↦ ground (arith, fails)
    | inr cancels ↦ ground (arith, cancels)
  ]

  emit_lines-never :
      (lines : List (List ℕ)) (m : Machine)
      → emit_lines grow irc cancel_fails lines m ≡ emit_lines grow irc never lines m
  unfolding emit_lines
  emit_lines-never [] m = refl
  emit_lines-never (line ∷ lines) m = emit_lines-never lines (emit_line grow irc line m)

  recv-never : (m : Machine) → recv grow irc cancel_fails m ≡ recv grow irc never m
  unfolding recv
  recv-never m =
      elim (split m.impl.buffers.recv_buffer)
        as (λ (o : Option (List (List ℕ) × List ℕ)).
          ◌≡◌ {A = Machine}
            (elim o [
              | none ↦ m
              | some (lines, rest) ↦
                  start reading (emit_lines grow irc cancel_fails lines (left rest))
            ])
            (elim o [
              | none ↦ m
              | some (lines, rest) ↦ start reading (emit_lines grow irc never lines (left rest))
            ])) [
              | none ↦ refl
              | some (lines, rest) ↦ ap (start reading) (emit_lines-never lines (left rest))
            ]
    where
      left : List ℕ → Machine
      left rest =
          with_impl (λ c. record c { buffers = record (c.buffers) { recv_buffer = rest } }) m

  connect_success-never :
      (m : Machine) → connect_success grow irc cancel_fails m ≡ connect_success grow irc never m
  unfolding connect_success
  connect_success-never m = recv-never _

  connect_opt_ssl_handshake-never :
      (m : Machine)
      → connect_opt_ssl_handshake grow irc cancel_fails m
        ≡ connect_opt_ssl_handshake grow irc never m
  unfolding connect_opt_ssl_handshake
  connect_opt_ssl_handshake-never m = ground (arith, connect_success-never m)

  connect_try_next-never :
      (m : Machine)
      → (connect_try_next grow irc cancel_fails m).0 ≡ none
      → connect_try_next grow irc cancel_fails m ≡ connect_try_next grow irc never m
  unfolding connect_try_next try_next
  connect_try_next-never m h = go m.impl.resolve_iterator h
    where
      go :
          (l : List ℕ)
          → (try_next grow irc cancel_fails l m).0 ≡ none
          → try_next grow irc cancel_fails l m ≡ try_next grow irc never l m
      go [] h = do_unscheduled_disconnect-never m h
      go (endpoint ∷ more) h = refl

  pub connect-never : (m : Machine) → connect grow irc cancel_fails m ≡ connect grow irc never m
  unfolding connect
  connect-never m = refl

  started_write-never :
      (r : Buffers × Option (List ℕ)) (m : Machine)
      → started_write grow irc cancel_fails r m ≡ started_write grow irc never r m
  unfolding started_write
  started_write-never (b, none) m = refl
  started_write-never (b, some bytes) m = refl

  pub do_send_raw-never :
      (bytes : List ℕ) (m : Machine)
      → do_send_raw grow irc cancel_fails bytes m ≡ do_send_raw grow irc never bytes m
  unfolding do_send_raw
  do_send_raw-never bytes m = started_write-never (append bytes m.impl.buffers) m

  pub disconnect-never :
      (m : Machine)
      → (disconnect grow irc cancel_fails m).0 ≡ none
      → disconnect grow irc cancel_fails m ≡ disconnect grow irc never m
  unfolding disconnect do_disconnect
  disconnect-never m h =
      ground (arith, do_unscheduled_disconnect-never (emit_state_change grow irc disconnecting m))

  failed-never :
      (text : List ℕ) (error : ErrorCode) (m : Machine)
      → (failed grow irc cancel_fails text error m).0 ≡ none
      → failed grow irc cancel_fails text error m ≡ failed grow irc never text error m
  unfolding failed
  failed-never text error m h = do_unscheduled_disconnect-never _ h

  pub on_resolved-never :
      (r : Completion (List ℕ)) (m : Machine)
      → (on_resolved grow irc cancel_fails r m).0 ≡ none
      → on_resolved grow irc cancel_fails r m ≡ on_resolved grow irc never r m
  unfolding on_resolved
  on_resolved-never (errored error) m h =
      ground (arith, failed-never (codes "Name lookup failed: ") error m)
  on_resolved-never (succeeded endpoints) m h =
      ground (
        arith,
        connect_try_next-never (with_impl (λ c. record c { resolve_iterator = endpoints }) m),
      )

  pub on_connected-never :
      (r : Completion (Unit {0})) (m : Machine)
      → (on_connected grow irc cancel_fails r m).0 ≡ none
      → on_connected grow irc cancel_fails r m ≡ on_connected grow irc never r m
  unfolding on_connected
  on_connected-never (errored error) m h = ground (
    arith,
    connect_try_next-never
        (emit_error grow irc (codes "Connection failed: " ++ error.message) error m),
  )
  on_connected-never (succeeded u) m h = ground (arith, connect_opt_ssl_handshake-never m)

  pub on_handshake-never :
      (r : Completion (Unit {0})) (m : Machine)
      → on_handshake grow irc cancel_fails r m ≡ on_handshake grow irc never r m
  unfolding on_handshake
  on_handshake-never (errored error) m = refl
  on_handshake-never (succeeded u) m = ground (arith, connect_success-never m)

  pub on_read-never :
      (r : Completion (List ℕ)) (m : Machine)
      → (on_read grow irc cancel_fails r m).0 ≡ none
      → on_read grow irc cancel_fails r m ≡ on_read grow irc never r m
  unfolding on_read
  on_read-never (errored error) m h =
      ground (arith, failed-never (codes "Connection failed: ") error m)
  on_read-never (succeeded bytes) m h = ground (
    arith,
    recv-never (
        with_impl
          (λ c. record c {
            buffers = record (c.buffers) { recv_buffer = c.buffers.recv_buffer ++ bytes };
          })
          m),
  )

  pub on_written-never :
      (r : Completion ℕ) (m : Machine)
      → (on_written grow irc cancel_fails r m).0 ≡ none
      → on_written grow irc cancel_fails r m ≡ on_written grow irc never r m
  unfolding on_written
  on_written-never (errored error) m h =
      ground (arith, failed-never (codes "Sending data failed: ") error m)
  on_written-never (succeeded n) m h =
      ground (arith, started_write-never (written n m.impl.buffers) m)
