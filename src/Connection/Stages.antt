-- ===== src/Connection/Stages.antt =====
-- src/modules/connection.cpp: the stages of a connection, and the callbacks of what Asio has been asked
-- to do. A callback looks first whether the state is the one that it was started in.
pub mod Effects
pub mod Progress
pub mod Attempts
pub mod Callbacks
pub mod Members
pub mod Ignored
pub mod Returns
pub mod Unfailing
pub mod Reads
use libslirc_old.Prelude.{
  ℕ, Bool, true, false, not, ◌||◌, List, [], ◌∷◌, ◌++◌, if◌then◌else◌, Exception, logic_error,
  system_error, Result, ok, throw, already_connected, Option, none, some,
}
use libslirc_old.Network.{Service, NetworkService, get_service}
use libslirc_old.Connection.Text.{codes}
use libslirc_old.Connection.Buffers.{Buffers, clear, append, written}
use libslirc_old.Connection.Lines.{split}
use libslirc_old.Connection.Impl.{
  ConnectionState, disconnected, connecting, connected, disconnecting, is_state, Operation,
  resolving, connecting_to, handshaking, reading, writing, ErrorCode, Completion, errored,
  succeeded, Impl, Machine, Done, ◌>>◌, start, emit_error, emit_line, emit_state_change, has_socket,
}

abbrev with_impl : (Impl → Impl) → Machine → Machine
with_impl change m = record m { impl = change m.impl }

abbrev clear_resolver : Impl → Impl
clear_resolver c = if c.resolver then record c { resolver = false; resolve_iterator = [] } else c

abbrev clear_buffers : Impl → Impl
clear_buffers c = record c { buffers = clear c.buffers }

-- The network service for a resolver, or the exception that it throws.
abbrev with_resolver : Machine → Result Service × NetworkService → Done
with_resolver m (throw e, n) = (some e, record m { network = n })
with_resolver m (ok service, n) = (
  none,
  start (resolving m.impl.hostname m.impl.port)
      (record m { network = n; impl = record (m.impl) { resolver = true } }),
)

-- `cancel_fails` is whether `cancel` of the socket throws system_error.
module _ (grow : ℕ → ℕ → ℕ) (irc : ℕ) (cancel_fails : Impl → Bool) where
  -- The end of `do_unscheduled_disconnect`, behind the `cancel`.
  pub disconnected_socket : Machine → Machine
  disconnected_socket m =
      emit_state_change grow irc disconnected (with_impl (λ c. clear_buffers (clear_resolver c)) m)

  pub do_unscheduled_disconnect : Machine → Done
  unfolding disconnected_socket
  do_unscheduled_disconnect m =
      if not (has_socket m.impl)
      then (some logic_error, m)
      else if cancel_fails m.impl
      then (some system_error, m)
      else (none, disconnected_socket m)

  pub do_disconnect : Machine → Done
  do_disconnect m = do_unscheduled_disconnect (emit_state_change grow irc disconnecting m)

  emit_lines : List (List ℕ) → Machine → Machine
  emit_lines [] m = m
  emit_lines (line ∷ lines) m = emit_lines lines (emit_line grow irc line m)

  -- `recv`: the lines in the buffer are emitted, and a read is started.
  pub recv : Machine → Machine
  unfolding emit_lines
  recv m = elim (split m.impl.buffers.recv_buffer) [
    | none ↦ m
    | some (lines, rest) ↦ start reading (
        emit_lines lines
          (with_impl (λ c. record c { buffers = record (c.buffers) { recv_buffer = rest } }) m))
  ]

  pub connect_success : Machine → Machine
  connect_success m =
      recv
        (emit_state_change grow irc connected (with_impl (λ c. clear_buffers (clear_resolver c)) m))

  pub connect_opt_ssl_handshake : Machine → Machine
  unfolding connect_success
  connect_opt_ssl_handshake m = if m.impl.ssl then start handshaking m else connect_success m

  -- `connect_try_next`, for the endpoints that are left.
  try_next : List ℕ → Machine → Done
  try_next [] m = do_unscheduled_disconnect m
  try_next (endpoint ∷ more) m = if not (has_socket m.impl) then (some logic_error, m) else (
    none,
    with_impl (λ c. record c { resolve_iterator = more }) (start (connecting_to endpoint) m),
  )

  pub connect_try_next : Machine → Done
  unfolding try_next
  connect_try_next m = try_next m.impl.resolve_iterator m

  -- `connect`, with `connect_resolve`.
  pub connect : Machine → Done
  connect m =
      if not (is_state m.impl.curstate disconnected)
      then (some already_connected, m)
      else let announced = emit_state_change grow irc connecting m in
        with_resolver announced (get_service announced.network)

  pub disconnect : Machine → Done
  disconnect m =
      if is_state m.impl.curstate disconnecting || is_state m.impl.curstate disconnected
      then (none, m)
      else do_disconnect m

  -- `do_send_raw`, with the write that it may start; a socket is assumed to be there.
  pub started_write : Buffers × Option (List ℕ) → Machine → Machine
  started_write (b, none) m = with_impl (λ c. record c { buffers = b }) m
  started_write (b, some bytes) m =
      start (writing bytes) (with_impl (λ c. record c { buffers = b }) m)

  pub do_send_raw : List ℕ → Machine → Machine
  unfolding started_write
  do_send_raw bytes m = started_write (append bytes m.impl.buffers) m

  -- An error after which the connection ends.
  pub failed : List ℕ → ErrorCode → Machine → Done
  failed text error m =
      do_unscheduled_disconnect (emit_error grow irc (text ++ error.message) error m)

  -- The callback of `async_resolve`, with the endpoints that were found.
  pub on_resolved : Completion (List ℕ) → Machine → Done
  unfolding failed
  on_resolved r m = if not (is_state m.impl.curstate connecting) then (none, m) else elim r [
    | errored error ↦ failed (codes "Name lookup failed: ") error m
    | succeeded endpoints ↦
        connect_try_next (with_impl (λ c. record c { resolve_iterator = endpoints }) m)
  ]

  -- The callback of `async_connect`.
  pub on_connected : Completion (Unit {0}) → Machine → Done
  unfolding connect_opt_ssl_handshake
  on_connected r m = if not (is_state m.impl.curstate connecting) then (none, m) else elim r [
    | errored error ↦
        connect_try_next
          (emit_error grow irc (codes "Connection failed: " ++ error.message) error m)
    | succeeded _ ↦ (none, connect_opt_ssl_handshake m)
  ]

  -- The callback of `async_handshake`.
  pub on_handshake : Completion (Unit {0}) → Machine → Done
  unfolding connect_success
  on_handshake r m = if not (is_state m.impl.curstate connecting) then (none, m) else elim r [
    | errored error ↦
        (none, emit_error grow irc (codes "SSL handshake failed: " ++ error.message) error m)
    | succeeded _ ↦ (none, connect_success m)
  ]

  -- The callback of a read, with the bytes that it transferred.
  pub on_read : Completion (List ℕ) → Machine → Done
  unfolding failed
  on_read r m = if not (is_state m.impl.curstate connected) then (none, m) else elim r [
    | errored error ↦ failed (codes "Connection failed: ") error m
    | succeeded bytes ↦ (
      none,
      recv (
          with_impl
            (λ c. record c {
              buffers = record (c.buffers) { recv_buffer = c.buffers.recv_buffer ++ bytes };
            })
            m),
    )
  ]

  -- The callback of a write, with the number of bytes that it transferred.
  pub on_written : Completion ℕ → Machine → Done
  unfolding failed started_write
  on_written r m = if not (is_state m.impl.curstate connected) then (none, m) else elim r [
    | errored error ↦ failed (codes "Sending data failed: ") error m
    | succeeded num_transferred ↦ (none, started_write (written num_transferred m.impl.buffers) m)
  ]
