-- ===== src/Connection/Stages/Effects.antt =====
-- src/modules/connection.cpp: what the stages of a connection leave, with every exception.
use libslirc_old.Prelude.{
  ℕ, ◌≡◌, refl, sym, ap, ◌∙◌, subst, Bool, true, false, List, [], ◌∷◌, ◌++◌, none, some,
  if◌then◌else◌, arith,
}
use libslirc_old.Connection.Lines.Stream.{feed}
use libslirc_old.Connection.Lines.Chunks.{split_refines}
use libslirc_old.Connection.Impl.{
  ConnectionState, disconnected, connected, Operation, handshaking, reading, Impl, Machine, start,
  emit_state_change,
}
use libslirc_old.Connection.Impl.Trace.{allowed, Route}
use libslirc_old.Connection.Impl.Effects.{Leads, trans, emit_line-Leads, emit_state_change-Leads}
use libslirc_old.Connection.Stages.{
  with_impl, clear_resolver, clear_buffers, disconnected_socket, emit_lines, recv, connect_success,
  connect_opt_ssl_handshake,
}

-- Nothing that the state machine sees.
pub still : (m : Machine) → Leads m.impl.curstate m.operations m m
still m = record {
  state = refl;
  under_way = refl;
  same_socket = refl;
  same_ssl = refl;
  same_host = refl;
  same_port = refl;
  same_stopping = refl;
  trace = λ t. t;
}

pub starts :
    (op : Operation) (m : Machine) → Leads m.impl.curstate (m.operations ++ op ∷ []) m (start op m)
starts op m = record {
  state = refl;
  under_way = refl;
  same_socket = refl;
  same_ssl = refl;
  same_host = refl;
  same_port = refl;
  same_stopping = refl;
  trace = λ t. t;
}

pub relabel :
    {s t : ConnectionState} {ops more : List Operation} {m n : Machine}
    → s ≡ t
    → ops ≡ more
    → Leads s ops m n
    → Leads t more m n
relabel state under_way a = record {
  state = a.state ∙ state;
  under_way = a.under_way ∙ under_way;
  same_socket = a.same_socket;
  same_ssl = a.same_ssl;
  same_host = a.same_host;
  same_port = a.same_port;
  same_stopping = a.same_stopping;
  trace = a.trace;
}

-- What does not change the state behind what does.
pub then_still :
    {s : ConnectionState} {ops : List Operation} {m n k : Machine}
    → Leads s ops m n
    → Leads n.impl.curstate n.operations n k
    → Leads s ops m k
then_still a b = trans a (relabel a.state a.under_way b)

-- One more operation of Asio behind it.
pub then_starts :
    {s : ConnectionState} {ops : List Operation} {m n k : Machine} (op : Operation)
    → Leads s ops m n
    → Leads n.impl.curstate (n.operations ++ op ∷ []) n k
    → Leads s (ops ++ op ∷ []) m k
then_starts op a b = trans a (relabel a.state (ap (λ l. l ++ op ∷ []) a.under_way) b)

-- A change of the implementation that the state machine does not see.
pub impl_Leads :
    (c : Impl) (m : Machine)
    → c.curstate ≡ m.impl.curstate
    → c.socket ≡ m.impl.socket
    → c.ssl ≡ m.impl.ssl
    → c.hostname ≡ m.impl.hostname
    → c.port ≡ m.impl.port
    → Leads m.impl.curstate m.operations m (record m { impl = c })
impl_Leads c m same same_socket same_ssl same_host same_port = record {
  state = same;
  under_way = refl;
  same_socket = same_socket;
  same_ssl = same_ssl;
  same_host = same_host;
  same_port = same_port;
  same_stopping = refl;
  trace = subst (Route disconnected m.emitted) (sym same);
}

cleared :
    (m : Machine)
    → Leads m.impl.curstate m.operations m (with_impl (λ c. clear_buffers (clear_resolver c)) m)
cleared m =
    impl_Leads (clear_buffers (clear_resolver m.impl)) m (ground arith) (ground arith)
      (ground arith) (ground arith) (ground arith)

-- One of the changes that are allowed, in the state that an operation has led to.
pub from_state :
    {s : ConnectionState} {ops : List Operation} {m n : Machine} (t : ConnectionState)
    → Leads s ops m n
    → allowed s t ≡ true
    → allowed n.impl.curstate t ≡ true
from_state t a h = subst (λ x. allowed x t ≡ true) (sym a.state) h

module _ (grow : ℕ → ℕ → ℕ) (irc : ℕ) (cancel_fails : Impl → Bool) where
  -- A change of the state behind what does not change it.
  pub then_moves :
      {s : ConnectionState} {ops : List Operation} {m n : Machine} (t : ConnectionState)
      → Leads s ops m n
      → allowed s t ≡ true
      → Leads t ops m (emit_state_change grow irc t n)
  then_moves t a h =
      trans a (relabel refl a.under_way (emit_state_change-Leads grow irc t _ (from_state t a h)))

  pub disconnected_socket-Leads :
      (m : Machine)
      → allowed m.impl.curstate disconnected ≡ true
      → Leads disconnected m.operations m (disconnected_socket grow irc cancel_fails m)
  unfolding disconnected_socket
  disconnected_socket-Leads m a = then_moves disconnected (cleared m) a

  emit_lines-Leads :
      (lines : List (List ℕ)) (m : Machine)
      → Leads m.impl.curstate m.operations m (emit_lines grow irc cancel_fails lines m)
  unfolding emit_lines
  emit_lines-Leads [] m = still m
  emit_lines-Leads (line ∷ lines) m =
      then_still (emit_line-Leads grow irc line m) (emit_lines-Leads lines _)

  pub recv-Leads :
      (m : Machine)
      → Leads m.impl.curstate (m.operations ++ reading ∷ []) m (recv grow irc cancel_fails m)
  unfolding recv
  recv-Leads m =
      subst
        (λ o. Leads m.impl.curstate (m.operations ++ reading ∷ []) m (elim o [
          | none ↦ m
          | some (lines, rest) ↦ start reading (
              emit_lines grow irc cancel_fails lines (
                with_impl (λ c. record c { buffers = record (c.buffers) { recv_buffer = rest } })
                  m))
        ]))
        (sym (split_refines m.impl.buffers.recv_buffer))
        (then_starts reading
          (then_still (impl_Leads _ m refl refl refl refl refl)
            (emit_lines-Leads (feed [] m.impl.buffers.recv_buffer).0 _))
          (starts reading _))

  pub connect_success-Leads :
      (m : Machine)
      → allowed m.impl.curstate connected ≡ true
      → Leads connected (m.operations ++ reading ∷ []) m (connect_success grow irc cancel_fails m)
  unfolding connect_success
  connect_success-Leads m a =
      then_starts reading (then_moves connected (cleared m) a) (recv-Leads _)

  -- Without SSL, the connection is there.
  pub connect_opt_ssl_handshake-Leads :
      (m : Machine)
      → allowed m.impl.curstate connected ≡ true
      → m.impl.ssl ≡ false
      → Leads connected
          (m.operations ++ reading ∷ [])
          m
          (connect_opt_ssl_handshake grow irc cancel_fails m)
  unfolding connect_opt_ssl_handshake
  connect_opt_ssl_handshake-Leads m a plain =
      subst
        (λ b.
          Leads connected (m.operations ++ reading ∷ []) m
            (if b then start handshaking m else connect_success grow irc cancel_fails m))
        (sym plain) (connect_success-Leads m a)
