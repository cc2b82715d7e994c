-- ===== src/Connection/System/Stranded.antt =====
-- src/modules/connection.cpp: a connection that stays connecting with nothing under way that would go on.
use libslirc_old.Prelude.{
  ℕ, ◌≡◌, refl, sym, ap, ap₂, ◌∙◌, subst, Bool, true, false, ◌&&◌, List, ◌∷◌, ◌++◌, arith, Option,
  none, some, throw, all, all-append, Exception, already_connected,
}
use libslirc_old.Network.{get_service}
use libslirc_old.Connection.Buffers.{Buffers, append}
use libslirc_old.Connection.Impl.{
  disconnected, connecting, connected, is_state, Operation, resolving, connecting_to, handshaking,
  reading, writing, ErrorCode, errored, Impl, Machine, Done, emit_error,
}
use libslirc_old.Connection.Impl.Effects.{emit_error-Leads}
use libslirc_old.Connection.Text.{codes}
use libslirc_old.Connection.Stages.{connect, on_handshake}
use libslirc_old.Connection.Stages.Members.{connect-abandoned}
use libslirc_old.Connection.Stages.Returns.{on_handshake-errored}
use libslirc_old.Connection.Stages.Ignored.{
  on_written-ignored, connect-refused, writes_of, do_send_raw-curstate, do_send_raw-operations,
}
use libslirc_old.Connection.Endpoint.Effects.{set_endpoint-refused}
use libslirc_old.Connection.System.{
  Outcome, callback, Step, configures, connects, disconnects, sends, completes, network_changes,
}

abbrev pub is_write : Operation → Bool
is_write (writing bytes) = true
is_write _ = false

-- Connecting, and nothing is under way but writes.
pub record IsStranded (m : Machine) : Type 0 where
  pub state : m.impl.curstate ≡ connecting
  pub only_writes : all is_write m.operations ≡ true

module _ (grow : ℕ → ℕ → ℕ) (irc : ℕ) (cancel_fails : Impl → Bool) (ssl_support : Bool) where
  -- A call of `disconnect`.
  abbrev pub is_disconnect : {m n : Machine} → Step grow irc cancel_fails ssl_support m n → Bool
  is_disconnect (configures m endpoint new_port) = false
  is_disconnect (connects m) = false
  is_disconnect (disconnects m) = true
  is_disconnect (sends m bytes) = false
  is_disconnect (completes m before after op r e) = false
  is_disconnect (network_changes m n h) = false

  pub data Undisturbed (m : Machine) : Machine → Type 0 where
    here : Undisturbed m m
    next :
        {n k : Machine}
        → Undisturbed m n
        → (step : Step grow irc cancel_fails ssl_support n k) → is_disconnect step ≡ false
        → Undisturbed m k

  left :
      {m : Machine} (d : Done) {x : Option Exception} → d ≡ (x, m) → IsStranded m → IsStranded d.1
  left d e s = subst (λ (c : Done). IsStranded c.1) (sym e) s

  writes : (r : Buffers × Option (List ℕ)) → all is_write (writes_of grow irc cancel_fails r) ≡ true
  writes (b, none) = refl
  writes (b, some bytes) = refl

  without :
      (before after : List Operation) (op : Operation)
      → all is_write (before ++ op ∷ after) ≡ true
      → (is_write op ≡ true) × (all is_write (before ++ after) ≡ true)
  without before after op h =
      ground (arith, all-append is_write before (op ∷ after), all-append is_write before after)

  completed-IsStranded :
      (op : Operation) (r : Outcome op) (m : Machine)
      → is_write op ≡ true
      → IsStranded m
      → IsStranded (callback grow irc cancel_fails ssl_support op r m).1
  completed-IsStranded (resolving host port) r m w s = absurd (cc)
  completed-IsStranded (connecting_to endpoint) r m w s = absurd (cc)
  completed-IsStranded handshaking r m w s = absurd (cc)
  completed-IsStranded reading r m w s = absurd (cc)
  completed-IsStranded (writing bytes) r m w s =
      left _ (on_written-ignored grow irc cancel_fails m (ap (λ x. is_state x connected) s.state) r)
        s

  Step-IsStranded :
      {m n : Machine} (step : Step grow irc cancel_fails ssl_support m n)
      → is_disconnect step ≡ false
      → IsStranded m
      → IsStranded n
  Step-IsStranded (configures m endpoint new_port) u s =
      left _
        (set_endpoint-refused ssl_support endpoint new_port m
          (ap (λ x. is_state x disconnected) s.state))
        s
  Step-IsStranded (connects m) u s =
      left _ (connect-refused grow irc cancel_fails m (ap (λ x. is_state x disconnected) s.state)) s
  Step-IsStranded (disconnects m) u s = absurd (cc)
  Step-IsStranded (sends m bytes) u s = record {
    state = do_send_raw-curstate grow irc cancel_fails bytes m ∙ s.state;
    only_writes =
        ap (all is_write) (do_send_raw-operations grow irc cancel_fails bytes m)
        ∙ all-append is_write m.operations _
        ∙ ap₂ ◌&&◌ s.only_writes (writes (append bytes m.impl.buffers));
  }
  Step-IsStranded (completes m before after op r e) u s =
      let (write, rest) = without before after op (ap (all is_write) (sym e) ∙ s.only_writes) in
      completed-IsStranded op r (record m { operations = before ++ after }) write
        (record { state = s.state; only_writes = rest })
  Step-IsStranded (network_changes m n h) u s = record {
    state = s.state;
    only_writes = s.only_writes;
  }

  Undisturbed-IsStranded : {m n : Machine} → Undisturbed m n → IsStranded m → IsStranded n
  Undisturbed-IsStranded here s = s
  Undisturbed-IsStranded (next r step u) s = Step-IsStranded step u (Undisturbed-IsStranded r s)

  -- Stranded, where `connect` throws already_connected.
  abbrev pub CannotGoOn : Machine → Type 0
  CannotGoOn m = IsStranded m × (connect grow irc cancel_fails m ≡ (some already_connected, m))

  refuses : {m : Machine} → IsStranded m → CannotGoOn m
  refuses {m} s =
      (s, connect-refused grow irc cancel_fails m (ap (λ x. is_state x disconnected) s.state))

  -- When the handshake of a connecting connection fails, and nothing else but writes is under way, then
  -- whatever happens but a `disconnect`, the connection stays connecting with nothing under way but
  -- writes, and `connect` throws already_connected.
  pub handshake-strands :
      (m n : Machine) (error : ErrorCode)
      → m.impl.curstate ≡ connecting
      → all is_write m.operations ≡ true
      → Undisturbed (on_handshake grow irc cancel_fails (errored error) m).1 n
      → CannotGoOn n
  handshake-strands m n error c w r =
      let text = codes "SSL handshake failed: " ++ error.message in
      let leads = emit_error-Leads grow irc text error m in
      let failed = emit_error grow irc text error m in
      let stranded : IsStranded failed = record {
        state = leads.state ∙ c;
        only_writes = ap (all is_write) leads.under_way ∙ w;
      } in
      refuses (
        Undisturbed-IsStranded r (
          subst (λ (d : Done). IsStranded d.1)
            (sym (on_handshake-errored grow irc cancel_fails error m c)) stranded))

  -- When `connect` finds the network service shutting down, and nothing but writes is under way, then
  -- it throws, and whatever happens but a `disconnect`, the connection stays connecting with nothing
  -- under way but writes, and `connect` throws already_connected.
  pub shutdown-strands :
      (m n : Machine) (x : Exception)
      → m.impl.curstate ≡ disconnected
      → all is_write m.operations ≡ true
      → (get_service m.network).0 ≡ throw x
      → Undisturbed (connect grow irc cancel_fails m).1 n
      → ((connect grow irc cancel_fails m).0 ≡ some x) × CannotGoOn n
  shutdown-strands m n x c w thrown r =
      let (throws, state, same) = connect-abandoned grow irc cancel_fails m x c thrown in
      (
        throws,
        refuses (
            Undisturbed-IsStranded r
              (record { state = state; only_writes = ap (all is_write) same ∙ w })),
      )
