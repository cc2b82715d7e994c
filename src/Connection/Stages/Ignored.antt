-- ===== src/Connection/Stages/Ignored.antt =====
-- src/modules/connection.cpp: what is ignored or refused while a connection is disconnecting, and how a
-- `disconnect` that throws leaves it so.
use libslirc_old.Prelude.{
  ℕ, ◌≡◌, ◌≢◌, refl, sym, ap, ◌∙◌, subst, ◌⊎◌, inl, inr, Bool, true, false, not, ◌||◌, List, Option,
  none, some, if◌then◌else◌, already_connected, arith, [], ◌∷◌, ◌++◌, append-nil,
}
use libslirc_old.Connection.Buffers.{Buffers, append}
use libslirc_old.Connection.Impl.{
  ConnectionState, disconnected, connecting, connected, disconnecting, is_state, Operation, writing,
  Completion, Impl, Machine, Done, emit_state_change, has_socket,
}
use libslirc_old.Connection.Impl.Trace.{allowed}
use libslirc_old.Connection.Impl.Effects.{emit_state_change-Leads}
use libslirc_old.Connection.Stages.{
  do_unscheduled_disconnect, do_disconnect, connect, disconnect, started_write, do_send_raw,
  on_resolved, on_connected, on_handshake, on_read, on_written,
}
use libslirc_old.Connection.Stages.Attempts.{by_test}

running :
    (s : ConnectionState)
    → allowed s disconnecting ≡ true
    → (is_state s disconnecting || is_state s disconnected) ≡ false
running connecting h = refl
running connected h = refl
running disconnected h = absurd (cc)
running disconnecting h = absurd (cc)

-- One branch of a test.
pub if_true : {A : Type 0} (b : Bool) (x y : A) → b ≡ true → (if b then x else y) ≡ x
if_true true x y h = refl
if_true false x y h = absurd (cc)

pub if_false : {A : Type 0} (b : Bool) (x y : A) → b ≡ false → (if b then x else y) ≡ y
if_false false x y h = refl
if_false true x y h = absurd (cc)

module _ (grow : ℕ → ℕ → ℕ) (irc : ℕ) (cancel_fails : Impl → Bool) (m : Machine) where
  pub on_resolved-ignored :
      is_state m.impl.curstate connecting ≡ false
      → (r : Completion (List ℕ)) → on_resolved grow irc cancel_fails r m ≡ (none, m)
  unfolding on_resolved
  on_resolved-ignored e r = if_true _ _ _ (ap not e)

  pub on_connected-ignored :
      is_state m.impl.curstate connecting ≡ false
      → (r : Completion (Unit {0})) → on_connected grow irc cancel_fails r m ≡ (none, m)
  unfolding on_connected
  on_connected-ignored e r = if_true _ _ _ (ap not e)

  pub on_handshake-ignored :
      is_state m.impl.curstate connecting ≡ false
      → (r : Completion (Unit {0})) → on_handshake grow irc cancel_fails r m ≡ (none, m)
  unfolding on_handshake
  on_handshake-ignored e r = if_true _ _ _ (ap not e)

  pub on_read-ignored :
      is_state m.impl.curstate connected ≡ false
      → (r : Completion (List ℕ)) → on_read grow irc cancel_fails r m ≡ (none, m)
  unfolding on_read
  on_read-ignored e r = if_true _ _ _ (ap not e)

  pub on_written-ignored :
      is_state m.impl.curstate connected ≡ false
      → (r : Completion ℕ) → on_written grow irc cancel_fails r m ≡ (none, m)
  unfolding on_written
  on_written-ignored e r = if_true _ _ _ (ap not e)

  pub connect-refused :
      is_state m.impl.curstate disconnected ≡ false
      → connect grow irc cancel_fails m ≡ (some already_connected, m)
  unfolding connect
  connect-refused e = if_true _ _ _ (ap not e)

module _ (grow : ℕ → ℕ → ℕ) (irc : ℕ) (cancel_fails : Impl → Bool) (m : Machine)
    (e : m.impl.curstate ≡ disconnecting) where
  pub disconnect-ignored : disconnect grow irc cancel_fails m ≡ (none, m)
  unfolding disconnect
  disconnect-ignored =
      if_true _ _ _ (ap (λ s. is_state s disconnecting || is_state s disconnected) e)

module _ (grow : ℕ → ℕ → ℕ) (irc : ℕ) (cancel_fails : Impl → Bool) where
  started_write-curstate :
      (r : Buffers × Option (List ℕ)) (m : Machine)
      → (started_write grow irc cancel_fails r m).impl.curstate ≡ m.impl.curstate
  unfolding started_write
  started_write-curstate (b, none) m = refl
  started_write-curstate (b, some bytes) m = refl

  pub do_send_raw-curstate :
      (bytes : List ℕ) (m : Machine)
      → (do_send_raw grow irc cancel_fails bytes m).impl.curstate ≡ m.impl.curstate
  unfolding do_send_raw
  do_send_raw-curstate bytes m = started_write-curstate _ m

  -- The write that a call may start.
  abbrev pub writes_of : Buffers × Option (List ℕ) → List Operation
  writes_of (b, none) = []
  writes_of (b, some bytes) = writing bytes ∷ []

  started_write-operations :
      (r : Buffers × Option (List ℕ)) (m : Machine)
      → (started_write grow irc cancel_fails r m).operations ≡ m.operations ++ writes_of r
  unfolding started_write
  started_write-operations (b, none) m = sym (append-nil m.operations)
  started_write-operations (b, some bytes) m = refl

  pub do_send_raw-operations :
      (bytes : List ℕ) (m : Machine)
      → (do_send_raw grow irc cancel_fails bytes m).operations
        ≡ m.operations ++ writes_of (append bytes m.impl.buffers)
  unfolding do_send_raw
  do_send_raw-operations bytes m = started_write-operations (append bytes m.impl.buffers) m

  -- There is no socket, or `cancel` throws.
  abbrev pub CannotEnd : Machine → Type 0
  CannotEnd m =
      ((m.impl.socket ≡ false) × (m.impl.ssl ≡ false)) ⊎ ((c : Impl) → cancel_fails c ≡ true)

  unscheduled_throws :
      (m : Machine)
      → CannotEnd m
      → let d = do_unscheduled_disconnect grow irc cancel_fails m in (d.0 ≢ none) × (d.1 ≡ m)
  unfolding do_unscheduled_disconnect
  unscheduled_throws m w =
      by_test (λ (d : Done). (d.0 ≢ none) × (d.1 ≡ m)) (not (has_socket m.impl)) _ _
        (λ e. ((λ h. absurd (cc)), refl))
        (λ e. elim w [
          | inl h ↦ absurd (ground arith)
          | inr f ↦
              subst (λ (d : Done). (d.0 ≢ none) × (d.1 ≡ m)) (sym (if_true _ _ _ (f m.impl)))
                ((λ h. absurd (cc)), refl)
        ])

  pub disconnect-throws :
      (m : Machine)
      → allowed m.impl.curstate disconnecting ≡ true
      → CannotEnd m
      → let d = disconnect grow irc cancel_fails m in
        (d.0 ≢ none) × (d.1.impl.curstate ≡ disconnecting)
  unfolding disconnect do_disconnect
  disconnect-throws m a w =
      let announced = emit_state_change-Leads grow irc disconnecting m a in
      let now = emit_state_change grow irc disconnecting m in
      let still_cannot : CannotEnd now = elim w [
        | inl (h, k) ↦ inl (announced.same_socket ∙ h, announced.same_ssl ∙ k)
        | inr f ↦ inr f
      ] in
      let (throws, same) = unscheduled_throws now still_cannot in
      subst (λ (d : Done). (d.0 ≢ none) × (d.1.impl.curstate ≡ disconnecting))
        (sym (if_false _ _ _ (running m.impl.curstate a)))
        (throws, ap (λ (k : Machine). k.impl.curstate) same ∙ announced.state)
