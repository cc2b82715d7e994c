-- ===== src/Connection/Stages/Members.antt =====
-- src/modules/connection.cpp: the members that a user calls keep a connection going.
use libslirc_old.Prelude.{
  ℕ, ◌≡◌, ◌≢◌, refl, ◌⊎◌, Bool, true, false, not, ◌||◌, List, Result, ok, throw, Exception, none,
  some, ap, ◌∙◌, sym, subst, ◌++◌, [], ◌∷◌,
}
use libslirc_old.Connection.Impl.{
  ConnectionState, disconnected, connecting, connected, disconnecting, is_state, Operation,
  resolving, Impl, Machine, Done, emit_state_change,
}
use libslirc_old.Connection.Impl.Trace.{allowed}
use libslirc_old.Connection.Impl.Effects.{Leads, emit_state_change-Leads, emit_state_change-network}
use libslirc_old.Connection.Stages.{do_disconnect, connect, disconnect, do_send_raw}
use libslirc_old.Connection.Stages.Effects.{still, starts, relabel, then_starts, from_state}
use libslirc_old.Connection.Stages.Progress.{
  IsLive, live_started, Hindered, shutting_down, Goes, goes, hindered, then-Goes, still-Goes,
}
use libslirc_old.Connection.Stages.Attempts.{by_test, do_unscheduled_disconnect-Goes}
use libslirc_old.Network.{Service, NetworkService, get_service}
use libslirc_old.Network.Lifetime.{get_service-stopping, get_service-throw}
use libslirc_old.Connection.Stages.{with_resolver}
use libslirc_old.Connection.Stages.Ignored.{if_false}
use libslirc_old.Connection.Stages.Returns.{busy}
use libslirc_old.Connection.Stages.Callbacks.{started_write-Goes}

network_Leads :
    (n : NetworkService) (m : Machine)
    → n.internal_service_stopping ≡ m.network.internal_service_stopping
    → Leads m.impl.curstate m.operations m (record m { network = n })
network_Leads n m h = record {
  state = refl;
  under_way = refl;
  same_socket = refl;
  same_ssl = refl;
  same_host = refl;
  same_port = refl;
  same_stopping = h;
  trace = λ t. t;
}

resolver_Leads :
    (n : NetworkService) (m : Machine)
    → n.internal_service_stopping ≡ m.network.internal_service_stopping
    → Leads m.impl.curstate m.operations m
        (record m { network = n; impl = record (m.impl) { resolver = true } })
resolver_Leads n m h = record {
  state = refl;
  under_way = refl;
  same_socket = refl;
  same_ssl = refl;
  same_host = refl;
  same_port = refl;
  same_stopping = h;
  trace = λ t. t;
}

at_rest :
    (s : ConnectionState) → not (is_state s disconnected) ≡ false → allowed s connecting ≡ true
at_rest disconnected h = refl
at_rest connecting h = absurd (cc)
at_rest connected h = absurd (cc)
at_rest disconnecting h = absurd (cc)

module _ (grow : ℕ → ℕ → ℕ) (irc : ℕ) (cancel_fails : Impl → Bool) where
  with_resolver-Goes :
      (m : Machine) (r : Result Service × NetworkService)
      → m.impl.curstate ≡ connecting
      → r.1.internal_service_stopping ≡ m.network.internal_service_stopping
      → ((e : Exception) → r.0 ≡ throw e → m.network.internal_service_stopping ≡ true)
      → Goes cancel_fails m (with_resolver m r).1
  with_resolver-Goes m (throw e, n) c h t =
      hindered (network_Leads n m h) (shutting_down (t e refl))
  with_resolver-Goes m (ok service, n) c h t =
      goes
        (relabel c refl (
          then_starts (resolving m.impl.hostname m.impl.port) (resolver_Leads n m h)
            (starts (resolving m.impl.hostname m.impl.port) _)))
        (live_started connecting m.operations (resolving m.impl.hostname m.impl.port) refl)

  pub connect-Goes :
      (m : Machine)
      → Hindered cancel_fails m ⊎ IsLive m
      → Goes cancel_fails m (connect grow irc cancel_fails m).1
  unfolding connect
  connect-Goes m w =
      by_test (λ (d : Done). Goes cancel_fails m d.1) (not (is_state m.impl.curstate disconnected))
        _ _ (λ e. still-Goes (still m) w)
        (λ e.
          let announced =
            emit_state_change-Leads grow irc connecting m (at_rest m.impl.curstate e) in
          let now = emit_state_change grow irc connecting m in
          then-Goes announced (
            with_resolver-Goes now (get_service now.network) announced.state
              (get_service-stopping now.network) (get_service-throw now.network)))

  pub disconnect-Goes :
      (m : Machine)
      → Hindered cancel_fails m ⊎ IsLive m
      → Goes cancel_fails m (disconnect grow irc cancel_fails m).1
  unfolding disconnect do_disconnect
  disconnect-Goes m w =
      by_test (λ (d : Done). Goes cancel_fails m d.1)
        (is_state m.impl.curstate disconnecting || is_state m.impl.curstate disconnected) _ _
        (λ e. still-Goes (still m) w)
        (λ e.
          let announced =
            emit_state_change-Leads grow irc disconnecting m (busy m.impl.curstate e) in
          then-Goes announced (
            do_unscheduled_disconnect-Goes grow irc cancel_fails _
              (from_state disconnected announced refl)))

  pub do_send_raw-Goes :
      (bytes : List ℕ) (m : Machine)
      → Hindered cancel_fails m ⊎ IsLive m
      → Goes cancel_fails m (do_send_raw grow irc cancel_fails bytes m)
  unfolding do_send_raw
  do_send_raw-Goes bytes m w = started_write-Goes grow irc cancel_fails _ m w

  resolver_started :
      (m : Machine) (r : Result Service × NetworkService)
      → ((e : Exception) → r.0 ≢ throw e)
      → let d = with_resolver m r in
        (d.0 ≡ none)
        × (d.1.impl.curstate ≡ m.impl.curstate)
        × (d.1.operations ≡ m.operations ++ resolving m.impl.hostname m.impl.port ∷ [])
  resolver_started m (throw e, n) given = absurd (given e refl)
  resolver_started m (ok service, n) given = (refl, refl, refl)

  no_resolver :
      (m : Machine) (r : Result Service × NetworkService) (x : Exception) {s : ConnectionState}
      {ops : List Operation}
      → r.0 ≡ throw x
      → m.impl.curstate ≡ s
      → m.operations ≡ ops
      → let d = with_resolver m r in
        (d.0 ≡ some x) × (d.1.impl.curstate ≡ s) × (d.1.operations ≡ ops)
  no_resolver m (throw e, n) x h c o = (cc, c, o)
  no_resolver m (ok service, n) x h c o = absurd (cc)

  -- The lookup of the host that is set, while the network service is not shutting down.
  pub connect_lem :
      (m : Machine)
      → m.impl.curstate ≡ disconnected
      → m.network.internal_service_stopping ≡ false
      → let d = connect grow irc cancel_fails m in
        (d.0 ≡ none)
        × (d.1.impl.curstate ≡ connecting)
        × (d.1.operations ≡ m.operations ++ resolving m.impl.hostname m.impl.port ∷ [])
  unfolding connect
  connect_lem m rest running =
      let announced =
        emit_state_change-Leads grow irc connecting m (ap (λ s. allowed s connecting) rest) in
      let now = emit_state_change grow irc connecting m in
      let (none_thrown, same, ops) = resolver_started now (get_service now.network) (λ e h.
        let stopping = get_service-throw now.network e h in
        let before = announced.same_stopping in absurd (cc)) in
      subst
        (λ (d : Done).
          (d.0 ≡ none)
          × (d.1.impl.curstate ≡ connecting)
          × (d.1.operations ≡ m.operations ++ resolving m.impl.hostname m.impl.port ∷ []))
        (sym (if_false _ _ _ (ap (λ s. not (is_state s disconnected)) rest)))
        (
          none_thrown,
          same ∙ announced.state,
          ops
              ∙ ap (λ l. l ++ resolving now.impl.hostname now.impl.port ∷ []) announced.under_way
              ∙ ap (λ h. m.operations ++ resolving h now.impl.port ∷ []) announced.same_host
              ∙ ap (λ p. m.operations ++ resolving m.impl.hostname p ∷ []) announced.same_port,
        )

  -- A `connect` for which the network service throws has announced that it is connecting, and has
  -- started nothing.
  pub connect-abandoned :
      (m : Machine) (x : Exception)
      → m.impl.curstate ≡ disconnected
      → (get_service m.network).0 ≡ throw x
      → let d = connect grow irc cancel_fails m in
        (d.0 ≡ some x) × (d.1.impl.curstate ≡ connecting) × (d.1.operations ≡ m.operations)
  unfolding connect
  connect-abandoned m x rest thrown =
      let announced =
        emit_state_change-Leads grow irc connecting m (ap (λ s. allowed s connecting) rest) in
      let now = emit_state_change grow irc connecting m in
      let still_thrown : (get_service now.network).0 ≡ throw x =
        ap (λ n. (get_service n).0) (emit_state_change-network grow irc connecting m) ∙ thrown in
      subst
        (λ (d : Done).
          (d.0 ≡ some x) × (d.1.impl.curstate ≡ connecting) × (d.1.operations ≡ m.operations))
        (sym (if_false _ _ _ (ap (λ s. not (is_state s disconnected)) rest)))
        (no_resolver now (get_service now.network) x still_thrown announced.state
          announced.under_way)
