-- ===== src/Connection/System/Progress.antt =====
-- src/modules/connection.cpp: whatever happens, a connection that is not at rest goes on.
use libslirc_old.Prelude.{
  ℕ, ◌≡◌, refl, sym, ap, ◌∙◌, subst, ◌⊎◌, inl, inr, Bool, true, false, List, ◌∷◌, ◌++◌,
}
use libslirc_old.Connection.Impl.{
  disconnected, Operation, resolving, connecting_to, handshaking, reading, writing, Impl, Machine,
}
use libslirc_old.Connection.Impl.Trace.{Route, Route-nil, Traced}
use libslirc_old.Connection.Stages.Progress.{
  live, IsLive, Hindered, no_socket, over_ssl, cancel_failure, shutting_down, Hindered-same, Goes,
}
use libslirc_old.Network.{NetworkService}
use libslirc_old.Connection.Stages.Progress.{live_removed}
use libslirc_old.Connection.Stages.Callbacks.{
  on_resolved-Goes, on_connected-Goes, on_handshake-Goes, on_read-Goes, on_written-Goes, Awaited,
}
use libslirc_old.Connection.Stages.Members.{connect-Goes, disconnect-Goes, do_send_raw-Goes}
use libslirc_old.Connection.Endpoint.Effects.{Configures, set_endpoint-Configures}
use libslirc_old.Connection.System.{
  Outcome, callback, Step, configures, connects, disconnects, sends, completes, network_changes,
  Steps, here, next, Reach,
}

module _ (grow : ℕ → ℕ → ℕ) (irc : ℕ) (cancel_fails : Impl → Bool) (ssl_support : Bool) where
  callback-Goes :
      (op : Operation) (r : Outcome op) (m : Machine)
      → Awaited grow irc cancel_fails op m
      → Goes cancel_fails m (callback grow irc cancel_fails ssl_support op r m).1
  callback-Goes (resolving host port) r m w = on_resolved-Goes grow irc cancel_fails r host port m w
  callback-Goes (connecting_to endpoint) r m w =
      on_connected-Goes grow irc cancel_fails r endpoint m w
  callback-Goes handshaking r m w = on_handshake-Goes grow irc cancel_fails r m w
  callback-Goes reading r m w = on_read-Goes grow irc cancel_fails r m w
  callback-Goes (writing bytes) r m w = on_written-Goes grow irc cancel_fails r bytes m w

  -- What holds of every connection: the trace, and that it goes on if nothing hinders it.
  abbrev IsSound : Machine → Type 0
  IsSound m = Traced m × (Hindered cancel_fails m ⊎ IsLive m)

  onward : {m n : Machine} → Goes cancel_fails m n → Hindered cancel_fails n ⊎ IsLive n
  onward {m} {n} g = elim g.going [
    | inl h ↦
        let a = g.keeps.leads in inl (Hindered-same a.same_socket a.same_ssl a.same_stopping h)
    | inr l ↦ inr l
  ]

  Goes-IsSound : {m n : Machine} → Goes cancel_fails m n → IsSound m → IsSound n
  Goes-IsSound g (t, w) = (g.keeps.leads.trace t, onward g)

  removed :
      (m : Machine) (before after : List Operation) (op : Operation)
      → m.operations ≡ before ++ op ∷ after
      → Hindered cancel_fails m ⊎ IsLive m
      → Awaited grow irc cancel_fails op (record m { operations = before ++ after })
  removed m before after op e (inl h) = inl (Hindered-same refl refl refl h)
  removed m before after op e (inr l) =
      inr (λ n.
        live_removed m.impl.curstate before after op n (ap (live m.impl.curstate) (sym e) ∙ l))

  configured-IsSound : (m n : Machine) → Configures m n → IsSound m → IsSound n
  configured-IsSound m n c (t, w) = (
    subst (λ es. Route disconnected es n.impl.curstate) (sym c.same_events)
        (subst (Route disconnected m.emitted) (sym c.same_state) t),
    elim c.at_rest [
      | inl same ↦ subst (λ k. Hindered cancel_fails k ⊎ IsLive k) (sym same) w
      | inr rest ↦ inr (ap (λ x. live x n.operations) rest)
    ],
  )

  changed_network :
      (m : Machine) (n : NetworkService)
      → (m.network.internal_service_stopping ≡ true → n.internal_service_stopping ≡ true)
      → Hindered cancel_fails m
      → Hindered cancel_fails (record m { network = n })
  changed_network m n keeps (no_socket h) = no_socket h
  changed_network m n keeps (over_ssl h) = over_ssl h
  changed_network m n keeps (cancel_failure c h) = cancel_failure c h
  changed_network m n keeps (shutting_down h) = shutting_down (keeps h)

  Step-IsSound :
      {m n : Machine} → Step grow irc cancel_fails ssl_support m n → IsSound m → IsSound n
  Step-IsSound (configures m endpoint new_port) s =
      configured-IsSound m _ (set_endpoint-Configures ssl_support endpoint new_port m) s
  Step-IsSound (connects m) s = Goes-IsSound (connect-Goes grow irc cancel_fails m s.1) s
  Step-IsSound (disconnects m) s = Goes-IsSound (disconnect-Goes grow irc cancel_fails m s.1) s
  Step-IsSound (sends m bytes) s =
      Goes-IsSound (do_send_raw-Goes grow irc cancel_fails bytes m s.1) s
  Step-IsSound (completes m before after op r e) s =
      let ended = record m { operations = before ++ after } in
      let w = removed m before after op e s.1 in
      let g = callback-Goes op r ended w in (g.keeps.leads.trace s.0, onward g)
  Step-IsSound (network_changes m n h) (t, w) =
      (t, elim w [ inl i ↦ inl (changed_network m n h i) | inr l ↦ inr l ])

  Steps-IsSound :
      {m n : Machine} → Steps grow irc cancel_fails ssl_support m n → IsSound m → IsSound n
  Steps-IsSound here s = s
  Steps-IsSound (next r step) s = Step-IsSound step (Steps-IsSound r s)

  Reach-IsSound : {m : Machine} → Reach grow irc cancel_fails ssl_support m → IsSound m
  Reach-IsSound (network, r) = Steps-IsSound r (Route-nil disconnected, inr refl)

  -- Whatever is called in whatever order, whatever Asio answers, and whatever is thrown: the events of a
  -- connection tell of its changes of state from disconnected to the state that it is in, each is one of
  -- the changes that are allowed, and each event is queued as `changed` before it is queued as the state.
  pub Reach-Traced : {m : Machine} → Reach grow irc cancel_fails ssl_support m → Traced m
  Reach-Traced r = (Reach-IsSound r).0

  -- Where nothing hinders a connection, it goes on.
  pub unhindered-IsLive :
      {m : Machine}
      → Reach grow irc cancel_fails ssl_support m
      → m.impl.socket ≡ true
      → m.impl.ssl ≡ false
      → ((c : Impl) → cancel_fails c ≡ false)
      → m.network.internal_service_stopping ≡ false
      → IsLive m
  unhindered-IsLive r socket plain cancels running = elim (Reach-IsSound r).1 [
    | inl (no_socket h) ↦ absurd (cc)
    | inl (over_ssl h) ↦ absurd (cc)
    | inl (cancel_failure c h) ↦ absurd (let e = cancels c in cc)
    | inl (shutting_down h) ↦ absurd (cc)
    | inr l ↦ l
  ]
