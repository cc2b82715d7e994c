-- ===== src/Connection/Stages/Progress.antt =====
-- src/modules/connection.cpp: what keeps a connection going.
use libslirc_old.Prelude.{
  ◌≡◌, refl, sym, ap, ◌∙◌, ◌⊎◌, inl, inr, Bool, true, false, List, [], ◌∷◌, ◌++◌, Option, none,
  some, arith, any, any-append,
}
use libslirc_old.Connection.Impl.{
  ConnectionState, disconnected, connecting, connected, disconnecting, is_state, Operation,
  resolving, connecting_to, handshaking, reading, writing, Impl, Machine,
}
use libslirc_old.Connection.Impl.Effects.{Leads, trans}

-- The state in which the callback of an operation of Asio takes the connection further.
abbrev pub serving : Operation → Option ConnectionState
serving (resolving host port) = some connecting
serving (connecting_to endpoint) = some connecting
serving handshaking = none
serving reading = some connected
serving (writing bytes) = none

abbrev pub serves : ConnectionState → Operation → Bool
serves s op = elim (serving op) [ none ↦ false | some t ↦ is_state s t ]

-- A connection that is not at rest waits for an operation whose callback will act.
abbrev pub live : ConnectionState → List Operation → Bool
live disconnected ops = true
live connecting ops = any (serves connecting) ops
live connected ops = any (serves connected) ops
live disconnecting ops = false

abbrev pub IsLive : Machine → Type 0
IsLive m = live m.impl.curstate m.operations ≡ true

-- The state and the operations under way that something leads to.
pub record Kept (m n : Machine) : Type 0 where
  pub state : ConnectionState
  pub ops : List Operation
  pub leads : Leads state ops m n

pub kept : {s : ConnectionState} {ops : List Operation} {m n : Machine} → Leads s ops m n → Kept m n
kept {s} {ops} a = record { state = s; ops = ops; leads = a }

nothing_serves : (op : Operation) → serves disconnecting op ≡ true → ⊥
nothing_serves (resolving host port) h = absurd (cc)
nothing_serves (connecting_to endpoint) h = absurd (cc)
nothing_serves handshaking h = absurd (cc)
nothing_serves reading h = absurd (cc)
nothing_serves (writing bytes) h = absurd (cc)

pub live_started :
    (s : ConnectionState) (ops : List Operation) (op : Operation)
    → serves s op ≡ true
    → live s (ops ++ op ∷ []) ≡ true
live_started disconnected ops op h = refl
live_started connecting ops op h = ground (arith, any-append (serves connecting) ops (op ∷ []))
live_started connected ops op h = ground (arith, any-append (serves connected) ops (op ∷ []))
live_started disconnecting ops op h = absurd (nothing_serves op h)

pub live_more :
    (s : ConnectionState) (ops : List Operation) (op : Operation)
    → live s ops ≡ true
    → live s (ops ++ op ∷ []) ≡ true
live_more disconnected ops op h = refl
live_more connecting ops op h = ground (arith, any-append (serves connecting) ops (op ∷ []))
live_more connected ops op h = ground (arith, any-append (serves connected) ops (op ∷ []))
live_more disconnecting ops op h = absurd (cc)

-- An operation that has ended, whose callback does not act.
pub live_removed :
    (s : ConnectionState) (before after : List Operation) (op : Operation)
    → serves s op ≡ false
    → live s (before ++ op ∷ after) ≡ true
    → live s (before ++ after) ≡ true
live_removed disconnected before after op n h = refl
live_removed connecting before after op n h = ground (
  arith,
  any-append (serves connecting) before (op ∷ after),
  any-append (serves connecting) before after,
)
live_removed connected before after op n h = ground (
  arith,
  any-append (serves connected) before (op ∷ after),
  any-append (serves connected) before after,
)
live_removed disconnecting before after op n h = absurd (cc)

module _ (cancel_fails : Impl → Bool) where
  -- What can keep a connection from going on: there is no plain socket, SSL, a socket that cannot be
  -- cancelled, or a service that is shutting down.
  pub data Hindered (m : Machine) : Type 0 where
    no_socket : m.impl.socket ≡ false → Hindered m
    over_ssl : m.impl.ssl ≡ true → Hindered m
    cancel_failure : (c : Impl) → cancel_fails c ≡ true → Hindered m
    shutting_down : m.network.internal_service_stopping ≡ true → Hindered m

  -- From one machine to another, which is live unless the first one is hindered.
  pub record Goes (m n : Machine) : Type 0 where
    pub keeps : Kept m n
    pub going : Hindered m ⊎ IsLive n

module _ {cancel_fails : Impl → Bool} where
  pub Hindered-same :
      {m n : Machine}
      → n.impl.socket ≡ m.impl.socket
      → n.impl.ssl ≡ m.impl.ssl
      → n.network.internal_service_stopping ≡ m.network.internal_service_stopping
      → Hindered cancel_fails m
      → Hindered cancel_fails n
  Hindered-same a b c (no_socket h) = no_socket (a ∙ h)
  Hindered-same a b c (over_ssl h) = over_ssl (b ∙ h)
  Hindered-same a b c (cancel_failure i h) = cancel_failure i h
  Hindered-same a b c (shutting_down h) = shutting_down (c ∙ h)

  pub goes :
      {s : ConnectionState} {ops : List Operation} {m n : Machine}
      → Leads s ops m n
      → live s ops ≡ true
      → Goes cancel_fails m n
  goes {s} {ops} {m} {n} a h = record {
    keeps = kept a;
    going = inr (ap (λ t. live t n.operations) a.state ∙ ap (live s) a.under_way ∙ h);
  }

  pub hindered :
      {s : ConnectionState} {ops : List Operation} {m n : Machine}
      → Leads s ops m n
      → Hindered cancel_fails m
      → Goes cancel_fails m n
  hindered a h = record { keeps = kept a; going = inl h }

  pub then-Goes :
      {s : ConnectionState} {ops : List Operation} {m n k : Machine}
      → Leads s ops m n
      → Goes cancel_fails n k
      → Goes cancel_fails m k
  then-Goes a g = record {
    keeps = kept (trans a g.keeps.leads);
    going = elim g.going [
      | inl h ↦ inl (Hindered-same (sym a.same_socket) (sym a.same_ssl) (sym a.same_stopping) h)
      | inr h ↦ inr h
    ];
  }

  pub still-Goes :
      {m n : Machine}
      → Leads m.impl.curstate m.operations m n
      → Hindered cancel_fails m ⊎ IsLive m
      → Goes cancel_fails m n
  still-Goes a (inl h) = hindered a h
  still-Goes a (inr h) = goes a h
