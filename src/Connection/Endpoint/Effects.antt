-- ===== src/Connection/Endpoint/Effects.antt =====
-- src/modules/connection.cpp, `set_endpoint`: what it leaves, with every exception.
use libslirc_old.Prelude.{
  ℕ, ◌≡◌, ◌≢◌, refl, ap, ◌∙◌, ◌⊎◌, inl, inr, Bool, true, false, not, List, Option, none, some,
  Result, ok, throw, Exception, already_connected,
}
use libslirc_old.Network.{Service, NetworkService, get_service}
use libslirc_old.Connection.Impl.{ConnectionState, disconnected, is_state, Machine, Done}
use libslirc_old.Network.Lifetime.{get_service-throw}
use libslirc_old.Connection.Endpoint.Laws.{parsed}
use libslirc_old.Connection.Stages.Attempts.{by_test}
use libslirc_old.Connection.Stages.Ignored.{if_true, if_false}
use libslirc_old.Connection.Endpoint.{Parsed, parse_endpoint, with_socket, use_parsed, set_endpoint}

-- The state and the events are as before, and so is all else if the connection was not at rest.
pub record Configures (m n : Machine) : Type 0 where
  pub same_state : n.impl.curstate ≡ m.impl.curstate
  pub same_events : n.emitted ≡ m.emitted
  pub at_rest : (n ≡ m) ⊎ (n.impl.curstate ≡ disconnected)

with_socket-Configures :
    (use_ssl : Bool) (m : Machine) (r : Result Service × NetworkService)
    → let n = (with_socket use_ssl m r).1 in
      (n.impl.curstate ≡ m.impl.curstate) × (n.emitted ≡ m.emitted)
with_socket-Configures use_ssl m (throw e, n) = (refl, refl)
with_socket-Configures true m (ok service, n) = (refl, refl)
with_socket-Configures false m (ok service, n) = (refl, refl)

abbrev named : List ℕ → ℕ → Machine → Machine
named server port m = record m { impl = record (m.impl) { hostname = server; port = port } }

abbrev plain : List ℕ → ℕ → Machine → Machine
plain server port m = record m {
  impl = record (m.impl) { hostname = server; port = port; ssl = false };
}

parsed-Configures :
    (ssl_support use_ssl : Bool) (server : List ℕ) (port : ℕ) (m : Machine)
    → let p : Parsed = record { server = server; server_port = port; use_ssl = use_ssl } in
      let n = (use_parsed ssl_support m (some p)).1 in
      (n.impl.curstate ≡ m.impl.curstate) × (n.emitted ≡ m.emitted)
unfolding use_parsed
parsed-Configures true true server port m =
    with_socket-Configures true (named server port m) (get_service m.network)
parsed-Configures true false server port m =
    with_socket-Configures false (plain server port m) (get_service m.network)
parsed-Configures false true server port m = (refl, refl)
parsed-Configures false false server port m =
    with_socket-Configures false (plain server port m) (get_service m.network)

use_parsed-Configures :
    (ssl_support : Bool) (m : Machine) (p : Option Parsed)
    → let n = (use_parsed ssl_support m p).1 in
      (n.impl.curstate ≡ m.impl.curstate) × (n.emitted ≡ m.emitted)
unfolding use_parsed
use_parsed-Configures ssl_support m none = (refl, refl)
use_parsed-Configures ssl_support m (some p) =
    parsed-Configures ssl_support p.use_ssl p.server p.server_port m

is_disconnected : (s : ConnectionState) → not (is_state s disconnected) ≡ false → s ≡ disconnected
is_disconnected disconnected h = refl
is_disconnected _ h = absurd (cc)

pub set_endpoint-Configures :
    (ssl_support : Bool) (endpoint : List ℕ) (new_port : ℕ) (m : Machine)
    → Configures m (set_endpoint ssl_support endpoint new_port m).1
unfolding set_endpoint
set_endpoint-Configures ssl_support endpoint new_port m =
    by_test (λ (d : Done). Configures m d.1) (not (is_state m.impl.curstate disconnected)) _ _
      (λ e. record { same_state = refl; same_events = refl; at_rest = inl refl })
      (λ e.
        let (same, events) =
          use_parsed-Configures ssl_support m (parse_endpoint endpoint new_port) in
        record {
          same_state = same;
          same_events = events;
          at_rest = inr (same ∙ is_disconnected m.impl.curstate e);
        })

pub set_endpoint-refused :
    (ssl_support : Bool) (endpoint : List ℕ) (new_port : ℕ) (m : Machine)
    → is_state m.impl.curstate disconnected ≡ false
    → set_endpoint ssl_support endpoint new_port m ≡ (some already_connected, m)
unfolding set_endpoint
set_endpoint-refused ssl_support endpoint new_port m e = if_true _ _ _ (ap not e)

-- The service that is given while it is not shutting down.
served_network :
    (m : Machine) (server : List ℕ) (port : ℕ) (r : Result Service × NetworkService)
    → ((e : Exception) → r.0 ≢ throw e)
    → (with_socket false (plain server port m) r) ≡ (
      none,
      record m {
        network = r.1;
        impl = record (m.impl) { hostname = server; port = port; ssl = false; socket = true };
      },
    )
served_network m server port (throw e, n) given = absurd (given e refl)
served_network m server port (ok service, n) given = refl

-- An endpoint without SSL, while the network service is not shutting down.
pub set_endpoint-plain :
    (ssl_support : Bool) (endpoint server : List ℕ) (new_port port : ℕ) (m : Machine)
    → m.impl.curstate ≡ disconnected
    → parse_endpoint endpoint new_port ≡ parsed server port false
    → m.network.internal_service_stopping ≡ false
    → set_endpoint ssl_support endpoint new_port m ≡ (
      none,
      record m {
        network = (get_service m.network).1;
        impl = record (m.impl) { hostname = server; port = port; ssl = false; socket = true };
      },
    )
unfolding set_endpoint use_parsed
set_endpoint-plain ssl_support endpoint server new_port port m rest meaning running =
    if_false _ _ _ (ap (λ s. not (is_state s disconnected)) rest)
    ∙ ap (use_parsed ssl_support m) meaning
    ∙ served_network m server port (get_service m.network)
        (λ e h. let stopping = get_service-throw m.network e h in absurd (cc))
