-- ===== src/Connection/System/Tests.antt =====
-- src/modules/connection.cpp: small runs of a connection.
use libslirc_old.Prelude.{
  [], ◌∷◌, List, ℕ, ◌≡◌, ◌≢◌, refl, ap, ◌∙◌, inl, inr, Bool, true, false, none, some, throw,
  logic_error, arith,
}
use libslirc_old.Network.{get_service, new_network_service}
use libslirc_old.Network.Lifetime.{get_service-stopping}
use libslirc_old.Connection.Text.{codes}
use libslirc_old.Connection.Impl.{
  connected, connecting, ErrorCode, errored, Impl, new_impl, Machine, Done,
}
use libslirc_old.Connection.Impl.Trace.{Traced}
use libslirc_old.Connection.Stages.{connect, disconnect, on_handshake}
use libslirc_old.Connection.Stages.Progress.{IsLive, Goes, live}
use libslirc_old.Connection.Stages.Members.{connect-Goes}
use libslirc_old.Connection.Endpoint.{strtol, set_endpoint}
use libslirc_old.Connection.Endpoint.Formats.{plain_endpoint}
use libslirc_old.Connection.Endpoint.Effects.{set_endpoint-plain}
use libslirc_old.Connection.Impl.Received.{lines_of}
use libslirc_old.Connection.Stages.Reads.{reads, reads_lem}
use libslirc_old.Connection.System
use libslirc_old.Connection.System.{configures, connects, disconnects, Reach, new_machine}
use libslirc_old.Connection.System.Progress.{Reach-Traced}
use libslirc_old.Connection.System.Live.{Reach-IsLive}
use libslirc_old.Connection.System.Stranded.{
  here, next, CannotGoOn, handshake-strands, shutdown-strands,
}
use libslirc_old.Connection.System.Stuck.{IsStuck, disconnect-IsStuck}

abbrev grow : ℕ → ℕ → ℕ
grow capacity needed = needed

abbrev cancels : Impl → Bool
cancels c = false

abbrev unused : Machine
unused = new_machine new_network_service

abbrev with_endpoint : Machine
with_endpoint = (set_endpoint false (codes "irc.a.org:6668") 0 unused).1

abbrev on_the_way : Machine
on_the_way = (connect grow 1 cancels with_endpoint).1

abbrev run : Reach grow 1 cancels false on_the_way
run = (
  new_network_service,
  System.Steps.next
      (System.Steps.next System.Steps.here (configures unused (codes "irc.a.org:6668") 0))
      (connects with_endpoint),
)

Reach-Traced_example : Traced (disconnect grow 1 cancels on_the_way).1
Reach-Traced_example =
    Reach-Traced grow 1 cancels false
      (new_network_service, System.Steps.next run.1 (disconnects on_the_way))

configured : set_endpoint false (codes "irc.a.org:6668") 0 unused ≡ (
  none,
  record unused {
    network = (get_service new_network_service).1;
    impl = record new_impl {
      hostname = codes "irc.a.org";
      port = 6668;
      ssl = false;
      socket = true;
    };
  },
)
unfolding strtol
configured =
    set_endpoint-plain false (codes "irc.a.org:6668") (codes "irc.a.org") 0 6668 unused refl
      (plain_endpoint (codes "irc.a.org") (codes "6668") 0 (omega arith) refl refl) refl

attempt : Goes cancels with_endpoint on_the_way
attempt =
    connect-Goes grow 1 cancels with_endpoint
      (inr (ap (λ (d : Done). live d.1.impl.curstate d.1.operations) configured))

Reach-IsLive_example : IsLive on_the_way
Reach-IsLive_example =
    Reach-IsLive grow 1 cancels false run ((tt, refl), refl)
      (attempt.keeps.leads.same_socket ∙ ap (λ (d : Done). d.1.impl.socket) configured)
      (attempt.keeps.leads.same_ssl ∙ ap (λ (d : Done). d.1.impl.ssl) configured)
      (attempt.keeps.leads.same_stopping
        ∙ ap (λ (d : Done). d.1.network.internal_service_stopping) configured
        ∙ get_service-stopping new_network_service)

-- A connection that was told to connect, and has no endpoint.
abbrev without_endpoint : Machine
without_endpoint = record unused { impl = record new_impl { curstate = connecting } }

disconnect-IsStuck_example :
    ((disconnect grow 1 cancels without_endpoint).0 ≢ none)
    × IsStuck grow 1 cancels false
        (connect grow 1 cancels (disconnect grow 1 cancels without_endpoint).1).1
disconnect-IsStuck_example =
    disconnect-IsStuck grow 1 cancels false without_endpoint refl (inl (refl, refl)) (
      System.Steps.next System.Steps.here (connects (disconnect grow 1 cancels without_endpoint).1))

abbrev established : Machine
established = record unused { impl = record new_impl { curstate = connected } }

-- "a\r", "\nb" and "\nc".
abbrev chunks : List (List ℕ)
chunks = (97 ∷ 13 ∷ []) ∷ (10 ∷ 98 ∷ []) ∷ (10 ∷ 99 ∷ []) ∷ []

reads_lem_example :
    let n = reads grow 1 cancels chunks established in
    (lines_of n.emitted ≡ (97 ∷ []) ∷ (98 ∷ []) ∷ [])
    × (n.impl.curstate ≡ connected)
    × (n.impl.buffers.recv_buffer ≡ 99 ∷ [])
reads_lem_example = reads_lem grow 1 cancels chunks established refl refl

-- A connection over SSL whose handshake is the only thing under way.
abbrev shaking : Machine
shaking = record unused { impl = record new_impl { curstate = connecting; ssl = true } }

abbrev refused : ErrorCode
refused = record { message = codes "no certificate"; code = 1 }

handshake-strands_example :
    CannotGoOn grow 1 cancels true
      (connect grow 1 cancels (on_handshake grow 1 cancels (errored refused) shaking).1).1
handshake-strands_example =
    handshake-strands grow 1 cancels true shaking _ refused refl refl
      (next here (connects (on_handshake grow 1 cancels (errored refused) shaking).1) refl)

-- The network service is shutting down.
abbrev late : Machine
late = record unused {
  impl = record new_impl { socket = true };
  network = record new_network_service { internal_service_stopping = true };
}

stopping : (get_service late.network).0 ≡ throw logic_error
unfolding get_service
stopping = refl

shutdown-strands_example :
    ((connect grow 1 cancels late).0 ≡ some logic_error)
    × CannotGoOn grow 1 cancels true (connect grow 1 cancels (connect grow 1 cancels late).1).1
shutdown-strands_example =
    shutdown-strands grow 1 cancels true late _ logic_error refl refl stopping
      (next here (connects (connect grow 1 cancels late).1) refl)
