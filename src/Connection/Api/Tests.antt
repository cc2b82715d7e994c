-- ===== src/Connection/Api/Tests.antt =====
-- include/slirc/apis/connection.hpp: small calls.
use libslirc_old.Prelude.{ℕ, ◌≡◌, refl, Bool, false, [], ◌∷◌, none, arith}
use libslirc_old.Network.{new_network_service}
use libslirc_old.Connection.Text.{codes}
use libslirc_old.Connection.Impl.{connecting, resolving, Impl, Machine}
use libslirc_old.Connection.Endpoint.{strtol}
use libslirc_old.Connection.System.{new_machine}
use libslirc_old.Connection.Api.{connect_to}
use libslirc_old.Connection.Api.Laws.{connect_to_lem}

abbrev grow : ℕ → ℕ → ℕ
grow capacity needed = needed

abbrev cancels : Impl → Bool
cancels c = false

abbrev unused : Machine
unused = new_machine new_network_service

connect_to_lem_example :
    let d = connect_to grow 1 cancels false (codes "irc.a.org:6668") 0 unused in
    (d.0 ≡ none)
    × (d.1.impl.curstate ≡ connecting)
    × (d.1.operations ≡ resolving (codes "irc.a.org") 6668 ∷ [])
unfolding strtol
connect_to_lem_example =
    connect_to_lem grow 1 cancels false (codes "irc.a.org") (codes "6668") 0 unused refl refl
      (omega arith) refl refl
