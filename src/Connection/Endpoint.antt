-- ===== src/Connection/Endpoint.antt =====
-- src/modules/connection.cpp, `set_endpoint`: the endpoint of a connection is taken apart. `unsigned` has
-- 32 bits and `long` 64, as on the platforms that the library is built for.
pub mod Laws
pub mod Formats
pub mod Tails
pub mod Bounds
pub mod Effects
mod Tests
use libslirc_old.Prelude.{
  ℕ, suc, ◌+◌, ◌-◌, ◌*◌, ◌%◌, ◌^◌, min, Bool, true, false, not, ◌&&◌, ◌||◌, List, [], ◌∷◌, ◌++◌,
  Option, none, some, ◌==◌, leb, if◌then◌else◌, length, take, drop, get_elem?, Exception, Result,
  ok, throw, already_connected, logic_error,
}
use libslirc_old.Connection.Text.{codes, starts_with, find_from, find_word, find_last, shifted}
use libslirc_old.Network.{Service, NetworkService, get_service}
use libslirc_old.Connection.Impl.{disconnected, is_state, Impl, Machine, Done}

abbrev pub is_digit : ℕ → Bool
is_digit c = leb b'0' c && leb c b'9'

-- `"/?#"`
abbrev pub ends_server : ℕ → Bool
ends_server c = c == b'/' || c == b'?' || c == b'#'

-- The number that a text begins with.
abbrev pub value_from : ℕ → List ℕ → ℕ
value_from n [] = n
value_from n (c ∷ s) =
    let more = value_from (n * 10 + (c - b'0')) s in if is_digit c then more else n

-- `strtol` of a text that begins with a digit, or with the end; it stops at the greatest `long`.
unfoldable pub strtol : List ℕ → ℕ
strtol s = min (value_from 0 s) (2 ^ 63 - 1)

abbrev pub equals : List ℕ → List ℕ → Bool
equals s t = starts_with s t && length s == length t

-- Whether a protocol uses SSL, none for an unknown one.
pub protocol_ssl : List ℕ → Option Bool
protocol_ssl proto =
    if equals proto (codes "irc") || equals proto (codes "tcp")
    then some false
    else if equals proto (codes "ircs") || equals proto (codes "ssl")
    then some true
    else none

abbrev pub default_port : Bool → ℕ
default_port use_ssl = if use_ssl then 6697 else 6667

abbrev pub is_colon : Option ℕ → Bool
is_colon none = false
is_colon (some c) = c == b':'

-- The port in the endpoint if there is one, and where the server ends.
pub port_at : List ℕ → ℕ → ℕ → ℕ → Option ℕ → ℕ × ℕ
port_at endpoint begin end port none = (port, end)
port_at endpoint begin end port (some pos) =
    if leb begin pos && is_colon (get_elem? endpoint pos)
    then (strtol (drop (suc pos) endpoint) % 2 ^ 32, pos)
    else (port, end)

pub record Parsed : Type 0 where
  pub server : List ℕ
  pub server_port : ℕ
  pub use_ssl : Bool

-- From `set default port` on: none for `set_invalid`.
pub parse_server : List ℕ → ℕ → Bool → ℕ → ℕ → Option Parsed
unfolding port_at
parse_server endpoint new_port use_ssl begin end =
    let (use_port, server_end) =
      port_at endpoint begin end (default_port use_ssl)
        (find_last (λ c. not (is_digit c)) end endpoint) in
    if leb server_end begin
    then none
    else some (record {
      server = take (server_end - begin) (drop begin endpoint);
      server_port = if new_port == 0 then use_port else new_port;
      use_ssl = use_ssl;
    })

-- The position, or what stands for `npos`.
abbrev pub or_else : ℕ → Option ℕ → ℕ
or_else n none = n
or_else n (some i) = i

-- Behind the authentication info, if there is some.
abbrev pub behind_auth : ℕ → Option ℕ → ℕ
behind_auth begin none = begin
behind_auth begin (some pos) = if leb begin pos then pos + 1 else begin

pub parse_url : List ℕ → ℕ → ℕ → Option Bool → Option Parsed
unfolding parse_server
parse_url endpoint new_port pos none = none
parse_url endpoint new_port pos (some use_ssl) =
    let begin = pos + 3 in
    let end = or_else (length endpoint) (find_from ends_server begin endpoint) in
    parse_server endpoint new_port use_ssl
      (behind_auth begin (find_last (λ c. c == b'@') end endpoint)) end

pub parse_endpoint : List ℕ → ℕ → Option Parsed
unfolding parse_server parse_url
parse_endpoint endpoint new_port = elim (find_word (codes "://") endpoint) [
  | none ↦ parse_server endpoint new_port false 0 (length endpoint)
  | some pos ↦ parse_url endpoint new_port pos (protocol_ssl (take pos endpoint))
]

abbrev pub set_invalid : Impl → Impl
set_invalid c = record c { hostname = codes "0.0.0.0"; port = 0; ssl = false }

-- A new socket of the kind that is asked for, or the exception of the network service.
abbrev with_socket : Bool → Machine → Result Service × NetworkService → Done
with_socket use_ssl m (throw e, n) = (some e, record m { network = n })
with_socket true m (ok service, n) =
    (none, record m { network = n; impl = record (m.impl) { ssl = true; socket = false } })
with_socket false m (ok service, n) =
    (none, record m { network = n; impl = record (m.impl) { ssl = false; socket = true } })

-- The end of `set_endpoint`; `ssl_support` is whether the library is built with SSL.
use_parsed : Bool → Machine → Option Parsed → Done
use_parsed ssl_support m none = (none, record m { impl = set_invalid m.impl })
use_parsed ssl_support m (some p) =
    let named = record m { impl = record (m.impl) { hostname = p.server; port = p.server_port } } in
    if p.use_ssl && not ssl_support
    then (some logic_error, named)
    else with_socket p.use_ssl
        (if p.use_ssl then named else record named { impl = record (named.impl) { ssl = false } })
        (get_service m.network)

pub set_endpoint : Bool → List ℕ → ℕ → Machine → Done
unfolding use_parsed
set_endpoint ssl_support endpoint new_port m =
    if not (is_state m.impl.curstate disconnected)
    then (some already_connected, m)
    else use_parsed ssl_support m (parse_endpoint endpoint new_port)
