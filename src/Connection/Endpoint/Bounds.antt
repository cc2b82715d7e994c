-- ===== src/Connection/Endpoint/Bounds.antt =====
-- src/modules/connection.cpp, `set_endpoint`: what a parsed endpoint is bounded by.
use libslirc_old.Prelude.{
  ℕ, suc, ◌+◌, ◌-◌, ◌^◌, ◌≤◌, ◌<◌, ◌≡◌, refl, sym, ap, Bool, true, false, not, List, Option, none,
  some, arith, ◌==◌, leb, if◌then◌else◌, length, take, drop, subst, zero, length-take, length-drop,
  some-injective, [], ◌∷◌,
}
use libslirc_old.Connection.Text.{
  codes, find_if, find_from, find_word, find_last_if, find_last, last_of, shifted,
}
use libslirc_old.Connection.Endpoint.Formats.{at_protocol}
use libslirc_old.Connection.Endpoint.{
  is_digit, ends_server, protocol_ssl, default_port, behind_auth, or_else, port_at, Parsed,
  parse_server, parse_url, parse_endpoint,
}

-- The server is a part of the endpoint that is not empty, and the port has 32 bits.
pub record IsBounded (endpoint : List ℕ) (p : Parsed) : Type 0 where
  pub position : ℕ
  pub part : p.server ≡ take (length p.server) (drop position endpoint)
  pub not_empty : 0 < length p.server
  pub inside : position + length p.server ≤ length endpoint
  pub port_bits : p.server_port < 2 ^ 32

-- A position, if there is one, is less than a number.
abbrev Within : ℕ → Option ℕ → Type 0
Within n none = Unit
Within n (some i) = i < n

last_of-Within :
    (n : ℕ) (fits : Bool) (found : Option ℕ) → Within n found → Within (suc n) (last_of fits found)
last_of-Within n fits (some j) h = omega arith
last_of-Within n true none h = omega arith
last_of-Within n false none h = tt

find_last_if-Within : (p : ℕ → Bool) (s : List ℕ) → Within (length s) (find_last_if p s)
find_last_if-Within p [] = tt
find_last_if-Within p (c ∷ s) =
    last_of-Within (length s) (p c) (find_last_if p s) (find_last_if-Within p s)

Within-mono : (m n : ℕ) (found : Option ℕ) → m ≤ n → Within m found → Within n found
Within-mono m n none h w = tt
Within-mono m n (some i) h w = omega arith

take_bound : (n : ℕ) (s : List ℕ) → length (take n s) ≤ n
take_bound zero s = omega arith
take_bound (suc n) [] = omega arith
take_bound (suc n) (c ∷ s) = omega (arith, take_bound n s)

find_last-Within : (p : ℕ → Bool) (n : ℕ) (s : List ℕ) → Within (suc n) (find_last p n s)
unfolding find_last
find_last-Within p n s =
    Within-mono _ _ (find_last p n s) (take_bound (suc n) s)
      (find_last_if-Within p (take (suc n) s))

shifted-Within :
    (n pos : ℕ) (found : Option ℕ) → Within n found → Within (pos + n) (shifted pos found)
shifted-Within n pos none w = tt
shifted-Within n pos (some i) w = omega arith

first-Within :
    (n : ℕ) (fits : Bool) (found : Option ℕ)
    → Within n found
    → Within (suc n) (if fits then some 0 else shifted 1 found)
first-Within n true found w = omega arith
first-Within n false found w =
    Within-mono _ _ (shifted 1 found) (omega arith) (shifted-Within n 1 found w)

find_if-Within : (p : ℕ → Bool) (s : List ℕ) → Within (length s) (find_if p s)
find_if-Within p [] = tt
find_if-Within p (c ∷ s) = first-Within (length s) (p c) (find_if p s) (find_if-Within p s)

-- The position, or the end of the text.
position_bound :
    (pos : ℕ) (s : List ℕ) (found : Option ℕ)
    → Within (length (drop pos s)) found
    → or_else (length s) (shifted pos found) ≤ length s
position_bound pos s none w = omega arith
position_bound pos s (some i) w = omega (arith, length-drop pos s)

server_end_bound :
    (pos : ℕ) (s : List ℕ) → or_else (length s) (find_from ends_server pos s) ≤ length s
unfolding find_from
server_end_bound pos s =
    position_bound pos s (find_if ends_server (drop pos s))
      (find_if-Within ends_server (drop pos s))

port_at_bound :
    (endpoint : List ℕ) (begin end port : ℕ) (found : Option ℕ)
    → port < 2 ^ 32
    → Within (suc end) found
    → let (use_port, server_end) = port_at endpoint begin end port found in
      (use_port < 2 ^ 32) × (server_end ≤ end)
unfolding port_at
port_at_bound endpoint begin end port none h w = (h, omega arith)
port_at_bound endpoint begin end port (some pos) h w = ground arith

default_port_bound : (use_ssl : Bool) → default_port use_ssl < 2 ^ 32
default_port_bound true = omega arith
default_port_bound false = omega arith

-- The end of `parse_server`.
part-IsBounded :
    (endpoint : List ℕ) (begin server_end port : ℕ) (use_ssl : Bool)
    → port < 2 ^ 32
    → begin < server_end
    → server_end ≤ length endpoint
    → IsBounded endpoint (record {
      server = take (server_end - begin) (drop begin endpoint);
      server_port = port;
      use_ssl = use_ssl;
    })
part-IsBounded endpoint begin server_end port use_ssl small long h =
    let size : length (take (server_end - begin) (drop begin endpoint)) ≡ server_end - begin =
      length-take (server_end - begin) (drop begin endpoint)
        (omega (arith, length-drop begin endpoint)) in
    record {
      position = begin;
      part = ap (λ n. take n (drop begin endpoint)) (sym size);
      not_empty = omega (arith, size);
      inside = omega (arith, size);
      port_bits = small;
    }

behind_guard :
    (guard : Bool) (result : Option Parsed) {p : Parsed}
    → (if guard then none else result) ≡ some p
    → (guard ≡ false) × (result ≡ some p)
behind_guard true result e = absurd (cc)
behind_guard false result e = (refl, e)

server-IsBounded :
    (endpoint : List ℕ) (new_port : ℕ) (use_ssl : Bool) (begin end : ℕ) {p : Parsed}
    → new_port < 2 ^ 32
    → end ≤ length endpoint
    → parse_server endpoint new_port use_ssl begin end ≡ some p
    → IsBounded endpoint p
unfolding parse_server
server-IsBounded endpoint new_port use_ssl begin end {p} h e r =
    let found = find_last (λ c. not (is_digit c)) end endpoint in
    let (use_port, server_end) = port_at endpoint begin end (default_port use_ssl) found in
    let (port_small, end_small) =
      port_at_bound endpoint begin end (default_port use_ssl) found (default_port_bound use_ssl)
        (find_last-Within (λ c. not (is_digit c)) end endpoint) in
    let (long, same) = behind_guard (leb server_end begin) _ r in
    subst (IsBounded endpoint) (some-injective _ _ same) (
      part-IsBounded endpoint begin server_end (if new_port == 0 then use_port else new_port)
        use_ssl (ground arith) (ground arith) (omega arith))

url-IsBounded :
    (endpoint : List ℕ) (new_port pos : ℕ) (known : Option Bool) {p : Parsed}
    → new_port < 2 ^ 32
    → parse_url endpoint new_port pos known ≡ some p
    → IsBounded endpoint p
unfolding parse_url
url-IsBounded endpoint new_port pos none h r = absurd (cc)
url-IsBounded endpoint new_port pos (some use_ssl) h r =
    let end = or_else (length endpoint) (find_from ends_server (pos + 3) endpoint) in
    server-IsBounded endpoint new_port use_ssl
      (behind_auth (pos + 3) (find_last (λ c. c == b'@') end endpoint)) end h
      (server_end_bound (pos + 3) endpoint) r

protocol-IsBounded :
    (endpoint : List ℕ) (new_port : ℕ) (found : Option ℕ) {p : Parsed}
    → new_port < 2 ^ 32
    → at_protocol endpoint new_port found ≡ some p
    → IsBounded endpoint p
protocol-IsBounded endpoint new_port none h r =
    server-IsBounded endpoint new_port false 0 (length endpoint) h (omega arith) r
protocol-IsBounded endpoint new_port (some pos) h r =
    url-IsBounded endpoint new_port pos (protocol_ssl (take pos endpoint)) h r

-- What an endpoint means, if it means something, is a host name that is a part of it and is not empty,
-- and a port of 32 bits, if the port that is passed has 32 bits.
pub parse_endpoint-IsBounded :
    (endpoint : List ℕ) (new_port : ℕ) {p : Parsed}
    → new_port < 2 ^ 32
    → parse_endpoint endpoint new_port ≡ some p
    → IsBounded endpoint p
unfolding parse_endpoint
parse_endpoint-IsBounded endpoint new_port h r =
    protocol-IsBounded endpoint new_port (find_word (codes "://") endpoint) h r
