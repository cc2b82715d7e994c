-- ===== src/Connection/Endpoint/Laws.antt =====
-- src/modules/connection.cpp, `set_endpoint`: endpoints that are put together from their parts.
use libslirc_old.Prelude.{
  ℕ, suc, ◌+◌, ◌-◌, ◌%◌, ◌^◌, ◌≤◌, ◌<◌, ◌≡◌, refl, sym, ap, ◌∙◌, inl, inr, Bool, true, false, not,
  List, [], ◌∷◌, ◌++◌, Option, some, arith, ◌==◌, if◌then◌else◌, length, take, drop, any,
  Bool-cases, length-append, append_assoc, drop-append, take-append, subst,
}
use libslirc_old.Connection.Text.{codes, find_last, find_last_if}
use libslirc_old.Connection.Text.Laws.{
  find_last_if-append, take_beyond, get_elem?-append, starts_with-eq,
}
use libslirc_old.Connection.Endpoint.{
  is_digit, equals, strtol, protocol_ssl, default_port, port_at, Parsed, parse_server,
}

abbrev pub is_other : ℕ → Bool
is_other c = not (is_digit c)

-- The port that is used: the argument if it is not 0.
abbrev pub chosen : ℕ → ℕ → ℕ
chosen new_port port = if new_port == 0 then port else new_port

abbrev pub parsed : List ℕ → ℕ → Bool → Option Parsed
parsed server port use_ssl =
    some (record { server = server; server_port = port; use_ssl = use_ssl })

drop_behind : (s : List ℕ) (c : ℕ) (t : List ℕ) → drop (suc (length s)) (s ++ c ∷ t) ≡ t
drop_behind [] c t = refl
drop_behind (d ∷ s) c t = drop_behind s c t

-- What follows from the port and the end that `port_at` finds.
pub served :
    (endpoint : List ℕ) (new_port : ℕ) (use_ssl : Bool) (begin end port server_end : ℕ)
    → port_at endpoint begin end (default_port use_ssl) (find_last is_other end endpoint)
      ≡ (port, server_end)
    → begin < server_end
    → parse_server endpoint new_port use_ssl begin end
      ≡ parsed (take (server_end - begin) (drop begin endpoint)) (chosen new_port port) use_ssl
unfolding parse_server
served endpoint new_port use_ssl begin end port server_end e h = ground (arith, e)

-- The part between two positions.
pub between :
    (before server behind : List ℕ)
    → take
        (length before + length server - length before)
        (drop (length before) (before ++ (server ++ behind)))
      ≡ server
between before server behind =
    ap (λ n. take n (drop (length before) (before ++ (server ++ behind)))) (omega arith)
    ∙ ap (take (length server)) (drop-append before (server ++ behind))
    ∙ take-append server behind

pub find_last_all : (p : ℕ → Bool) (s : List ℕ) → find_last p (length s) s ≡ find_last_if p s
unfolding find_last
find_last_all p s = ap (find_last_if p) (take_beyond (suc (length s)) s (omega arith))

-- The port behind a colon.
port_behind :
    (front digits : List ℕ) (begin port : ℕ)
    → begin ≤ length front
    → any is_other digits ≡ false
    → let endpoint = front ++ b':' ∷ digits in
      port_at endpoint begin (length endpoint) port (find_last is_other (length endpoint) endpoint)
      ≡ (strtol digits % 2 ^ 32, length front)
unfolding port_at
port_behind front digits begin port h d =
    let endpoint = front ++ b':' ∷ digits in
    let found : find_last is_other (length endpoint) endpoint ≡ some (length front) =
      find_last_all is_other endpoint ∙ find_last_if-append is_other front b':' digits refl d in
    let rest : drop (suc (length front)) endpoint ≡ digits = drop_behind front b':' digits in
    ap (port_at endpoint begin (length endpoint) port) found
    ∙ ground (arith, get_elem?-append front b':' digits, rest)

-- A server with a port, behind a part that is done with, at the end of the endpoint.
pub server_with_port :
    (before host digits : List ℕ) (new_port : ℕ) (use_ssl : Bool)
    → 0 < length host
    → any is_other digits ≡ false
    → let endpoint = before ++ (host ++ b':' ∷ digits) in
      parse_server endpoint new_port use_ssl (length before) (length endpoint)
      ≡ parsed host (chosen new_port (strtol digits % 2 ^ 32)) use_ssl
server_with_port before host digits new_port use_ssl h d =
    let endpoint = before ++ (host ++ b':' ∷ digits) in
    let same : (before ++ host) ++ b':' ∷ digits ≡ endpoint =
      append_assoc before host (b':' ∷ digits) in
    let size : length (before ++ host) ≡ length before + length host = length-append before host in
    let found : port_at endpoint (length before) (length endpoint) (default_port use_ssl)
          (find_last is_other (length endpoint) endpoint)
        ≡ (strtol digits % 2 ^ 32, length before + length host) =
      subst
        (λ l.
          port_at l (length before) (length l) (default_port use_ssl)
            (find_last is_other (length l) l)
          ≡ (strtol digits % 2 ^ 32, length before + length host))
        same
        (port_behind (before ++ host) digits (length before) (default_port use_ssl)
            (omega (arith, size)) d
          ∙ ap (λ n. (strtol digits % 2 ^ 32, n)) size) in
    served endpoint new_port use_ssl (length before) (length endpoint) (strtol digits % 2 ^ 32)
      (length before + length host) found (omega arith)
    ∙ ap (λ l. parsed l (chosen new_port (strtol digits % 2 ^ 32)) use_ssl)
        (between before host (b':' ∷ digits))

-- What no digit is.
abbrev pub NoDigit : (ℕ → Bool) → Type 0
NoDigit p = (c : ℕ) → is_digit c ≡ true → p c ≡ false

pub any_digits : (p : ℕ → Bool) (s : List ℕ) → NoDigit p → any is_other s ≡ false → any p s ≡ false
any_digits p [] n h = refl
any_digits p (c ∷ s) n h =
    let first : p c ≡ false = n c (ground arith) in ground (arith, any_digits p s n)

equals-subst :
    (P : List ℕ → Type 0) (proto word : List ℕ) → equals proto word ≡ true → P word → P proto
equals-subst P proto word e h =
    subst P (sym (starts_with-eq proto word (ground arith) (ground arith))) h

-- What holds of the four protocols holds of every known one.
pub known_protocol :
    (P : List ℕ → Type 0)
    → P (codes "irc") × P (codes "tcp") × P (codes "ircs") × P (codes "ssl")
    → (proto : List ℕ) {use_ssl : Bool} → protocol_ssl proto ≡ some use_ssl
    → P proto
unfolding protocol_ssl
known_protocol P (irc, tcp, ircs, ssl) proto {use_ssl} h =
    elim (Bool-cases (equals proto (codes "irc"))) [
      | inl e ↦ equals-subst P proto (codes "irc") e irc
      | inr n ↦ elim (Bool-cases (equals proto (codes "tcp"))) [
        | inl e ↦ equals-subst P proto (codes "tcp") e tcp
        | inr n2 ↦ elim (Bool-cases (equals proto (codes "ircs"))) [
          | inl e ↦ equals-subst P proto (codes "ircs") e ircs
          | inr n3 ↦ elim (Bool-cases (equals proto (codes "ssl"))) [
            | inl e ↦ equals-subst P proto (codes "ssl") e ssl
            | inr n4 ↦ absurd (ground arith)
          ]
        ]
      ]
    ]

-- What the searches up to a position see.
pub take-position :
    (s : List ℕ) (c : ℕ) (t : List ℕ) → take (suc (length s)) (s ++ c ∷ t) ≡ s ++ c ∷ []
take-position [] c t = refl
take-position (d ∷ s) c t = ap (◌∷◌ d) (take-position s c t)

-- A character at the end of the server that is neither a digit nor a colon hides the port.
pub port_hidden :
    (front tail : List ℕ) (c begin port : ℕ)
    → is_digit c ≡ false
    → (c == b':') ≡ false
    → let endpoint = front ++ c ∷ tail in
      port_at endpoint begin (length front) port (find_last is_other (length front) endpoint)
      ≡ (port, length front)
unfolding port_at find_last
port_hidden front tail c begin port d m =
    let endpoint = front ++ c ∷ tail in
    let found : find_last is_other (length front) endpoint ≡ some (length front) =
      ap (find_last_if is_other) (take-position front c tail)
      ∙ find_last_if-append is_other front c [] (ap not d) refl in
    ap (port_at endpoint begin (length front) port) found
    ∙ ground (arith, get_elem?-append front c tail)
