-- ===== src/Connection/Endpoint/Tails.antt =====
-- src/modules/connection.cpp, `set_endpoint`: a URL with something behind its server.
use libslirc_old.Prelude.{
  ℕ, suc, ◌+◌, ◌-◌, ◌<◌, ◌≡◌, refl, sym, ap, ◌∙◌, Bool, true, false, List, [], ◌∷◌, ◌++◌, none,
  some, arith, length, take, drop, any, length-append, append_assoc, drop-append, any-append,
}
use libslirc_old.Connection.Text.{find_from, find_if, find_last, find_last_if, shifted}
use libslirc_old.Connection.Text.Laws.{is_char, find_if-append, find_last_if-none}
use libslirc_old.Connection.Endpoint.{
  is_digit, ends_server, protocol_ssl, behind_auth, or_else, default_port, port_at, parse_server,
  parse_url, parse_endpoint,
}
use libslirc_old.Connection.Endpoint.Laws.{
  is_other, chosen, parsed, served, between, port_hidden, take-position, known_protocol,
}
use libslirc_old.Connection.Endpoint.Formats.{url_prefix, url-parse_endpoint, prefix_length}

server_end_at :
    (front authority tail : List ℕ) (c : ℕ) {begin : ℕ}
    → length front ≡ begin
    → any ends_server authority ≡ false
    → ends_server c ≡ true
    → find_from ends_server begin (front ++ (authority ++ c ∷ tail))
      ≡ some (begin + length authority)
unfolding find_from
server_end_at front authority tail c {begin} size h e =
    ap (λ n. shifted begin (find_if ends_server (drop n (front ++ (authority ++ c ∷ tail)))))
      (sym size)
    ∙ ap (λ s. shifted begin (find_if ends_server s)) (drop-append front (authority ++ c ∷ tail))
    ∙ ap (shifted begin) (find_if-append ends_server authority (c ∷ tail) h)
    ∙ ground arith

-- In a URL of a known protocol with something behind its server, which begins with '/', '?' or '#', the
-- port is not seen: if the server has no '@' and is not empty, then all of it, a port included, is the
-- host name, and the port is the one that is passed if that is not 0, else the default of the protocol.
pub url_with_tail :
    (proto authority tail : List ℕ) (c new_port : ℕ) {use_ssl : Bool}
    → protocol_ssl proto ≡ some use_ssl
    → 0 < length authority
    → any ends_server authority ≡ false
    → any (is_char b'@') authority ≡ false
    → ends_server c ≡ true
    → parse_endpoint (url_prefix proto ++ (authority ++ c ∷ tail)) new_port
      ≡ parsed authority (chosen new_port (default_port use_ssl)) use_ssl
unfolding parse_url find_last
url_with_tail proto authority tail c new_port {use_ssl} known long h a e =
    let front = url_prefix proto in
    let endpoint = front ++ (authority ++ c ∷ tail) in
    let server = front ++ authority in
    let whole : endpoint ≡ server ++ c ∷ tail = sym (append_assoc front authority (c ∷ tail)) in
    let size : length server ≡ length proto + 3 + length authority =
      length-append front authority ∙ ap (◌+ length authority) (prefix_length proto) in
    let front_free : any (is_char b'@') front ≡ false =
      known_protocol (λ s. any (is_char b'@') (url_prefix s) ≡ false) (refl, refl, refl, refl) proto
        known in
    let no_info : find_last (is_char b'@') (length server) endpoint ≡ none =
      ap (λ l. find_last_if (is_char b'@') (take (suc (length server)) l)) whole
      ∙ ap (find_last_if (is_char b'@')) (take-position server c tail)
      ∙ find_last_if-none (is_char b'@') (server ++ c ∷ []) (
          ground (
            arith,
            any-append (is_char b'@') server (c ∷ []),
            any-append (is_char b'@') front authority,
          )) in
    let not_digit : is_digit c ≡ false = ground arith in
    let no_port : port_at endpoint (length proto + 3) (length server) (default_port use_ssl)
          (find_last is_other (length server) endpoint)
        ≡ (default_port use_ssl, length server) =
      ap
        (λ l.
          port_at l (length proto + 3) (length server) (default_port use_ssl)
            (find_last is_other (length server) l))
        whole
      ∙ port_hidden server tail c (length proto + 3) (default_port use_ssl) not_digit
          (ground arith) in
    url-parse_endpoint proto (authority ++ c ∷ tail) new_port known
    ∙ ap
        (λ e.
          parse_server endpoint new_port use_ssl
            (behind_auth (length proto + 3) (find_last (is_char b'@') e endpoint)) e)
        (ap (or_else (length endpoint))
            (server_end_at front authority tail c (prefix_length proto) h e)
          ∙ sym size)
    ∙ ap
        (λ f.
          parse_server endpoint new_port use_ssl (behind_auth (length proto + 3) f) (length server))
        no_info
    ∙ served endpoint new_port use_ssl (length proto + 3) (length server) (default_port use_ssl)
        (length server) no_port (omega (arith, size))
    ∙ ap (λ l. parsed l (chosen new_port (default_port use_ssl)) use_ssl)
        (ap (λ n. take (n - (length proto + 3)) (drop (length proto + 3) endpoint)) size
          ∙ ap (λ n. take (n + length authority - n) (drop n endpoint)) (sym (prefix_length proto))
          ∙ between front authority (c ∷ tail))
