-- ===== src/Connection/Endpoint/Formats.antt =====
-- src/modules/connection.cpp, `set_endpoint`: the formats of an endpoint that it understands.
use libslirc_old.Prelude.{
  ℕ, ◌+◌, ◌%◌, ◌^◌, ◌<◌, ◌≡◌, refl, sym, ap, ◌∙◌, Bool, false, List, [], ◌∷◌, ◌++◌, Option, none,
  some, arith, length, take, drop, any, length-append, append-nil, append_assoc, drop-append,
  take-append, any-append,
}
use libslirc_old.Connection.Text.{
  codes, find_from, find_if, find_word, find_last, find_last_if, shifted,
}
use libslirc_old.Connection.Text.Laws.{
  is_char, find_if-none, find_last_if-none, find_last_if-append, find_word-none, find_word-append,
}
use libslirc_old.Connection.Endpoint.{
  ends_server, strtol, protocol_ssl, behind_auth, or_else, Parsed, parse_server, parse_url,
  parse_endpoint,
}
use libslirc_old.Connection.Endpoint.Laws.{
  is_other, chosen, parsed, find_last_all, server_with_port, NoDigit, any_digits, known_protocol,
}

-- host:digits
abbrev pub host_port : List ℕ → List ℕ → List ℕ
host_port host digits = host ++ b':' ∷ digits

host_port-any :
    (p : ℕ → Bool) (host digits : List ℕ)
    → NoDigit p
    → p b':' ≡ false
    → any p host ≡ false
    → any is_other digits ≡ false
    → any p (host_port host digits) ≡ false
host_port-any p host digits n m h d =
    ground (arith, any-append p host (b':' ∷ digits), any_digits p digits n d)

-- What follows from the position of "://".
abbrev pub at_protocol : List ℕ → ℕ → Option ℕ → Option Parsed
at_protocol endpoint new_port found = elim found [
  | none ↦ parse_server endpoint new_port false 0 (length endpoint)
  | some pos ↦ parse_url endpoint new_port pos (protocol_ssl (take pos endpoint))
]

-- An endpoint host:digits whose host is not empty and has no '/' means that host, without SSL. The
-- port is the one that is passed if that is not 0, else the number of the digits as `strtol` reads it,
-- as an unsigned number of 32 bits.
pub plain_endpoint :
    (host digits : List ℕ) (new_port : ℕ)
    → 0 < length host
    → any (is_char b'/') host ≡ false
    → any is_other digits ≡ false
    → parse_endpoint (host_port host digits) new_port
      ≡ parsed host (chosen new_port (strtol digits % 2 ^ 32)) false
unfolding parse_endpoint
plain_endpoint host digits new_port long h d =
    ap (at_protocol (host_port host digits) new_port) (
      find_word-none (host_port host digits)
        (host_port-any (is_char b'/') host digits (λ c e. ground arith) refl h d))
    ∙ server_with_port [] host digits new_port false long d

-- The authentication info of a URL, if there is some, with its '@'.
abbrev pub with_info : Option (List ℕ) → List ℕ
with_info none = []
with_info (some info) = info ++ b'@' ∷ []

abbrev pub url_prefix : List ℕ → List ℕ
url_prefix proto = proto ++ codes "://"

-- proto://info@authority
abbrev pub url : List ℕ → Option (List ℕ) → List ℕ → List ℕ
url proto info authority = url_prefix proto ++ (with_info info ++ authority)

pub url-parse_endpoint :
    (proto rest : List ℕ) (new_port : ℕ) {use_ssl : Bool}
    → protocol_ssl proto ≡ some use_ssl
    → let endpoint = url_prefix proto ++ rest in
      parse_endpoint endpoint new_port ≡ parse_url endpoint new_port (length proto) (some use_ssl)
unfolding parse_endpoint
url-parse_endpoint proto rest new_port {use_ssl} known =
    let endpoint = url_prefix proto ++ rest in
    let same : endpoint ≡ proto ++ (codes "://" ++ rest) = append_assoc proto (codes "://") rest in
    let found : find_word (codes "://") endpoint ≡ some (length proto) =
      ap (find_word (codes "://")) same
      ∙ find_word-append proto rest (
          known_protocol (λ s. any (is_char b':') s ≡ false) (refl, refl, refl, refl) proto
            known) in
    let front : take (length proto) endpoint ≡ proto =
      ap (take (length proto)) same ∙ take-append proto (codes "://" ++ rest) in
    ap (at_protocol endpoint new_port) found
    ∙ ap (λ s. parse_url endpoint new_port (length proto) (protocol_ssl s)) front
    ∙ ap (parse_url endpoint new_port (length proto)) known

pub prefix_length : (proto : List ℕ) → length (url_prefix proto) ≡ length proto + 3
prefix_length proto = length-append proto (codes "://")

server_end :
    (front rest : List ℕ) {begin : ℕ}
    → length front ≡ begin
    → any ends_server rest ≡ false
    → find_from ends_server begin (front ++ rest) ≡ none
unfolding find_from
server_end front rest {begin} size h =
    ap (λ n. shifted begin (find_if ends_server (drop n (front ++ rest)))) (sym size)
    ∙ ap (λ s. shifted begin (find_if ends_server s)) (drop-append front rest)
    ∙ ap (shifted begin) (find_if-none ends_server rest h)

-- The authentication info is chopped off.
info_lem :
    (proto : List ℕ) (info : Option (List ℕ)) (authority : List ℕ) {use_ssl : Bool}
    → protocol_ssl proto ≡ some use_ssl
    → any (is_char b'@') authority ≡ false
    → behind_auth (length proto + 3) (find_last_if (is_char b'@') (url proto info authority))
      ≡ length (url_prefix proto ++ with_info info)
info_lem proto none authority known h =
    let front : any (is_char b'@') (url_prefix proto) ≡ false =
      known_protocol (λ s. any (is_char b'@') (url_prefix s) ≡ false) (refl, refl, refl, refl) proto
        known in
    ap (behind_auth (length proto + 3)) (
      find_last_if-none (is_char b'@') (url proto none authority)
        (ground (arith, any-append (is_char b'@') (url_prefix proto) authority)))
    ∙ sym (prefix_length proto)
    ∙ ap length (sym (append-nil (url_prefix proto)))
info_lem proto (some info) authority known h =
    let same : url proto (some info) authority ≡ (url_prefix proto ++ info) ++ b'@' ∷ authority =
      ap (◌++◌ (url_prefix proto)) (append_assoc info (b'@' ∷ []) authority)
      ∙ sym (append_assoc (url_prefix proto) info (b'@' ∷ authority)) in
    ap (behind_auth (length proto + 3)) (
      ap (find_last_if (is_char b'@')) same
      ∙ find_last_if-append (is_char b'@') (url_prefix proto ++ info) b'@' authority refl h)
    ∙ ground (
      arith,
      prefix_length proto,
      length-append (url_prefix proto) info,
      length-append (url_prefix proto) (info ++ b'@' ∷ []),
      length-append info (b'@' ∷ []),
    )

-- A URL proto://host:digits or proto://info@host:digits of a known protocol means that host, with SSL
-- as the protocol says, where the host is not empty, neither the info nor the host has a '/', '?' or
-- '#', and the host has no '@'. The port is the one that is passed if that is not 0, else the number of
-- the digits as `strtol` reads it, at most 2^63-1, as an unsigned number of 32 bits. This is so too where
-- the documentation says otherwise: without digits the port is 0 and not the default, and of a host that
-- ends in a colon, as in ::1, the number behind it is the port.
pub url_endpoint :
    (proto : List ℕ) (info : Option (List ℕ)) (host digits : List ℕ) (new_port : ℕ) {use_ssl : Bool}
    → protocol_ssl proto ≡ some use_ssl
    → 0 < length host
    → any ends_server (with_info info) ≡ false
    → any ends_server host ≡ false
    → any (is_char b'@') host ≡ false
    → any is_other digits ≡ false
    → parse_endpoint (url proto info (host_port host digits)) new_port
      ≡ parsed host (chosen new_port (strtol digits % 2 ^ 32)) use_ssl
unfolding parse_url
url_endpoint proto info host digits new_port {use_ssl} known long i h a d =
    let front = url_prefix proto ++ with_info info in
    let authority = host_port host digits in
    let endpoint = url proto info authority in
    let whole : endpoint ≡ front ++ authority =
      sym (append_assoc (url_prefix proto) (with_info info) authority) in
    let no_end : find_from ends_server (length proto + 3) endpoint ≡ none =
      server_end (url_prefix proto) (with_info info ++ authority) (prefix_length proto) (
        ground (
          arith,
          any-append ends_server (with_info info) authority,
          host_port-any ends_server host digits (λ c e. ground arith) refl h d,
        )) in
    let begin : behind_auth (length proto + 3) (find_last (is_char b'@') (length endpoint) endpoint)
        ≡ length front =
      ap (behind_auth (length proto + 3)) (find_last_all (is_char b'@') endpoint)
      ∙ info_lem proto info authority known
          (host_port-any (is_char b'@') host digits (λ c e. ground arith) refl a d) in
    url-parse_endpoint proto (with_info info ++ authority) new_port known
    ∙ ap
        (λ e.
          parse_server endpoint new_port use_ssl
            (behind_auth (length proto + 3) (find_last (is_char b'@') e endpoint)) e)
        (ap (or_else (length endpoint)) no_end)
    ∙ ap (λ b. parse_server endpoint new_port use_ssl b (length endpoint)) begin
    ∙ ap (λ l. parse_server l new_port use_ssl (length front) (length l)) whole
    ∙ server_with_port front host digits new_port use_ssl long d
