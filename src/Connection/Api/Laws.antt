-- ===== src/Connection/Api/Laws.antt =====
-- include/slirc/apis/connection.hpp and include/slirc/modules/connection.hpp: connecting to an endpoint,
-- and sending text.
use libslirc_old.Prelude.{
  ℕ, zero, suc, ◌+◌, ◌%◌, ◌^◌, ◌<◌, ◌≤◌, ◌≡◌, refl, sym, ap, ◌∙◌, subst, Bool, true, false, List,
  [], ◌∷◌, ◌++◌, none, some, ◌==◌, if◌then◌else◌, length, take, get_elem?, any, arith, take-append,
  length-append,
}
use libslirc_old.Connection.Text.Laws.{is_char, get_elem?-append}
use libslirc_old.Network.{get_service}
use libslirc_old.Network.Lifetime.{get_service-stopping}
use libslirc_old.Connection.Impl.{disconnected, connecting, resolving, Impl, Machine, Done, ◌>>◌}
use libslirc_old.Connection.Stages.{connect, do_send_raw}
use libslirc_old.Connection.Stages.Ignored.{if_false}
use libslirc_old.Connection.Stages.Members.{connect_lem}
use libslirc_old.Connection.Endpoint.{strtol}
use libslirc_old.Connection.Endpoint.Laws.{is_other, chosen}
use libslirc_old.Connection.Endpoint.Formats.{host_port, plain_endpoint}
use libslirc_old.Connection.Endpoint.Effects.{set_endpoint-plain}
use libslirc_old.Connection.Api.{
  text_length, array_length, connect_to, send_raw, send_raw_text, send_raw_array,
}

text_length-append :
    (s t : List ℕ) (n : ℕ)
    → any (is_char 0) s ≡ false
    → n + length s < 2 ^ 32
    → text_length (s ++ 0 ∷ t) n ≡ some (n + length s)
unfolding text_length
text_length-append [] t n h small = ap some (omega arith)
text_length-append (c ∷ s) t n h small = ground (arith, text_length-append s t (suc n))

array_length-some :
    (l : List ℕ) (n c : ℕ)
    → get_elem? l n ≡ some c
    → array_length l (suc n) ≡ (if c == 0 then array_length l n else suc n)
unfolding array_length
array_length-some l n c e =
    ap
      (λ o. elim o [
        | none ↦ suc n
        | some d ↦ let less = array_length l n in if d == 0 then less else suc n
      ])
      e

-- A character of a text that has no null.
not_null :
    (text behind : List ℕ) (n : ℕ)
    → any (is_char 0) text ≡ false
    → n < length text
    → (c : ℕ) × (get_elem? (text ++ behind) n ≡ some c) × ((c == 0) ≡ false)
not_null [] behind n h less = absurd (omega arith)
not_null (c ∷ text) behind zero h less = (c, refl, ground arith)
not_null (c ∷ text) behind (suc n) h less = not_null text behind n (ground arith) (omega arith)

-- Nothing else than the nulls at the end is left out.
array_length-kept :
    (text behind : List ℕ) (n : ℕ)
    → any (is_char 0) text ≡ false
    → n ≤ length text
    → array_length (text ++ behind) n ≡ n
unfolding array_length
array_length-kept text behind zero h less = refl
array_length-kept text behind (suc n) h less =
    let (c, at, here) = not_null text behind n h (omega arith) in
    array_length-some (text ++ behind) n c at ∙ if_false _ _ _ here

module _ (grow : ℕ → ℕ → ℕ) (irc : ℕ) (cancel_fails : Impl → Bool) (ssl_support : Bool) where
  -- `connect` with an endpoint host:digits, for a connection that is disconnected and a network service
  -- that is not shutting down: if the host is not empty and has no '/', then nothing is thrown, the
  -- connection is connecting, and the host is being looked up with the port that is passed if that is not
  -- 0, else with the number of the digits as `strtol` reads it, at most 2^63-1, as an unsigned number of 32
  -- bits. This is so too where the documentation says otherwise: without digits the port is 0 and not the
  -- default, and of a host that ends in a colon, as in ::1, the number behind it is the port.
  pub connect_to_lem :
      (host digits : List ℕ) (new_port : ℕ) (m : Machine)
      → m.impl.curstate ≡ disconnected
      → m.network.internal_service_stopping ≡ false
      → 0 < length host
      → any (is_char b'/') host ≡ false
      → any is_other digits ≡ false
      → let d = connect_to grow irc cancel_fails ssl_support (host_port host digits) new_port m in
        (d.0 ≡ none)
        × (d.1.impl.curstate ≡ connecting)
        × (d.1.operations
            ≡ m.operations ++ resolving host (chosen new_port (strtol digits % 2 ^ 32)) ∷ [])
  unfolding connect_to
  connect_to_lem host digits new_port m rest running long h d =
      let port = chosen new_port (strtol digits % 2 ^ 32) in
      let (thrown, state, ops) =
        connect_lem grow irc cancel_fails
          (record m {
            network = (get_service m.network).1;
            impl = record (m.impl) { hostname = host; port = port; ssl = false; socket = true };
          })
          rest (get_service-stopping m.network ∙ running) in
      subst
        (λ (d : Done).
          let e = d >> connect grow irc cancel_fails in
          (e.0 ≡ none)
          × (e.1.impl.curstate ≡ connecting)
          × (e.1.operations ≡ m.operations ++ resolving host port ∷ []))
        (sym (
          set_endpoint-plain ssl_support (host_port host digits) host new_port port m rest
            (plain_endpoint host digits new_port long h d) running))
        (thrown, state, ops)

  -- A text without a null, of less than 2^32 characters, that is sent null terminated or as an array that
  -- ends in a null is sent as it is.
  pub send_raw_lem :
      (text behind : List ℕ) (m : Machine)
      → any (is_char 0) text ≡ false
      → length text < 2 ^ 32
      → let sent = do_send_raw grow irc cancel_fails text m in
        (send_raw_text grow irc cancel_fails ssl_support (text ++ 0 ∷ behind) m ≡ some sent)
        × (send_raw_array grow irc cancel_fails ssl_support (text ++ 0 ∷ []) m ≡ sent)
  unfolding send_raw_text send_raw_array send_raw
  send_raw_lem text behind m h small =
      let found : text_length (text ++ 0 ∷ behind) 0 ≡ some (length text) =
        text_length-append text behind 0 h (omega arith) ∙ ap some (omega arith) in
      let longer : length (text ++ 0 ∷ []) ≡ suc (length text) =
        omega (arith, length-append text (0 ∷ [])) in
      let size : array_length (text ++ 0 ∷ []) (length (text ++ 0 ∷ [])) ≡ length text =
        ap (array_length (text ++ 0 ∷ [])) longer
        ∙ array_length-some (text ++ 0 ∷ []) (length text) 0 (get_elem?-append text 0 [])
        ∙ array_length-kept text (0 ∷ []) (length text) h (omega arith) in
      (
        subst
            (λ found_length.
              (elim found_length [
                | none ↦ none
                | some count ↦
                    some (do_send_raw grow irc cancel_fails (take count (text ++ 0 ∷ behind)) m)
              ])
              ≡ some (do_send_raw grow irc cancel_fails text m))
            (sym found)
            (ap (λ l. some (do_send_raw grow irc cancel_fails l m))
              (take-append text (0 ∷ behind))),
        ap (λ n. do_send_raw grow irc cancel_fails (take n (text ++ 0 ∷ [])) m) size
            ∙ ap (λ l. do_send_raw grow irc cancel_fails l m) (take-append text (0 ∷ [])),
      )
