-- ===== src/Connection/Api.antt =====
-- include/slirc/apis/connection.hpp, include/slirc/modules/connection.hpp and the end of
-- src/modules/connection.cpp: what a user of a connection calls. `unsigned` has 32 bits.
pub mod Laws
mod Tests
use libslirc_old.Prelude.{
  ℕ, zero, suc, ◌+◌, ◌^◌, Bool, true, false, List, [], ◌∷◌, Option, none, some, ◌==◌, ltb,
  if◌then◌else◌, length, take, get_elem?, Exception,
}
use libslirc_old.Network.{NetworkService}
use libslirc_old.Event.{Payload, received_line_data, error_details, afterwards_events, user_data}
use libslirc_old.Connection.Impl.{ConnectionState, Impl, new_impl, Machine, Done, ◌>>◌}
use libslirc_old.Connection.Stages.{connect, disconnect, do_send_raw}
use libslirc_old.Connection.Endpoint.{set_endpoint}

-- `error_info::message`, of an error_info that has been initialized.
abbrev pub message : Payload → Option (List ℕ)
message (error_details text code) = some text
message _ = none

abbrev pub error_code : Payload → Option ℕ
error_code (error_details text code) = some code
error_code _ = none

abbrev pub current_state : Machine → ConnectionState
current_state m = m.impl.curstate

-- The loop of `send_raw` of a null terminated text: none if there is no null among the 2^32 characters
-- that `length` can count.
pub text_length : List ℕ → ℕ → Option ℕ
text_length [] count = none
text_length (c ∷ bytes) count =
    let more = text_length bytes (suc count) in
    if c == 0 then some count else if ltb (suc count) (2 ^ 32) then more else none

-- The loop of `send_raw` of an array.
pub array_length : List ℕ → ℕ → ℕ
array_length bytes zero = 0
array_length bytes (suc n) = elim (get_elem? bytes n) [
  | none ↦ suc n
  | some c ↦ let less = array_length bytes n in if c == 0 then less else suc n
]

module _ (grow : ℕ → ℕ → ℕ) (irc : ℕ) (cancel_fails : Impl → Bool) (ssl_support : Bool) where
  -- The constructor with an endpoint.
  pub make_connection : NetworkService → List ℕ → ℕ → Done
  make_connection network endpoint new_port =
      set_endpoint ssl_support endpoint new_port
        (record { impl = new_impl; network = network; operations = []; emitted = [] })

  -- `connect` with an endpoint.
  pub connect_to : List ℕ → ℕ → Machine → Done
  connect_to endpoint new_port m =
      set_endpoint ssl_support endpoint new_port m >> connect grow irc cancel_fails

  -- The destructor.
  unfoldable pub destroy : Machine → Done
  destroy = disconnect grow irc cancel_fails

  pub send_raw : List ℕ → ℕ → Machine → Machine
  send_raw bytes count = do_send_raw grow irc cancel_fails (take count bytes)

  -- none if the loop does not find the end of the text.
  pub send_raw_text : List ℕ → Machine → Option Machine
  unfolding text_length send_raw
  send_raw_text bytes m = elim (text_length bytes 0) [
    | none ↦ none
    | some count ↦ some (send_raw bytes count m)
  ]

  pub send_raw_array : List ℕ → Machine → Machine
  unfolding array_length send_raw
  send_raw_array bytes = send_raw bytes (array_length bytes (length bytes))
