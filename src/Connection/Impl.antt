-- ===== src/Connection/Impl.antt =====
-- src/modules/connection.cpp, `connection::impl`: the state of a connection and the events that it
-- emits. What Asio has been asked to do is a list of operations, whose callbacks are still to come.
pub mod Trace
pub mod Effects
pub mod Received
use libslirc_old.Prelude.{
  ℕ, ◌≡◌, Bool, true, false, not, ◌||◌, List, [], ◌∷◌, ◌++◌, if◌then◌else◌, Exception, logic_error,
  system_error, Result, ok, throw, Option, none, some, ◌==◌,
}
use libslirc_old.EventId.{IdType, from_enum}
use libslirc_old.Component.{ComponentType, Component, Container, insert}
use libslirc_old.Event.{
  Event, Payload, received_line_data, error_details, make_event, discard, at_front,
}
use libslirc_old.Event.Queuing.{queue_as}
use libslirc_old.Network.{NetworkService}
use libslirc_old.Connection.Text.{codes}
use libslirc_old.Connection.Buffers.{Buffers, new_buffers, clear}

-- `apis::connection::state`; `changed` is the id of an event only.
pub data ConnectionState : Type 0 where
  disconnected connecting connected disconnecting : ConnectionState

abbrev pub state_number : ConnectionState → ℕ
state_number disconnected = 0
state_number connecting = 1
state_number connected = 2
state_number disconnecting = 3

abbrev pub is_state : ConnectionState → ConnectionState → Bool
is_state a b = state_number a == state_number b

-- The ids of the enums, whose types are the numbers 1 to 3.
abbrev pub state_id : ConnectionState → IdType
state_id s = from_enum 1 (state_number s)

abbrev pub changed : IdType
changed = from_enum 1 4

abbrev pub received_line : IdType
received_line = from_enum 2 0

abbrev pub error_event : IdType
error_event = from_enum 3 0

abbrev pub received_data : ComponentType
received_data = record { type_index = 1; component_base_type = 1 }

abbrev pub error_info : ComponentType
error_info = record { type_index = 2; component_base_type = 2 }

-- An operation of Asio that has been started. A looked up endpoint is its address; a write knows its
-- bytes.
pub data Operation : Type 0 where
  resolving : List ℕ → ℕ → Operation
  connecting_to : ℕ → Operation
  handshaking reading : Operation
  writing : List ℕ → Operation

-- `boost::system::error_code` with its message.
pub record ErrorCode : Type 0 where
  pub message : List ℕ
  pub code : ℕ

-- How an operation ends.
pub data Completion {ℓ} (A : Type ℓ) : Type ℓ where
  errored : ErrorCode → Completion A
  succeeded : A → Completion A

pub record Impl : Type 0 where
  pub hostname : List ℕ
  pub port : ℕ
  pub curstate : ConnectionState
  pub resolver : Bool
  pub resolve_iterator : List ℕ
  pub socket : Bool
  pub ssl : Bool
  pub buffers : Buffers

abbrev pub new_impl : Impl
new_impl = record {
  hostname = codes "0.0.0.0";
  port = 6667;
  curstate = disconnected;
  resolver = false;
  resolve_iterator = [];
  socket = false;
  ssl = false;
  buffers = new_buffers;
}

-- A connection and what it works with: the io_service, the operations that are under way, and the
-- events that it has queued, oldest first.
pub record Machine : Type 0 where
  pub impl : Impl
  pub network : NetworkService
  pub operations : List Operation
  pub emitted : List Event

-- What a member function leaves: an exception, if it throws one, and the state.
abbrev pub Done : Type 0
Done = Option Exception × Machine

infixl 5 ◌>>◌
abbrev pub ◌>>◌ : Done → (Machine → Done) → Done
(none, m) >> f = f m
(some e, m) >> f = (some e, m)

abbrev pub start : Operation → Machine → Machine
start op m = record m { operations = m.operations ++ op ∷ [] }

-- `e->queue()` behind the making of the event, which throws nothing: its id is valid, and it has no
-- component yet.
abbrev pub emit : Result Event → Machine → Machine
emit (throw e) m = m
emit (ok e) m = record m { emitted = m.emitted ++ e ∷ [] }

abbrev pub with_component : Result Event → ComponentType → Payload → Result Event
with_component (throw e) t p = throw e
with_component (ok e) t p = elim (insert t p e.components) [
  | throw x ↦ throw x
  | ok (_, components) ↦ ok (record e { components = components })
]

abbrev pub queued_also_as : (ℕ → ℕ → ℕ) → IdType → Result Event → Result Event
queued_also_as grow id (throw e) = throw e
queued_also_as grow id (ok e) = ok (queue_as grow e id discard at_front).1

-- `get_socket` throws logic_error if this fails.
abbrev pub has_socket : Impl → Bool
has_socket c = c.socket || c.ssl

-- `grow` is how a vector's capacity grows, `irc` the address of the context.
module _ (grow : ℕ → ℕ → ℕ) (irc : ℕ) where
  pub emit_error : List ℕ → ErrorCode → Machine → Machine
  emit_error error_message error_code = emit (
      with_component (make_event grow irc error_event) error_info
        (error_details error_message error_code.code))

  pub emit_line : List ℕ → Machine → Machine
  emit_line line =
      emit
        (with_component (make_event grow irc received_line) received_data (received_line_data line))

  pub state_event : ConnectionState → Result Event
  state_event newstate = queued_also_as grow changed (make_event grow irc (state_id newstate))

  pub emit_state_change : ConnectionState → Machine → Machine
  unfolding state_event
  emit_state_change newstate m =
      if is_state m.impl.curstate newstate
      then m
      else emit (state_event newstate) (record m { impl = record (m.impl) { curstate = newstate } })
