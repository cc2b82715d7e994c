-- ===== src/Manager/Handlers.antt =====
-- include/slirc/apis/event_manager.hpp and src/modules/event_manager.cpp: the connections of event
-- handlers. The signals of Boost are a parameter: `S` is what they keep for the event manager's map of
-- signals. A disconnector holds the connection of Boost; an event manager is its address.
pub mod Laws
pub mod Groups
pub mod Order
pub mod Table
mod Tests
use libslirc_old.Prelude.{
  ℕ, ◌≡◌, ◌≢◌, ◌⊎◌, Bool, true, false, not, ◌&&◌, ◌||◌, List, [], ◌∷◌, Option, none, some, ◌==◌,
  ltb, if◌then◌else◌, any, remove_if, Result, ok, throw, bad_function_call,
}
use libslirc_old.EventId.{IdType}

-- `event_manager::connection_priority`
pub data ConnectionPriority : Type 0 where
  first filter highest higher high normal low lower lowest summarize last : ConnectionPriority

-- The values of the enum, each greater by 1000.
abbrev pub group : ConnectionPriority → ℕ
group first = 0
group filter = 200
group highest = 400
group higher = 600
group high = 800
group normal = 1000
group low = 1200
group lower = 1400
group lowest = 1600
group summarize = 1800
group last = 2000

-- A handler that is connected to a signal.
pub record Slot : Type 0 where
  pub slot_group : ℕ
  pub conn : ℕ
  pub handler : ℕ

-- `boost::signals2`: `connect` of a handler in a group, `disconnect` and `<` of connections, and the
-- slots of a signal in the order of their calls.
pub record Signals (S : Type 0) : Type 0 where
  pub connect_slot : IdType → ℕ → ℕ → S → ℕ × S
  pub disconnect_slot : ℕ → S → S
  pub slot_less : ℕ → ℕ → Bool
  pub slots : S → IdType → List Slot

-- Where `connect` puts a slot: behind those of its group.
abbrev pub insert_slot : Slot → List Slot → List Slot
insert_slot new [] = new ∷ []
insert_slot new (s ∷ l) =
    let rest = insert_slot new l in
    if ltb new.slot_group s.slot_group then new ∷ s ∷ l else s ∷ rest

abbrev pub is_conn : ℕ → Slot → Bool
is_conn c s = s.conn == c

-- What the documentation of Boost says of them.
pub record Documented {S : Type 0} (b : Signals S) : Type 0 where
  pub fresh :
      (id : IdType) (priority handler : ℕ) (s : S) (other : IdType)
      → any (is_conn (b.connect_slot id priority handler s).0) (b.slots s other) ≡ false
  pub connected_slots :
      (id : IdType) (priority handler : ℕ) (s : S)
      → let (c, after) = b.connect_slot id priority handler s in
        b.slots after id
        ≡ insert_slot (record { slot_group = priority; conn = c; handler = handler }) (b.slots s id)
  pub other_slots :
      (id : IdType) (priority handler : ℕ) (s : S) (other : IdType)
      → other ≢ id
      → b.slots (b.connect_slot id priority handler s).1 other ≡ b.slots s other
  pub disconnected_slots :
      (c : ℕ) (s : S) (id : IdType)
      → b.slots (b.disconnect_slot c s) id ≡ remove_if (is_conn c) (b.slots s id)
  pub irreflexive : (c : ℕ) → b.slot_less c c ≡ false
  pub transitive :
      (c d e : ℕ) → b.slot_less c d ≡ true → b.slot_less d e ≡ true → b.slot_less c e ≡ true
  pub total : (c d : ℕ) → (b.slot_less c d ≡ true) ⊎ (b.slot_less d c ≡ true) ⊎ (c ≡ d)

-- `event_manager::connection`
pub record HandlerConnection : Type 0 where
  pub disconnector : Option ℕ
  pub emgr : Option ℕ

-- `connection()`
abbrev pub no_connection : HandlerConnection
no_connection = record { disconnector = none; emgr = none }

abbrev pub is_connected : HandlerConnection → Bool
is_connected c = elim c.emgr [ none ↦ false | some e ↦ true ]

abbrev pub get_manager : HandlerConnection → Option ℕ
get_manager c = c.emgr

-- `make_connection`, for the event manager at `manager`.
abbrev pub make_connection : ℕ → ℕ → HandlerConnection
make_connection manager c = record { disconnector = some c; emgr = some manager }

-- The comparison of pointers, and `std::less` of them.
abbrev pub same_manager : Option ℕ → Option ℕ → Bool
same_manager none none = true
same_manager (some a) (some b) = a == b
same_manager _ _ = false

abbrev pub manager_less : Option ℕ → Option ℕ → Bool
manager_less none (some b) = true
manager_less (some a) (some b) = ltb a b
manager_less _ none = false

module _ {S : Type 0} (b : Signals S) where
  unfoldable pub connect : ℕ → IdType → ℕ → ConnectionPriority → S → HandlerConnection × S
  connect manager id handler priority s =
      let (c, after) = b.connect_slot id (group priority) handler s in
      (make_connection manager c, after)

  -- The call of a disconnector, a `std::function` that may be empty.
  disconnect_signals2 : Option ℕ → S → Result S
  disconnect_signals2 none s = throw bad_function_call
  disconnect_signals2 (some c) s = ok (b.disconnect_slot c s)

  -- A call that throws leaves the connection and the signals as they are.
  pub disconnect : HandlerConnection → S → Result (HandlerConnection × S)
  unfolding disconnect_signals2
  disconnect c s =
      if is_connected c
      then (elim (disconnect_signals2 c.disconnector s) [
        | throw e ↦ throw e
        | ok after ↦ ok (no_connection, after)
      ])
      else ok (c, s)

  -- `connection_less`, of disconnectors that the event manager has made.
  pub connection_less : Option ℕ → Option ℕ → Bool
  connection_less (some c) (some d) = b.slot_less c d
  connection_less _ _ = false

  -- `operator!=`
  pub is_different : HandlerConnection → HandlerConnection → Bool
  unfolding connection_less
  is_different c other =
      not (same_manager c.emgr other.emgr)
      || (is_connected c
          && (connection_less c.disconnector other.disconnector
              || connection_less other.disconnector c.disconnector))

  -- `operator==`
  pub is_same : HandlerConnection → HandlerConnection → Bool
  unfolding is_different
  is_same c other = not (is_different c other)

  -- `std::less<connection>`
  pub less : HandlerConnection → HandlerConnection → Bool
  unfolding connection_less
  less lhs rhs =
      if not (same_manager lhs.emgr rhs.emgr)
      then manager_less lhs.emgr rhs.emgr
      else is_connected lhs && connection_less lhs.disconnector rhs.disconnector
