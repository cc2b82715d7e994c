-- ===== src/Manager/Handlers/Tests.antt =====
-- include/slirc/apis/event_manager.hpp: handler connections over slots that are kept in one list.
use libslirc_old.Prelude.{ℕ, ◌≡◌, ◌↔◌, refl, true, false, List, [], ◌∷◌, ok}
use libslirc_old.EventId.{IdType, from_enum}
use libslirc_old.Manager.Handlers.{
  normal, first, HandlerConnection, make_connection, no_connection, connect, disconnect,
  disconnect_signals2, is_same, less,
}
use libslirc_old.Manager.Handlers.Table.{Table, slots_of, signals, documented, removed}
use libslirc_old.Manager.Handlers.Groups.{RisesFrom, of_group}
use libslirc_old.Manager.Handlers.Order.{
  Connected, connected_to, History, started, connects, disconnects, slots_by_priority,
}
use libslirc_old.Manager.Handlers.Laws.{made, less_lem}

abbrev line : IdType
line = from_enum 2 0

-- Two handlers of `first`, then one that is normal.
abbrev busy : Table
busy =
    (connect signals 9 line 52 normal
      (connect signals 9 line 51 first (connect signals 9 line 50 first []).1).1).1

-- The first of two handlers of `first` is called first.
in_order : slots_of busy line ≡ (
    record { slot_group = 0; conn = 0; handler = 50 }
    ∷ record { slot_group = 0; conn = 1; handler = 51 }
    ∷ record { slot_group = 1000; conn = 2; handler = 52 }
    ∷ [])
unfolding connect
in_order = refl

abbrev one : HandlerConnection
one = make_connection 9 1

abbrev two : HandlerConnection
two = make_connection 9 2

abbrev three : HandlerConnection
three = make_connection 10 0

less_lem_example :
    (less signals one one ≡ false)
    × (less signals one two ≡ true → less signals two three ≡ true → less signals one three ≡ true)
    × ((is_same signals one two ≡ true) ↔ (one ≡ two))
    × ((is_same signals one two ≡ true)
        ↔ ((less signals one two ≡ false) × (less signals two one ≡ false)))
less_lem_example = less_lem signals documented (made 9 1) (made 9 2) (made 10 0)

-- A normal handler, then two of `first`; the first of these is disconnected.
abbrev connected_handlers : List Connected
connected_handlers =
    (line, record { slot_group = 1000; conn = 0; handler = 60 })
    ∷ (line, record { slot_group = 0; conn = 2; handler = 62 })
    ∷ []

abbrev all_connected : Table
all_connected =
    (connect signals 9 line 62 first
      (connect signals 9 line 61 first (connect signals 9 line 60 normal []).1).1).1

abbrev disconnected_table : Table
disconnected_table = removed 1 all_connected

first_removed :
    disconnect signals (make_connection 9 1) all_connected ≡ ok (no_connection, disconnected_table)
unfolding disconnect disconnect_signals2
first_removed = refl

called_first : slots_of disconnected_table line ≡ (
    record { slot_group = 0; conn = 2; handler = 62 }
    ∷ record { slot_group = 1000; conn = 0; handler = 60 }
    ∷ [])
unfolding connect
called_first = refl

history : History signals [] connected_handlers disconnected_table
unfolding connect
history =
    disconnects (make_connection 9 1) no_connection disconnected_table first_removed
      (connects 9 line 62 first (connects 9 line 61 first (connects 9 line 60 normal started)))

slots_by_priority_example :
    RisesFrom 0 (slots_of disconnected_table line)
    × ((g : ℕ)
        → of_group g (slots_of disconnected_table line)
          ≡ of_group g (connected_to line connected_handlers))
slots_by_priority_example = slots_by_priority signals documented line refl history
