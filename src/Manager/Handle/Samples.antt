-- ===== src/Manager/Handle/Samples.antt =====
-- An event with handled and pending ids, and with events behind it.
use libslirc_old.Prelude.{refl, [], ◌∷◌, arith}
use libslirc_old.EventId.{IdType, from_enum, default_id}
use libslirc_old.Event.{Event, afterwards_events}
use libslirc_old.Event.Queuing.Invariant.{IsValid}

abbrev pub a : IdType
a = from_enum 1 0

abbrev pub b : IdType
b = from_enum 1 1

-- `a` has been handled, `b` and `a` are pending, and 30 and 31 are to be handled afterwards.
abbrev pub busy : Event
busy = record {
  irc = 1;
  original_id = a;
  current_id_mutable = default_id;
  queued_ids = record { items = a ∷ b ∷ a ∷ []; capacity = 4 };
  next_id_index = 1;
  components = (0, record { dynamic_type = 0; value = afterwards_events (30 ∷ 31 ∷ []) }) ∷ [];
}

pub busy-IsValid : IsValid busy
busy-IsValid = record { range = omega arith; roomy = omega arith; valid = refl }
