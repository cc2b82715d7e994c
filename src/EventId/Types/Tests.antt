-- ===== src/EventId/Types/Tests.antt =====
-- include/slirc/event.hpp: the enum type 7 stands in the namespace 1, all others in the namespace 2; the
-- enum type 9 has another underlying type.
use libslirc_old.Prelude.{
  ℕ, ◌≡◌, ◌↔◌, refl, Bool, true, false, List, [], ◌∷◌, none, some, ◌==◌, if◌then◌else◌, ok,
}
use libslirc_old.EventId
use libslirc_old.EventId.{IdType, from_enum}
use libslirc_old.EventId.Types.{
  Overload, register_all, is_valid_id_type, is_valid_id, make_id, is_of_type, IsRegistered,
  registered_lem,
}

abbrev enclosing : ℕ → ℕ
enclosing t = if t == 7 then 1 else 2

abbrev underlying : ℕ → ℕ
underlying t = if t == 9 then 4 else 0

-- The type 7 in its namespace, and the type 8 in one that is not its own.
abbrev registrations : List (ℕ × ℕ)
registrations = (1, 7) ∷ (1, 8) ∷ []

abbrev declared : List Overload
declared =
    record { namespace_of = 1; parameter = 8 } ∷ record { namespace_of = 1; parameter = 7 } ∷ []

all_registered : register_all enclosing underlying registrations [] ≡ some declared
unfolding register_all
all_registered = refl

-- The registration outside of the namespace of the type is without effect.
outside :
    (is_valid_id enclosing underlying declared 7 0 ≡ true)
    × (is_valid_id enclosing underlying declared 8 0 ≡ false)
unfolding is_valid_id
outside = (refl, refl)

wrong_underlying : register_all enclosing underlying ((2, 9) ∷ []) [] ≡ none
unfolding register_all
wrong_underlying = refl

registered_lem_example :
    ((is_valid_id_type enclosing underlying declared 7 ≡ true)
      ↔ IsRegistered enclosing underlying 7 registrations)
    × (((i : IdType) × (make_id enclosing underlying declared 7 3 ≡ some i))
        ↔ IsRegistered enclosing underlying 7 registrations)
    × ((i : IdType)
        → ((known : Bool) × (is_of_type enclosing underlying declared 7 i ≡ some known))
          ↔ IsRegistered enclosing underlying 7 registrations)
    × ((i : IdType)
        → make_id enclosing underlying declared 7 3 ≡ some i
        → (EventId.is_valid i ≡ true)
          × (EventId.get 7 i ≡ ok 3)
          × ((u : ℕ)
              → IsRegistered enclosing underlying u registrations
              → is_of_type enclosing underlying declared u i ≡ some (7 == u)))
registered_lem_example =
    registered_lem enclosing underlying registrations declared 7 3 all_registered
