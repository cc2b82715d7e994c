-- ===== src/EventId/Tests.antt =====
-- include/slirc/event.hpp: ids of two enum types.
use libslirc_old.Prelude.{◌≡◌, refl, true}
use libslirc_old.EventId.{IdType, default_id, from_enum, is_valid, is_invalid, less, hash}

-- The first value of an enum is a valid id, unlike the default id with the same number.
first_valid : (is_valid (from_enum 7 0) ≡ true) × (is_invalid default_id ≡ true)
first_valid = (refl, refl)

less_by_type :
    (less (from_enum 1 9) (from_enum 2 0) ≡ true) × (less default_id (from_enum 0 0) ≡ true)
unfolding less
less_by_type = (refl, refl)

hash_default : hash (λ t. t) (λ n. n) default_id ≡ 0
unfolding hash
hash_default = refl

abbrev low : IdType
low = from_enum 1 5

abbrev middle : IdType
middle = from_enum 2 4

abbrev high : IdType
high = from_enum 2 6
