-- ===== src/EventId.antt =====
-- include/slirc/event.hpp, `event::id_type`: a value of a registered enum as an event id, with its
-- comparisons, its order (`std::less`) and its hash. A `std::type_index` is the number of a type,
-- in the order of `std::type_index::operator<`.
pub mod Laws
pub mod Types
mod Tests
use libslirc_old.Prelude.{
  ℕ, ◌≡◌, Bool, true, false, ◌&&◌, not, Option, none, some, ltb, ◌==◌, if◌then◌else◌, bit_xor,
  Result, ok, throw, bad_cast,
}

-- `index` is the enum type that the id comes from, none for the default id.
pub record IdType : Type 0 where
  pub index : Option ℕ
  pub id : ℕ

-- `id_type()`, the invalid id.
abbrev pub default_id : IdType
default_id = record { index = none; id = 0 }

-- `id_type(IdType id)`, for a value of the enum type `enum_type`.
abbrev pub from_enum : ℕ → ℕ → IdType
from_enum enum_type value = record { index = some enum_type; id = value }

abbrev pub index_eq : Option ℕ → Option ℕ → Bool
index_eq none none = true
index_eq (some a) (some b) = a == b
index_eq _ _ = false

-- `std::less<std::optional<std::type_index>>`: no value comes first.
abbrev pub index_less : Option ℕ → Option ℕ → Bool
index_less none (some b) = true
index_less (some a) (some b) = ltb a b
index_less _ none = false

-- `operator==`
abbrev pub id_eq : IdType → IdType → Bool
id_eq lhs rhs = lhs.id == rhs.id && index_eq lhs.index rhs.index

-- `operator!=`
abbrev pub id_ne : IdType → IdType → Bool
id_ne lhs rhs = not (id_eq lhs rhs)

-- `explicit operator bool`
abbrev pub is_valid : IdType → Bool
is_valid i = id_ne i default_id

-- `operator!`
abbrev pub is_invalid : IdType → Bool
is_invalid i = id_eq i default_id

pub is_of_type : ℕ → IdType → Bool
is_of_type enum_type i = elim i.index [ none ↦ false | some t ↦ t == enum_type ]

pub get : ℕ → IdType → Result ℕ
unfolding is_of_type
get enum_type i = if not (is_of_type enum_type i) then throw bad_cast else ok i.id

-- `std::less<id_type>`
pub less : IdType → IdType → Bool
less lhs rhs =
    if not (index_eq lhs.index rhs.index) then index_less lhs.index rhs.index else ltb lhs.id rhs.id

-- `std::hash<id_type>`, over the hashes of types and of numbers.
pub hash : (ℕ → ℕ) → (ℕ → ℕ) → IdType → ℕ
hash hash_type hash_id i = elim i.index [ none ↦ 0 | some t ↦ bit_xor (hash_type t) (hash_id i.id) ]
