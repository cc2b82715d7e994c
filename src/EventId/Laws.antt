-- ===== src/EventId/Laws.antt =====
-- include/slirc/event.hpp: the comparisons of event ids.
use libslirc_old.Prelude.{
  ℕ, ◌≡◌, refl, ◌≢◌, ◌↔◌, ◌⊎◌, inl, inr, true, false, arith, ok, throw, bad_cast, Bool-cases,
}
use libslirc_old.EventId.{IdType, default_id, from_enum, id_eq, is_valid, is_of_type, get, less}

-- Equality of ids is equality of the enum type and of the value.
pub id_eq_iff : (a b : IdType) → (id_eq a b ≡ true) ↔ (a ≡ b)
id_eq_iff a b = (λ h. ground arith, λ h. ground arith)

pub id_eq_refl : (a : IdType) → id_eq a a ≡ true
id_eq_refl a = (id_eq_iff a a).1 refl

-- An id is valid exactly when it differs from the default id.
pub is_valid_iff :
    (a : IdType)
    → ((is_valid a ≡ true) ↔ (a ≢ default_id)) × ((is_valid a ≡ false) ↔ (a ≡ default_id))
is_valid_iff a = (
  (
    λ h e. ground arith,
    λ h. elim (Bool-cases (is_valid a)) [ inl v ↦ v | inr v ↦ absurd (h (ground arith)) ],
  ),
  (λ h. ground arith, λ e. ground arith),
)

less_total : (a b : IdType) → (less a b ≡ true) ⊎ (less b a ≡ true) ⊎ (a ≡ b)
unfolding less
less_total a b = elim (Bool-cases (less a b)) [
  | inl before ↦ inl before
  | inr unordered ↦ elim (Bool-cases (less b a)) [
    | inl after ↦ inr (inl after)
    | inr same ↦ inr (inr (ground arith))
  ]
]

-- `std::less` is a strict total order on ids: ids that it does not order are the same id.
pub less_order :
    (a b c : IdType)
    → (less a a ≡ false)
      × (less a b ≡ true → less b c ≡ true → less a c ≡ true)
      × ((less a b ≡ true) ⊎ (less b a ≡ true) ⊎ (a ≡ b))
      × (less a b ≡ true → less b a ≡ false)
unfolding less
less_order a b c = (ground arith, λ h k. ground arith, less_total a b, λ h. ground arith)

-- `get` gives back the value of an id made from the same enum type, and throws for any other id.
pub get_iff :
    (t : ℕ) (a : IdType)
    → ((v : ℕ) → (get t a ≡ ok v) ↔ (a ≡ from_enum t v))
      × ((get t a ≡ throw bad_cast) ↔ (is_of_type t a ≡ false))
unfolding get is_of_type
get_iff t a = (λ v. (λ h. ground arith, λ h. ground arith), (λ h. ground arith, λ h. ground arith))

pub id_eq_sym : (a b : IdType) → id_eq a b ≡ id_eq b a
id_eq_sym a b = ground arith
