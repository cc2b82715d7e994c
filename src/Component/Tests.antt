-- ===== src/Component/Tests.antt =====
-- component_container.hpp: a base component type 1 with the types 2 and 3 derived from it, and an
-- unrelated type 5.
use libslirc_old.Prelude.{
  ℕ, ◌+◌, ◌≡◌, refl, ◌⊎◌, Bool, true, false, ◌||◌, ◌&&◌, [], ◌∷◌, some, ◌==◌, ok, throw,
  out_of_range, component_conflict, arith, ==_refl,
}
use libslirc_old.Prelude.Assoc.{lookup, IsUnique}
use libslirc_old.Prelude.Classes.{Classes}
use libslirc_old.Component.{
  ComponentType, Component, Container, is_valid_component, find_, at, at_or_insert, has,
}
use libslirc_old.Component.Invariant.{IsValid}
use libslirc_old.Component.Laws.{written, made, at_or_insert_lem}

abbrev derives : ℕ → ℕ → Bool
derives b d = b == d || b == 1 && (d == 2 || d == 3)

derives_refl : (t : ℕ) → derives t t ≡ true
derives_refl t = ground (arith, ==_refl t)

derives_trans : (a b c : ℕ) → derives a b ≡ true → derives b c ≡ true → derives a c ≡ true
derives_trans a b c h k = ground arith

abbrev classes : Classes
classes = record { is_base_of = derives; base_refl = derives_refl; base_trans = derives_trans }

abbrev base : ComponentType
base = record { type_index = 1; component_base_type = 1 }

abbrev derived : ComponentType
derived = record { type_index = 2; component_base_type = 1 }

abbrev sibling : ComponentType
sibling = record { type_index = 3; component_base_type = 1 }

abbrev other : ComponentType
other = record { type_index = 5; component_base_type = 5 }

abbrev one : Container ℕ
one = (1, made derived 40) ∷ []

one-IsUnique : IsUnique one
unfolding lookup
one-IsUnique = (refl, tt)

one-IsValid : IsValid classes one
unfolding lookup
one-IsValid = record { unique = (refl, tt); fitting = (refl, tt) }

-- A more derived component is found as its base, and not as its sibling.
lookups :
    (at classes base one ≡ ok (made derived 40))
    × (at classes sibling one ≡ throw component_conflict)
    × (at classes other one ≡ throw out_of_range)
    × (has classes derived one ≡ true)
unfolding at has lookup
lookups = (refl, refl, refl, refl)

abbrev Inserted : ComponentType → ComponentType → ℕ → Type 0
Inserted t new value =
    ((at classes t one ≡ throw component_conflict)
      × (at_or_insert classes t new value one ≡ throw component_conflict))
    ⊎ ((k : Component ℕ) × (at classes t one ≡ ok k)
        × (at_or_insert classes t new value one ≡ ok (k, one)))
    ⊎ ((at classes t one ≡ throw out_of_range)
        × (d : Container ℕ) × (at_or_insert classes t new value one ≡ ok (made new value, d))
        × (at classes t d ≡ ok (made new value))
        × ((u : ComponentType) → find_ u d ≡ written t (some (made new value)) one u))

at_or_insert_lem_example : Inserted base sibling 9
at_or_insert_lem_example = at_or_insert_lem classes base sibling 9 one refl refl

-- Both kinds of component type are valid, a type that is not derived from its base type is not.
validity :
    (is_valid_component classes 100 (λ t. 100) base ≡ false)
    × (is_valid_component
          (record {
            is_base_of = λ b d. true;
            base_refl = λ t. refl;
            base_trans = λ a b c h k. refl;
          })
          100
          (λ t. t + 200)
          derived
        ≡ true)
unfolding is_valid_component
validity = (refl, refl)
