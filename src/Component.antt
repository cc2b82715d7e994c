-- ===== src/Component.antt =====
-- include/slirc/component_container.hpp and component.hpp: a container of at most one component for
-- each component base type. A template argument `Component` is the pair of its type and its
-- `component_base_type`; a stored component carries the type that it was made as (what `typeid`
-- says of it). An operation that returns a reference returns the component that it refers to; a write
-- through the reference is `assign`.
pub mod Laws
pub mod Invariant
mod Tests
use libslirc_old.Prelude.{
  ℕ, ◌≡◌, Bool, true, false, ◌&&◌, not, Option, none, some, List, [], ◌==◌, if◌then◌else◌, Result,
  ok, throw, Exception, out_of_range, component_conflict,
}
use libslirc_old.Prelude.Assoc.{lookup, put, erase}
use libslirc_old.Prelude.Classes.{Classes}

pub record ComponentType : Type 0 where
  pub type_index : ℕ
  pub component_base_type : ℕ

pub record Component {ℓ} (V : Type ℓ) : Type ℓ where
  pub dynamic_type : ℕ
  pub value : V

abbrev pub Container {ℓ} : Type ℓ → Type ℓ
Container V = List (ℕ × Component V)

-- `detail::is_valid_component<T>()`: `component_of` is the instance of the template
-- `slirc::component` at a type, `component_base` is `detail::component_base`.
pub is_valid_component : Classes → ℕ → (ℕ → ℕ) → ComponentType → Bool
is_valid_component classes component_base component_of t =
    classes.is_base_of component_base (component_of t.component_base_type)
    && classes.is_base_of (component_of t.component_base_type) t.component_base_type
    && classes.is_base_of t.component_base_type t.type_index
    && not (component_of t.component_base_type == t.type_index)

module _ {ℓ} {V : Type ℓ} where
  -- `find_<Component>()`: the iterator, none for `end()`.
  unfoldable pub find_ : ComponentType → Container V → Option (Component V)
  find_ t c = lookup t.component_base_type c

  -- `insert_<Component>(value)`
  pub insert_ : ComponentType → V → Container V → Component V × Container V
  insert_ t value c = (component, put t.component_base_type component c)
    where
      component : Component V
      component = record { dynamic_type = t.type_index; value = value }

  pub insert : ComponentType → V → Container V → Result (Component V × Container V)
  unfolding find_ insert_
  insert t value c = elim (find_ t c) [
    | some _ ↦ throw component_conflict
    | none ↦ ok (insert_ t value c)
  ]

module _ {ℓ} {V : Type ℓ} (classes : Classes) where
  -- `dynamic_cast` to the requested type succeeds.
  abbrev pub casts_to : ComponentType → Component V → Bool
  casts_to t stored = classes.is_base_of t.type_index stored.dynamic_type

  pub at : ComponentType → Container V → Result (Component V)
  unfolding find_
  at t c = elim (find_ t c) [
    | none ↦ throw out_of_range
    | some stored ↦ if casts_to t stored then ok stored else throw component_conflict
  ]

  -- The handler catches `std::out_of_range` and nothing else.
  insert_on_out_of_range :
      ComponentType → V → Container V → Result (Component V) → Result (Component V × Container V)
  insert_on_out_of_range new value c (ok found) = ok (found, c)
  insert_on_out_of_range new value c (throw out_of_range) = ok (insert_ new value c)
  insert_on_out_of_range new value c (throw e) = throw e

  -- `at_or_insert<Component, NewComponent>(value)`, and with both types the same the overload of one
  -- type.
  pub at_or_insert :
      ComponentType → ComponentType → V → Container V → Result (Component V × Container V)
  unfolding at insert_ insert_on_out_of_range
  at_or_insert t new value c = insert_on_out_of_range new value c (at t c)

  unfoldable pub find : ComponentType → Container V → Option (Component V)
  unfolding find_
  find t c = elim (find_ t c) [
    | none ↦ none
    | some stored ↦ if casts_to t stored then some stored else none
  ]

  pub has : ComponentType → Container V → Bool
  unfolding find
  has t c = elim (find t c) [ none ↦ false | some _ ↦ true ]

  pub remove : ComponentType → Container V → Result (Bool × Container V)
  unfolding find_
  remove t c = elim (find_ t c) [
    | none ↦ ok (false, c)
    | some stored ↦
        if casts_to t stored
        then ok (true, erase t.component_base_type c)
        else throw component_conflict
  ]

-- A write through a reference to a stored component.
pub assign {ℓ} : {V : Type ℓ} → ComponentType → (V → V) → Container V → Container V
assign t change c = elim (lookup t.component_base_type c) [
  | none ↦ c
  | some stored ↦ put t.component_base_type (record stored { value = change stored.value }) c
]
