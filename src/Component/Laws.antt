-- ===== src/Component/Laws.antt =====
-- component_container.hpp: what each operation returns, and what the other slots keep.
use libslirc_old.Prelude.{
  ◌≡◌, refl, ◌≢◌, ◌↔◌, ◌⊎◌, inl, inr, true, false, Option, none, some, arith, ok, throw,
  out_of_range, component_conflict, [], ◌∷◌, ◌==◌, if◌then◌else◌, Option-cases, Bool-cases,
}
use libslirc_old.Prelude.Assoc.{lookup, put, erase, lookup-put, lookup-erase, IsUnique}
use libslirc_old.Prelude.Classes.{Classes}
use libslirc_old.Component.{
  ComponentType, Component, Container, find_, insert_, insert, at, at_or_insert, find, has, remove,
  casts_to,
}

-- A slot's content after a write to the slot of another type, which may be the same.
abbrev pub written {ℓ} :
    {V : Type ℓ}
    → ComponentType
    → Option (Component V)
    → Container V
    → ComponentType
    → Option (Component V)
written t content c u =
    if t.component_base_type == u.component_base_type then content else find_ u c

abbrev pub made {ℓ} : {V : Type ℓ} → ComponentType → V → Component V
made t value = record { dynamic_type = t.type_index; value = value }

pub find_-nil {ℓ} : {V : Type ℓ} (t : ComponentType) → find_ {V = V} t [] ≡ none
unfolding find_ lookup
find_-nil t = refl

module _ {ℓ} {V : Type ℓ} where
  -- `insert` throws component_conflict exactly when the slot of the base type is taken, by whatever
  -- type. Otherwise it returns the new component, puts it into that slot and keeps every other slot.
  pub insert_lem :
      (t : ComponentType) (value : V) (c : Container V)
      → ((find_ t c ≢ none) × (insert t value c ≡ throw component_conflict))
        ⊎ ((find_ t c ≡ none)
            × (d : Container V) × (insert t value c ≡ ok (made t value, d))
            × ((u : ComponentType) → find_ u d ≡ written t (some (made t value)) c u))
  unfolding insert
  insert_lem t value c = elim (Option-cases (find_ t c)) [
    | inl free ↦ inr (
      free,
      put t.component_base_type (made t value) c,
      ground arith,
      λ u. lookup-put t.component_base_type u.component_base_type (made t value) c,
    )
    | inr (k, taken) ↦ inl (λ e. cc, ground arith)
  ]

module _ {ℓ} {V : Type ℓ} (classes : Classes) where
  -- `at` returns what `find` finds. It throws out_of_range exactly when the slot is free, and
  -- component_conflict exactly when `find` finds nothing in a taken slot; `has` says whether `at`
  -- returns.
  pub at-find :
      (t : ComponentType) (c : Container V)
      → ((k : Component V) → (at classes t c ≡ ok k) ↔ (find classes t c ≡ some k))
        × ((at classes t c ≡ throw out_of_range) ↔ (find_ t c ≡ none))
        × ((at classes t c ≡ throw component_conflict)
            ↔ ((find_ t c ≢ none) × (find classes t c ≡ none)))
        × ((has classes t c ≡ true) ↔ (find classes t c ≢ none))
  unfolding at find has
  at-find t c = (
    λ k. (λ h. ground arith, λ h. ground arith),
    (λ h. ground arith, λ h. ground arith),
    (λ h. (λ e. ground arith, ground arith), λ h. ground arith),
    (λ h e. ground arith, λ h. ground arith),
  )

  -- `at_or_insert` throws component_conflict exactly when `at` does. Otherwise it returns a
  -- component that `at` gives for the requested type in the new container: the one that was there,
  -- with the container unchanged, or the new one if the slot was free. No other slot changes. The
  -- new type is the requested one or derived from it, and has its base type.
  pub at_or_insert_lem :
      (t new : ComponentType) (value : V) (c : Container V)
      → classes.is_base_of t.type_index new.type_index ≡ true
      → new.component_base_type ≡ t.component_base_type
      → ((at classes t c ≡ throw component_conflict)
          × (at_or_insert classes t new value c ≡ throw component_conflict))
        ⊎ ((k : Component V) × (at classes t c ≡ ok k)
            × (at_or_insert classes t new value c ≡ ok (k, c)))
        ⊎ ((at classes t c ≡ throw out_of_range)
            × (d : Container V) × (at_or_insert classes t new value c ≡ ok (made new value, d))
            × (at classes t d ≡ ok (made new value))
            × ((u : ComponentType) → find_ u d ≡ written t (some (made new value)) c u))
  unfolding at at_or_insert
  at_or_insert_lem t new value c derived same = elim (Option-cases (find_ t c)) [
    | inl free ↦ inr (
        inr (
          ground arith,
          put new.component_base_type (made new value) c,
          ground arith,
          ground
              (arith, lookup-put new.component_base_type t.component_base_type (made new value) c),
          λ u.
              ground (
                arith,
                lookup-put new.component_base_type u.component_base_type (made new value) c,
              ),
        ))
    | inr (k, taken) ↦ elim (Bool-cases (casts_to classes t k)) [
      | inl casts ↦ inr (inl (k, ground arith, ground arith))
      | inr other ↦ inl (ground arith, ground arith)
    ]
  ]

  -- `remove` returns false on a free slot and changes nothing, throws component_conflict where `at`
  -- does, and otherwise frees that slot and no other.
  pub remove_lem :
      (t : ComponentType) (c : Container V)
      → IsUnique c
      → ((find_ t c ≡ none) × (remove classes t c ≡ ok (false, c)))
        ⊎ ((at classes t c ≡ throw component_conflict)
            × (remove classes t c ≡ throw component_conflict))
        ⊎ ((k : Component V) × (at classes t c ≡ ok k)
            × (d : Container V) × (remove classes t c ≡ ok (true, d))
            × ((u : ComponentType) → find_ u d ≡ written t none c u))
  unfolding at remove
  remove_lem t c unique = elim (Option-cases (find_ t c)) [
    | inl free ↦ inl (free, ground arith)
    | inr (k, taken) ↦ elim (Bool-cases (casts_to classes t k)) [
      | inl casts ↦ inr (
          inr (
            k,
            ground arith,
            erase t.component_base_type c,
            ground arith,
            λ u. lookup-erase t.component_base_type u.component_base_type c unique,
          ))
      | inr other ↦ inr (inl (ground arith, ground arith))
    ]
  ]

-- The first component of an object.
pub insert-empty {ℓ} :
    {V : Type ℓ} (t : ComponentType) (v : V)
    → insert t v [] ≡ ok (made t v, (t.component_base_type, made t v) ∷ [])
unfolding insert insert_ find_ put lookup
insert-empty t v = refl
