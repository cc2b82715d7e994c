-- ===== src/Component/Invariant.antt =====
-- component_container.hpp: what holds of a container after any calls.
use libslirc_old.Prelude.{
  ◌∙◌, ==_refl, ℕ, ◌≡◌, ◌≢◌, inl, inr, Bool, true, false, List, [], ◌∷◌, arith, Result, ok, throw,
  out_of_range, component_conflict, Option-cases, Bool-cases,
}
use libslirc_old.Prelude.Assoc.{
  lookup, put, erase, IsUnique, AllEntries, put-IsUnique, erase-IsUnique, put-AllEntries,
  erase-AllEntries, lookup-AllEntries,
}
use libslirc_old.Prelude.Classes.{Classes}
use libslirc_old.Component.{
  ComponentType, Component, Container, find_, insert, insert_, at, at_or_insert,
  insert_on_out_of_range, remove, casts_to, assign,
}
use libslirc_old.Component.Laws.{made, at-find, remove_lem}

-- The calls that change a container.
pub data Call {ℓ} (V : Type ℓ) : Type ℓ where
  inserts : ComponentType → V → Call V
  at_or_inserts : ComponentType → ComponentType → V → Call V
  removes : ComponentType → Call V
  assigns : ComponentType → (V → V) → Call V

-- What the static assertions say of a template argument: it is derived from its base type.
abbrev pub is_derived : Classes → ComponentType → Bool
is_derived classes t = classes.is_base_of t.component_base_type t.type_index

-- A call that throws leaves the container as it was.
abbrev pub after {ℓ κ} :
    {V : Type ℓ} {A : Type κ} → Container V → Result (A × Container V) → Container V
after c (ok (_, d)) = d
after c (throw e) = c

module _ {ℓ} {V : Type ℓ} (classes : Classes) where
  -- The static assertions of a call.
  abbrev pub Compiles : Call V → Type 0
  Compiles (inserts t value) = is_derived classes t ≡ true
  Compiles (at_or_inserts t new value) =
      (is_derived classes t ≡ true) × (is_derived classes new ≡ true)
  Compiles (removes t) = is_derived classes t ≡ true
  Compiles (assigns t change) = Unit

  pub step : Container V → Call V → Container V
  step c (inserts t value) = after c (insert t value c)
  step c (at_or_inserts t new value) = after c (at_or_insert classes t new value c)
  step c (removes t) = after c (remove classes t c)
  step c (assigns t change) = assign t change c

  pub run : Container V → List (Call V) → Container V
  run c [] = c
  run c (call ∷ calls) = run (step c call) calls

  abbrev pub AllCompile : List (Call V) → Type 0
  AllCompile [] = Unit
  AllCompile (call ∷ calls) = Compiles call × AllCompile calls

  abbrev pub Fits : ℕ → Component V → Type 0
  Fits base stored = classes.is_base_of base stored.dynamic_type ≡ true

  -- One component for each base type, and each of a type derived from its base type.
  pub record IsValid (c : Container V) : Type ℓ where
    pub unique : IsUnique c
    pub fitting : AllEntries Fits c

  put-IsValid :
      (base : ℕ) (k : Component V) (c : Container V)
      → Fits base k
      → IsValid c
      → IsValid (put base k c)
  put-IsValid base k c f v = record {
    unique = put-IsUnique base k c v.unique;
    fitting = put-AllEntries Fits base k c f v.fitting;
  }

  erase-IsValid : (base : ℕ) (c : Container V) → IsValid c → IsValid (erase base c)
  erase-IsValid base c v = record {
    unique = erase-IsUnique base c v.unique;
    fitting = erase-AllEntries Fits base c v.fitting;
  }

  insert-IsValid :
      (t : ComponentType) (value : V) (c : Container V)
      → is_derived classes t ≡ true
      → IsValid c
      → IsValid (after c (insert t value c))
  unfolding insert
  insert-IsValid t value c d v = elim (Option-cases (find_ t c)) [
    | inl free ↦ rw (free, insert) (put-IsValid _ (made t value) c d v)
    | inr (k, taken) ↦ rw (taken, insert) v
  ]

  insert_on-IsValid :
      (new : ComponentType) (value : V) (c : Container V) (r : Result (Component V))
      → is_derived classes new ≡ true
      → IsValid c
      → IsValid (after c (insert_on_out_of_range classes new value c r))
  unfolding insert_on_out_of_range insert_
  insert_on-IsValid new value c (throw out_of_range) d v = put-IsValid _ (made new value) c d v
  insert_on-IsValid new value c r d v = v

  remove-IsValid :
      (t : ComponentType) (c : Container V) → IsValid c → IsValid (after c (remove classes t c))
  unfolding remove
  remove-IsValid t c v = elim (Option-cases (find_ t c)) [
    | inl free ↦ rw (free, remove) v
    | inr (k, taken) ↦ elim (Bool-cases (casts_to classes t k)) [
      | inl casts ↦ rw (taken, remove) (rw casts (erase-IsValid _ c v))
      | inr other ↦ rw (taken, remove) (rw other v)
    ]
  ]

  assign-IsValid :
      (t : ComponentType) (change : V → V) (c : Container V)
      → IsValid c
      → IsValid (assign t change c)
  unfolding assign
  assign-IsValid t change c v = elim (Option-cases (lookup t.component_base_type c)) [
    | inl free ↦ rw (free, assign) v
    | inr (k, taken) ↦
        rw (taken, assign) (put-IsValid _ _ c (lookup-AllEntries Fits _ c v.fitting taken) v)
  ]

  step-IsValid :
      (c : Container V) (call : Call V) → Compiles call → IsValid c → IsValid (step c call)
  unfolding step at_or_insert
  step-IsValid c (inserts t value) d v = insert-IsValid t value c d v
  step-IsValid c (at_or_inserts t new value) d v = insert_on-IsValid new value c _ d.1 v
  step-IsValid c (removes t) d v = remove-IsValid t c v
  step-IsValid c (assigns t change) d v = assign-IsValid t change c v

  -- Calls whose static assertions hold keep a container valid: it has at most one component for each
  -- base type, each of a type derived from that base type.
  pub run-IsValid :
      (c : Container V) (calls : List (Call V))
      → AllCompile calls
      → IsValid c
      → IsValid (run c calls)
  unfolding run
  run-IsValid c [] d v = v
  run-IsValid c (call ∷ calls) d v = run-IsValid (step c call) calls d.1 (step-IsValid c call d.0 v)

  no_conflict :
      (base : ℕ) (c : Container V)
      → IsValid c
      → at classes (record { type_index = base; component_base_type = base }) c
        ≢ throw component_conflict
  unfolding at
  no_conflict base c v h = elim (Option-cases (lookup base c)) [
    | inl free ↦ ground arith
    | inr (k, taken) ↦ ground (arith, lookup-AllEntries (Fits) base c v.fitting taken)
  ]

  -- In a valid container, `remove` of a base type frees its slot and never throws.
  pub remove-base :
      (base : ℕ) (c : Container V)
      → IsValid c
      → let t : ComponentType = record { type_index = base; component_base_type = base } in
        (b : Bool) × (d : Container V) × (remove classes t c ≡ ok (b, d))
        × (at classes t d ≡ throw out_of_range)
  remove-base base c v = elim (remove_lem classes t c v.unique) [
    | inl (free, e) ↦ (false, c, e, (at-find classes t c).1.1 free)
    | inr (inl (conflict, e)) ↦ absurd (no_conflict base c v conflict)
    | inr (inr (k, found, d, e, rest)) ↦
        (true, d, e, (at-find classes t d).1.1 (rest t ∙ ground (arith, ==_refl base)))
  ]
    where
      t : ComponentType
      t = record { type_index = base; component_base_type = base }
