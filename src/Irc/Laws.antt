-- ===== src/Irc/Laws.antt =====
-- include/slirc/irc.hpp: what each operation on the modules returns, and what the other slots keep.
use libslirc_old.Prelude.{
  ℕ, ◌≡◌, refl, ◌≢◌, ◌↔◌, ◌⊎◌, inl, inr, true, false, Option, none, some, arith, Exception, Result,
  ok, throw, module_conflict, range_error, ◌==◌, if◌then◌else◌, Option-cases, Bool-cases,
}
use libslirc_old.Prelude.Assoc.{put, erase, lookup-put, lookup-erase, IsUnique}
use libslirc_old.Prelude.Classes.{Classes}
use libslirc_old.Irc.{
  ModuleType, Loaded, Irc, find_, load, load_made, unload, find, get, is_of, is_event_manager,
  load_, unload_,
}

-- A slot's content after a write to the slot of another type, which may be the same.
abbrev pub written : ModuleType → Option Loaded → Irc → ModuleType → Option Loaded
written t content c u =
    if t.module_base_api_type == u.module_base_api_type then content else find_ u c

module _ (classes : Classes) where
  -- `get` returns what `find` finds. It throws range_error exactly when the slot is free, and
  -- module_conflict exactly when `find` finds nothing in a taken slot.
  pub get-find :
      (t : ModuleType) (c : Irc)
      → ((a : ℕ) → (get classes t c ≡ ok a) ↔ (find classes t c ≡ some a))
        × ((get classes t c ≡ throw range_error) ↔ (find_ t c ≡ none))
        × ((get classes t c ≡ throw module_conflict)
            ↔ ((find_ t c ≢ none) × (find classes t c ≡ none)))
  unfolding get find
  get-find t c = (
    λ a. (λ h. ground arith, λ h. ground arith),
    (λ h. ground arith, λ h. ground arith),
    (λ h. (λ e. ground arith, ground arith), λ h. ground arith),
  )

  abbrev Loads : ModuleType → Result ℕ → Irc → Type 0
  Loads t constructed c =
      ((find_ t c ≡ none)
        × (e : Exception) × (constructed ≡ throw e)
        × (load classes t constructed c ≡ throw e))
      ⊎ ((find_ t c ≡ none)
          × (a : ℕ) × (constructed ≡ ok a)
          × (d : Irc) × (load classes t constructed c ≡ ok (a, d))
          × ((u : ModuleType)
              → find_ u d
                ≡ written t (some (record { dynamic_type = t.type_index; address = a })) c u))

  abbrev filled : ModuleType → ℕ → Irc → Irc
  filled t a c = record {
    modules =
        put t.module_base_api_type (record { dynamic_type = t.type_index; address = a }) c.modules;
    event_manager = if is_event_manager classes t then some a else c.event_manager;
  }

  abbrev erased : ModuleType → Irc → Irc
  erased t c = record {
    modules = erase t.module_base_api_type c.modules;
    event_manager = if is_event_manager classes t then none else c.event_manager;
  }

  loads :
      (t : ModuleType) (constructed : Result ℕ) (c : Irc) → find_ t c ≡ none → Loads t constructed c
  unfolding load load_made load_
  loads t (throw e) c free = inl (free, e, refl, ground arith)
  loads t (ok a) c free =
      let loaded : Loaded = record { dynamic_type = t.type_index; address = a } in
      inr (
        free,
        a,
        refl,
        filled t a c,
        ground arith,
        λ u. lookup-put t.module_base_api_type u.module_base_api_type loaded c.modules,
      )

  -- `load` throws module_conflict if the slot of the API type is taken, whatever the constructor
  -- would do. Otherwise it throws what the constructor throws, or it returns the constructed module,
  -- which fills that slot, and keeps every other slot.
  pub load_lem :
      (t : ModuleType) (constructed : Result ℕ) (c : Irc)
      → ((find_ t c ≢ none) × (load classes t constructed c ≡ throw module_conflict))
        ⊎ ((find_ t c ≡ none)
            × (e : Exception) × (constructed ≡ throw e)
            × (load classes t constructed c ≡ throw e))
        ⊎ ((find_ t c ≡ none)
            × (a : ℕ) × (constructed ≡ ok a)
            × (d : Irc) × (load classes t constructed c ≡ ok (a, d))
            × ((u : ModuleType)
                → find_ u d
                  ≡ written t (some (record { dynamic_type = t.type_index; address = a })) c u))
  unfolding load load_made load_
  load_lem t constructed c = elim (Option-cases (find_ t c)) [
    | inr (k, taken) ↦ inl (λ e. cc, ground arith)
    | inl free ↦ inr (loads t constructed c free)
  ]

  -- `unload` returns false on a free slot and changes nothing. It throws module_conflict where `get`
  -- does, and otherwise returns true, frees that slot and keeps every other slot.
  pub unload_lem :
      (t : ModuleType) (c : Irc)
      → IsUnique c.modules
      → ((find_ t c ≡ none) × (unload classes t c ≡ ok (false, c)))
        ⊎ ((get classes t c ≡ throw module_conflict) × (unload classes t c ≡ throw module_conflict))
        ⊎ ((a : ℕ) × (get classes t c ≡ ok a)
            × (d : Irc) × (unload classes t c ≡ ok (true, d))
            × ((u : ModuleType) → find_ u d ≡ written t none c u))
  unfolding unload unload_ get
  unload_lem t c v = elim (Option-cases (find_ t c)) [
    | inl free ↦ inl (free, ground arith)
    | inr (k, taken) ↦ elim (Bool-cases (is_of classes t k)) [
      | inr other ↦ inr (inl (ground arith, ground arith))
      | inl derived ↦ inr (
          inr (
            k.address,
            ground arith,
            erased t c,
            ground arith,
            λ u. lookup-erase t.module_base_api_type u.module_base_api_type c.modules v,
          ))
    ]
  ]
