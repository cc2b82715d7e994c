-- ===== src/Irc/Lifetime.antt =====
-- include/slirc/irc.hpp and src/irc.cpp: an IRC context whose modules are loaded and unloaded.
use libslirc_old.Prelude.{
  ℕ, ◌≡◌, refl, sym, ap, ◌∙◌, ◌↔◌, ◌≢◌, range_error, inl, inr, Bool, true, false, Option, none,
  some, [], arith, Result, ok, throw, module_conflict, ◌==◌, if◌then◌else◌, Option-cases,
  Bool-cases, subst,
}
use libslirc_old.Prelude.Assoc.{
  lookup, put, erase, IsUnique, AllEntries, put-IsUnique, erase-IsUnique, put-AllEntries,
  erase-AllEntries, lookup-AllEntries, lookup-put, lookup-erase,
}
use libslirc_old.Prelude.Classes.{Classes}
use libslirc_old.Irc.{
  ModuleType, Loaded, Irc, event_manager_api, event_manager_module, is_event_manager, is_of, find_,
  load_, unload_, load, load_made, unload, get, make_irc,
}

abbrev pub addressed : Option Loaded → Option ℕ
addressed none = none
addressed (some loaded) = some loaded.address

abbrev pub api : ModuleType
api = record { type_index = event_manager_api; module_base_api_type = event_manager_api }

module _ (classes : Classes) where
  -- The static assertions of a call, and that a class derived from `apis::event_manager` has the
  -- `module_base_api_type` that it inherits.
  abbrev pub IsModule : ModuleType → Type 0
  IsModule t =
      (classes.is_base_of t.module_base_api_type t.type_index ≡ true)
      × (is_event_manager classes t ≡ (t.module_base_api_type == event_manager_api))

  abbrev pub Fits : ℕ → Loaded → Type 0
  Fits slot loaded = classes.is_base_of slot loaded.dynamic_type ≡ true

  -- One module for each API type, each derived from it, and the pointer to the event manager is that
  -- of its slot.
  pub record IsValid (c : Irc) : Type 0 where
    pub unique : IsUnique c.modules
    pub fitting : AllEntries Fits c.modules
    pub manager : c.event_manager ≡ addressed (lookup event_manager_api c.modules)

  pub data Reach : Irc → Type 0 where
    here :
        {c : Irc} (constructed : Result ℕ) (a : ℕ)
        → IsModule event_manager_module
        → make_irc classes constructed ≡ ok (a, c)
        → Reach c
    loads :
        {c d : Irc} (t : ModuleType) (constructed : Result ℕ) (a : ℕ)
        → Reach c
        → IsModule t
        → load classes t constructed c ≡ ok (a, d)
        → Reach d
    unloads :
        {c d : Irc} (t : ModuleType) (b : Bool)
        → Reach c
        → IsModule t
        → unload classes t c ≡ ok (b, d)
        → Reach d

  -- What is left by a call that returns.
  abbrev Keeps {ℓ} : {A : Type ℓ} → Result (A × Irc) → Type 0
  Keeps (ok (_, d)) = IsValid d
  Keeps (throw e) = Unit

  put-IsValid :
      (t : ModuleType) (a : ℕ) (c : Irc)
      → IsModule t
      → IsValid c
      → IsValid (record {
        modules =
            put t.module_base_api_type
              (record { dynamic_type = t.type_index; address = a })
              c.modules;
        event_manager = if is_event_manager classes t then some a else c.event_manager;
      })
  put-IsValid t a c s v =
      let loaded : Loaded = record { dynamic_type = t.type_index; address = a } in
      record {
        unique = put-IsUnique t.module_base_api_type loaded c.modules v.unique;
        fitting = put-AllEntries Fits t.module_base_api_type loaded c.modules s.0 v.fitting;
        manager = ground (
          arith,
          v.manager,
          s.1,
          lookup-put t.module_base_api_type event_manager_api loaded c.modules,
        );
      }

  erase-IsValid :
      (t : ModuleType) (c : Irc)
      → IsModule t
      → IsValid c
      → IsValid (record {
        modules = erase t.module_base_api_type c.modules;
        event_manager = if is_event_manager classes t then none else c.event_manager;
      })
  erase-IsValid t c s v = record {
    unique = erase-IsUnique t.module_base_api_type c.modules v.unique;
    fitting = erase-AllEntries Fits t.module_base_api_type c.modules v.fitting;
    manager = ground (
      arith,
      v.manager,
      s.1,
      lookup-erase t.module_base_api_type event_manager_api c.modules v.unique,
    );
  }

  load-Keeps :
      (t : ModuleType) (constructed : Result ℕ) (c : Irc)
      → IsModule t
      → IsValid c
      → Keeps (load classes t constructed c)
  unfolding load load_made load_ find_
  load-Keeps t constructed c s v = elim (Option-cases (find_ t c)) [
    | inr (k, taken) ↦
        let e : load classes t constructed c ≡ throw module_conflict = ground arith in
        subst Keeps (sym e) tt
    | inl free ↦
        let e : load classes t constructed c ≡ load_made classes t constructed c = ground arith in
        subst Keeps (sym e) (made constructed)
  ]
    where
      made : (r : Result ℕ) → Keeps (load_made classes t r c)
      made (throw e) = tt
      made (ok a) = elim (Bool-cases (is_event_manager classes t)) [
        | inl manages ↦ subst IsValid (ground arith) (put-IsValid t a c s v)
        | inr other ↦ subst IsValid (ground arith) (put-IsValid t a c s v)
      ]

  unload-Keeps : (t : ModuleType) (c : Irc) → IsModule t → IsValid c → Keeps (unload classes t c)
  unfolding unload unload_ find_
  unload-Keeps t c s v = elim (Option-cases (find_ t c)) [
    | inl free ↦ let e : unload classes t c ≡ ok (false, c) = ground arith in subst Keeps (sym e) v
    | inr (k, taken) ↦ elim (Bool-cases (is_of classes t k)) [
      | inr other ↦
          let e : unload classes t c ≡ throw module_conflict = ground arith in
          subst Keeps (sym e) tt
      | inl derived ↦
          let d : Irc = record {
            modules = erase t.module_base_api_type c.modules;
            event_manager = if is_event_manager classes t then none else c.event_manager;
          } in
          let e : unload classes t c ≡ ok (true, d) = ground arith in
          subst Keeps (sym e) (erase-IsValid t c s v)
    ]
  ]

  returned-Keeps {ℓ} :
      {A : Type ℓ} (r : Result (A × Irc)) {a : A} {d : Irc} → r ≡ ok (a, d) → Keeps r → IsValid d
  returned-Keeps r e k = subst Keeps e k

  -- In a context that was made and then only changed by `load` and `unload`, each API type has at
  -- most one module, which is derived from it, and the pointer behind `event_manager()` is that of
  -- the module in the slot of `apis::event_manager`, or null if the slot is free.
  pub context-IsValid : {c : Irc} → Reach c → IsValid c
  unfolding make_irc lookup
  context-IsValid (here constructed a s e) = returned-Keeps (make_irc classes constructed) e (
      load-Keeps event_manager_module constructed (record { modules = []; event_manager = none }) s
        (record { unique = tt; fitting = tt; manager = refl }))
  context-IsValid (loads {c} t constructed a r s e) =
      returned-Keeps (load classes t constructed c) e
        (load-Keeps t constructed c s (context-IsValid r))
  context-IsValid (unloads {c} t b r s e) =
      returned-Keeps (unload classes t c) e (unload-Keeps t c s (context-IsValid r))

  -- In a valid context `event_manager()` is the module that `get<apis::event_manager>()` returns, and
  -- is null exactly when that throws range_error; it never throws module_conflict.
  pub event_manager-get :
      (c : Irc)
      → IsValid c
      → ((a : ℕ) → (get classes api c ≡ ok a) ↔ (c.event_manager ≡ some a))
        × ((get classes api c ≡ throw range_error) ↔ (c.event_manager ≡ none))
        × (get classes api c ≢ throw module_conflict)
  unfolding get find_
  event_manager-get c v = elim (Option-cases (find_ api c)) [
    | inl free ↦
        let empty : c.event_manager ≡ none = v.manager ∙ ap addressed free in
        (
          λ a. (λ h. ground arith, λ h. ground arith),
          (λ h. empty, λ h. ground arith),
          λ h. ground arith,
        )
    | inr (k, taken) ↦
        let held : c.event_manager ≡ some k.address = v.manager ∙ ap addressed taken in
        let derived : is_of classes api k ≡ true =
          lookup-AllEntries Fits event_manager_api c.modules v.fitting taken in
        (
          λ a. (λ h. ground arith, λ h. ground arith),
          (λ h. ground arith, λ h. ground arith),
          λ h. ground arith,
        )
  ]
