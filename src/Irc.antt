-- ===== src/Irc.antt =====
-- include/slirc/irc.hpp and src/irc.cpp: the modules of an IRC context. A module is the address of its
-- object; the constructor of a module is code of the caller, which gives an address or throws, and
-- itself neither loads nor unloads modules.
pub mod Laws
pub mod Lifetime
pub mod Destruction
mod Tests
use libslirc_old.Prelude.{
  ℕ, Bool, true, false, not, Option, none, some, List, [], ◌∷◌, ◌++◌, ◌==◌, if◌then◌else◌, Result,
  ok, throw, module_conflict, range_error,
}
use libslirc_old.Prelude.Assoc.{lookup, put, erase}
use libslirc_old.Prelude.Classes.{Classes}

-- A module type: its `std::type_index` and that of its `module_base_api_type`.
pub record ModuleType : Type 0 where
  pub type_index : ℕ
  pub module_base_api_type : ℕ

-- `std::unique_ptr<module_base>`: the type that the module was made as, and its address.
pub record Loaded : Type 0 where
  pub dynamic_type : ℕ
  pub address : ℕ

pub record Irc : Type 0 where
  pub modules : List (ℕ × Loaded)
  pub event_manager : Option ℕ

-- `typeid(apis::event_manager)`
abbrev pub event_manager_api : ℕ
event_manager_api = 0

-- `typeid(modules::event_manager)`
abbrev pub event_manager_module : ModuleType
event_manager_module = record { type_index = 1; module_base_api_type = event_manager_api }

-- `find_<Module>()`
unfoldable pub find_ : ModuleType → Irc → Option Loaded
find_ t c = lookup t.module_base_api_type c.modules

pub load_ : ℕ → Loaded → Irc → Irc
load_ ti loaded c = record c { modules = put ti loaded c.modules }

pub unload_ : ℕ → Irc → Bool × Irc
unload_ ti c = elim (lookup ti c.modules) [
  | none ↦ (false, c)
  | some _ ↦ (true, record c { modules = erase ti c.modules })
]

module _ (classes : Classes) where
  -- `std::is_base_of<apis::event_manager, Module>`
  abbrev pub is_event_manager : ModuleType → Bool
  is_event_manager t = classes.is_base_of event_manager_api t.type_index

  -- `dynamic_cast<Module*>` succeeds.
  abbrev pub is_of : ModuleType → Loaded → Bool
  is_of t loaded = classes.is_base_of t.type_index loaded.dynamic_type

  -- `load`, behind the check, with what the constructor gives.
  load_made : ModuleType → Result ℕ → Irc → Result (ℕ × Irc)
  unfolding load_
  load_made t (throw e) c = throw e
  load_made t (ok address) c =
      let loaded =
        load_ t.module_base_api_type (record { dynamic_type = t.type_index; address = address })
          c in
      ok (
        address,
        if is_event_manager t then record loaded { event_manager = some address } else loaded,
      )

  pub load : ModuleType → Result ℕ → Irc → Result (ℕ × Irc)
  unfolding find_ load_made
  load t constructed c = elim (find_ t c) [
    | some _ ↦ throw module_conflict
    | none ↦ load_made t constructed c
  ]

  pub unload : ModuleType → Irc → Result (Bool × Irc)
  unfolding find_ unload_
  unload t c = elim (find_ t c) [
    | none ↦ ok (false, c)
    | some loaded ↦
        if not (is_of t loaded)
        then throw module_conflict
        else ok (
            unload_ t.module_base_api_type
              (if is_event_manager t then record c { event_manager = none } else c))
  ]

  pub find : ModuleType → Irc → Option ℕ
  unfolding find_
  find t c = elim (find_ t c) [
    | none ↦ none
    | some loaded ↦ if is_of t loaded then some loaded.address else none
  ]

  pub get : ModuleType → Irc → Result ℕ
  unfolding find_
  get t c = elim (find_ t c) [
    | none ↦ throw range_error
    | some loaded ↦ if is_of t loaded then ok loaded.address else throw module_conflict
  ]

  -- `irc::irc`, with what the constructor of the event manager gives.
  pub make_irc : Result ℕ → Result (ℕ × Irc)
  unfolding load
  make_irc constructed =
      load event_manager_module constructed (record { modules = []; event_manager = none })

-- `irc::~irc`, the first loop over the map: the modules that are destroyed, and those that stay.
pub destroy_others : List (ℕ × Loaded) → List ℕ × List (ℕ × Loaded)
destroy_others [] = ([], [])
destroy_others ((ti, loaded) ∷ m) =
    let (destroyed, left) = destroy_others m in
    if ti == event_manager_api
    then (destroyed, (ti, loaded) ∷ left)
    else (loaded.address ∷ destroyed, left)

-- The second loop.
pub destroy_all : List (ℕ × Loaded) → List ℕ
destroy_all [] = []
destroy_all ((ti, loaded) ∷ m) = loaded.address ∷ destroy_all m

-- The addresses of the modules in the order of their destruction, for the map in any order.
pub destroy : List (ℕ × Loaded) → List ℕ
unfolding destroy_others destroy_all
destroy m = let (destroyed, left) = destroy_others m in destroyed ++ destroy_all left
