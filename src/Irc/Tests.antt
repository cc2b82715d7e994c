-- ===== src/Irc/Tests.antt =====
-- irc.hpp: a context with the event manager and a connection module (the API type 2, the module 3).
use libslirc_old.Prelude.{
  ℕ, ◌≡◌, refl, ◌≢◌, ◌↔◌, ◌⊎◌, Bool, true, false, ◌||◌, ◌&&◌, List, [], ◌∷◌, ◌++◌, some, none, ◌==◌,
  Result, ok, throw, Exception, module_conflict, range_error, arith, ==_refl, count,
}
use libslirc_old.Prelude.Assoc.{lookup, IsUnique}
use libslirc_old.Prelude.Classes.{Classes}
use libslirc_old.Irc.{
  ModuleType, Loaded, Irc, event_manager_api, event_manager_module, find_, load, unload, find, get,
  make_irc, destroy,
}
use libslirc_old.Irc.Lifetime.{IsValid, Reach, here, loads, unloads, context-IsValid}
use libslirc_old.Irc.Destruction.{addresses, destroy_lem}

abbrev derives : ℕ → ℕ → Bool
derives b d = b == d || b == 0 && d == 1 || b == 2 && d == 3

derives_refl : (t : ℕ) → derives t t ≡ true
derives_refl t = ground (arith, ==_refl t)

derives_trans : (a b c : ℕ) → derives a b ≡ true → derives b c ≡ true → derives a c ≡ true
derives_trans a b c h k = ground arith

abbrev classes : Classes
classes = record { is_base_of = derives; base_refl = derives_refl; base_trans = derives_trans }

abbrev connection_module : ModuleType
connection_module = record { type_index = 3; module_base_api_type = 2 }

abbrev constructed : Result ℕ
constructed = ok 60

abbrev manager_at : ℕ → Loaded
manager_at a = record { dynamic_type = 1; address = a }

abbrev connection_at : ℕ → Loaded
connection_at a = record { dynamic_type = 3; address = a }

abbrev started : Irc
started = record { modules = (0, manager_at 50) ∷ []; event_manager = some 50 }

abbrev connected : Irc
connected = record started { modules = (0, manager_at 50) ∷ (2, connection_at 60) ∷ [] }

abbrev without_manager : Irc
without_manager = record { modules = (2, connection_at 60) ∷ []; event_manager = none }

connected-IsUnique : IsUnique connected.modules
unfolding lookup
connected-IsUnique = (refl, (refl, tt))

destroyed : destroy connected.modules ≡ 60 ∷ 50 ∷ []
unfolding destroy libslirc_old.Irc.destroy_others libslirc_old.Irc.destroy_all
destroyed = refl

connected-Reach : Reach classes without_manager
unfolding make_irc load unload libslirc_old.Irc.load_made libslirc_old.Irc.load_
    libslirc_old.Irc.unload_ find_ lookup libslirc_old.Prelude.Assoc.put
    libslirc_old.Prelude.Assoc.erase
connected-Reach =
    unloads {c = connected} event_manager_module true
      (loads {c = started} connection_module (ok 60) 60 (here (ok 50) 50 (refl, refl) refl)
        (refl, refl) refl)
      (refl, refl) refl

context-IsValid_example : IsValid classes without_manager
context-IsValid_example = context-IsValid classes connected-Reach

destroy_lem_example :
    ((a : ℕ) → count a (destroy connected.modules) ≡ count a (addresses connected.modules))
    × ((k : Loaded)
        → lookup event_manager_api connected.modules ≡ some k
        → (others : List ℕ) × (destroy connected.modules ≡ others ++ k.address ∷ []))
destroy_lem_example = destroy_lem connected.modules connected-IsUnique
