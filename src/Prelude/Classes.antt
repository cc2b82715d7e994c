-- ===== src/Prelude/Classes.antt =====
-- The class graph of a C++ program, as `std::is_base_of` and `dynamic_cast` read it: a class is the
-- number of its `std::type_index`. The classes of a program are given from outside the library, so
-- the graph is a parameter, with the two laws that the language gives for class types.
use Prim.Native.Nat.{ℕ}
use mathlib.Core.Path.{◌≡◌}
use mathlib.Core.Bool.{Bool, true}
use native.Mathlib.Omega.{arith}
use libslirc_old.Prelude.Tests.{◌==◌, ==_refl}

pub record Classes : Type 0 where
  -- `std::is_base_of<base, derived>`
  pub is_base_of : ℕ → ℕ → Bool
  pub base_refl : (t : ℕ) → is_base_of t t ≡ true
  pub base_trans :
      (a b c : ℕ) → is_base_of a b ≡ true → is_base_of b c ≡ true → is_base_of a c ≡ true

pub eq_trans : (a b c : ℕ) → (a == b) ≡ true → (b == c) ≡ true → (a == c) ≡ true
eq_trans a b c h k = ground arith

-- The graph of classes of which none derives from another.
abbrev pub no_inheritance : Classes
no_inheritance = record { is_base_of = ◌==◌; base_refl = ==_refl; base_trans = eq_trans }
