-- ===== src/Prelude/Vector.antt =====
-- `std::vector`: its elements and its capacity. How the capacity grows is up to the implementation,
-- a parameter `grow` of the capacity and the size that is needed.
use libslirc_old.Prelude.Lists.{length, take, replicate}
use libslirc_old.Prelude.Tests.{ltb, if◌then◌else◌}
use Prim.Native.Nat.{ℕ, ◌+◌, ◌-◌}
use mathlib.Core.List.{List, [], ◌++◌}

pub record Vector {ℓ} (A : Type ℓ) : Type ℓ where
  pub items : List A
  pub capacity : ℕ

module _ {ℓ} {A : Type ℓ} where
  abbrev pub empty : Vector A
  empty = record { items = []; capacity = 0 }

  abbrev pub size : Vector A → ℕ
  size v = length v.items

  -- `insert` at the end, and `push_back`.
  abbrev pub append : (ℕ → ℕ → ℕ) → Vector A → List A → Vector A
  append grow v xs = record v {
    items = v.items ++ xs;
    capacity =
        if ltb v.capacity (length v.items + length xs)
        then grow v.capacity (length v.items + length xs)
        else v.capacity;
  }

  -- `resize` to no more than the size, and `erase` up to the end: the capacity stays.
  abbrev pub truncate : Vector A → ℕ → Vector A
  truncate v n = record v { items = take n v.items }

  -- `resize` to no less than the size: the new elements are copies of `d`.
  abbrev pub resize : (ℕ → ℕ → ℕ) → A → Vector A → ℕ → Vector A
  resize grow d v n = append grow v (replicate (n - length v.items) d)
