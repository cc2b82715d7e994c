-- ===== src/Prelude/Assoc.antt =====
-- `std::unordered_map` keyed by a `std::type_index`: an association list, in which an operation
-- reads and writes the first entry of a key. `IsUnique` says that it is the only one.
use Prim.Native.Nat.{ℕ}
use mathlib.Core.Path.{◌≡◌, refl, sym, subst, subst₂}
use mathlib.Core.Logic.{inl, inr}
use mathlib.Core.Bool.{false}
use mathlib.Core.List.{List, [], ◌∷◌}
use mathlib.Core.Option.{Option, none, some}
use native.Mathlib.Omega.{arith}
use libslirc_old.Prelude.Tests.{◌==◌, if◌then◌else◌, ==_iff, Bool-cases, ==_refl}

module _ {ℓ} {V : Type ℓ} where
  unfoldable pub lookup : ℕ → List (ℕ × V) → Option V
  lookup k [] = none
  lookup k ((j, v) ∷ m) = if j == k then some v else lookup k m

  -- `m[k] = v`
  unfoldable pub put : ℕ → V → List (ℕ × V) → List (ℕ × V)
  put k v [] = (k, v) ∷ []
  put k v ((j, w) ∷ m) = if j == k then (j, v) ∷ m else (j, w) ∷ put k v m

  -- `m.erase(m.find(k))`
  unfoldable pub erase : ℕ → List (ℕ × V) → List (ℕ × V)
  erase k [] = []
  erase k ((j, w) ∷ m) = if j == k then m else (j, w) ∷ erase k m

  abbrev pub IsUnique : List (ℕ × V) → Type ℓ
  IsUnique [] = Unit
  IsUnique ((k, v) ∷ m) = (lookup k m ≡ none) × IsUnique m

  -- Every entry has a property of its key and its value.
  abbrev pub AllEntries {κ} : (ℕ → V → Type κ) → List (ℕ × V) → Type κ
  AllEntries P [] = Unit
  AllEntries P ((k, v) ∷ m) = P k v × AllEntries P m

  pub lookup-put :
      (k j : ℕ) (v : V) (m : List (ℕ × V))
      → lookup j (put k v m) ≡ (if k == j then some v else lookup j m)
  unfolding lookup put
  lookup-put k j v [] = refl
  lookup-put k j v ((i, w) ∷ m) = ground (arith, lookup-put k j v m)

  pub lookup-put_self : (k : ℕ) (v : V) (m : List (ℕ × V)) → lookup k (put k v m) ≡ some v
  lookup-put_self k v m = ground (arith, lookup-put k k v m, ==_refl k)

  pub lookup-put_other :
      (k j : ℕ) (v : V) (m : List (ℕ × V)) → k == j ≡ false → lookup j (put k v m) ≡ lookup j m
  lookup-put_other k j v m h = ground (arith, lookup-put k j v m)

  -- A key that is not there is not that of the first entry.
  pub lookup-none :
      (k j : ℕ) (w : V) (m : List (ℕ × V))
      → lookup k ((j, w) ∷ m) ≡ none
      → (k == j ≡ false) × (lookup k m ≡ none)
  unfolding lookup
  lookup-none k j w m h = elim (Bool-cases (j == k)) [
    | inl same ↦ ground arith
    | inr different ↦ (ground arith, ground arith)
  ]

  pub lookup-erase :
      (k j : ℕ) (m : List (ℕ × V))
      → IsUnique m
      → lookup j (erase k m) ≡ (if k == j then none else lookup j m)
  unfolding lookup erase
  lookup-erase k j [] u = ground arith
  lookup-erase k j ((i, w) ∷ m) u = ground (arith, lookup-erase k j m)

  pub put-IsUnique : (k : ℕ) (v : V) (m : List (ℕ × V)) → IsUnique m → IsUnique (put k v m)
  unfolding put lookup
  put-IsUnique k v [] u = (refl, tt)
  put-IsUnique k v ((i, w) ∷ m) u = ground (arith, put-IsUnique k v m, lookup-put k i v m)

  pub erase-IsUnique : (k : ℕ) (m : List (ℕ × V)) → IsUnique m → IsUnique (erase k m)
  unfolding erase
  erase-IsUnique k [] u = tt
  erase-IsUnique k ((i, w) ∷ m) u = ground (arith, erase-IsUnique k m, lookup-erase k i m)

  pub put-AllEntries {κ} :
      (P : ℕ → V → Type κ) (k : ℕ) (v : V) (m : List (ℕ × V))
      → P k v
      → AllEntries P m
      → AllEntries P (put k v m)
  unfolding put
  put-AllEntries P k v [] p a = (p, tt)
  put-AllEntries P k v ((i, w) ∷ m) p a = elim (Bool-cases (i == k)) [
    | inl same ↦ rw same (subst (λ j. P j v) (sym ((==_iff i k).0 same)) p, a.1)
    | inr other ↦ rw other (a.0, put-AllEntries P k v m p a.1)
  ]

  pub erase-AllEntries {κ} :
      (P : ℕ → V → Type κ) (k : ℕ) (m : List (ℕ × V)) → AllEntries P m → AllEntries P (erase k m)
  unfolding erase
  erase-AllEntries P k [] a = tt
  erase-AllEntries P k ((i, w) ∷ m) a = elim (Bool-cases (i == k)) [
    | inl same ↦ rw same a.1
    | inr other ↦ rw other (a.0, erase-AllEntries P k m a.1)
  ]

  pub lookup-AllEntries {κ} :
      (P : ℕ → V → Type κ) (k : ℕ) (m : List (ℕ × V)) {v : V}
      → AllEntries P m
      → lookup k m ≡ some v
      → P k v
  unfolding lookup
  lookup-AllEntries P k [] a e = absurd (cc)
  lookup-AllEntries P k ((i, w) ∷ m) {v} a e = elim (Bool-cases (i == k)) [
    | inl same ↦ subst₂ P ((==_iff i k).0 same) (ground arith) a.0
    | inr other ↦ lookup-AllEntries P k m a.1 (rw other at e)
  ]
