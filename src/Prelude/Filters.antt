-- ===== src/Prelude/Filters.antt =====
-- Lists from which elements are removed, and that are counted.
use Prim.Native.Nat.{ℕ, zero, suc, ◌+◌, ◌-◌, ◌≤◌, ◌<◌}
use mathlib.Core.Path.{◌≡◌, refl, ap, ◌∙◌}
use mathlib.Core.Logic.{◌↔◌, inl, inr}
use mathlib.Core.Bool.{Bool, true, false, ◌||◌}
use mathlib.Core.List.{List, [], ◌∷◌, ◌++◌}
use native.Mathlib.Omega.{arith}
use libslirc_old.Prelude.Tests.{if◌then◌else◌, Bool-cases, ◌==◌}
use libslirc_old.Prelude.Lists.{
  length, take, drop, remove_if, any, all, copy_to, remove_if-none, length-remove_if_lt,
}

module _ {ℓ} {A : Type ℓ} where
  pub remove_if_congr :
      (p r : A → Bool) (xs : List A) → ((x : A) → p x ≡ r x) → remove_if p xs ≡ remove_if r xs
  remove_if_congr p r [] h = refl
  remove_if_congr p r (x ∷ xs) h = ground (arith, h x, remove_if_congr p r xs h)

  pub remove_if-remove_if :
      (p r : A → Bool) (xs : List A) → remove_if p (remove_if r xs) ≡ remove_if (λ x. r x || p x) xs
  remove_if-remove_if p r [] = refl
  remove_if-remove_if p r (x ∷ xs) = ground (arith, remove_if-remove_if p r xs)

  pub all-remove_if :
      (p r : A → Bool) (xs : List A) → all p xs ≡ true → all p (remove_if r xs) ≡ true
  all-remove_if p r [] h = refl
  all-remove_if p r (x ∷ xs) h = ground (arith, all-remove_if p r xs)

  pub all-remove_if_not :
      (p r : A → Bool) (xs : List A)
      → ((x : A) → r x ≡ false → p x ≡ true)
      → all p (remove_if r xs) ≡ true
  all-remove_if_not p r [] h = refl
  all-remove_if_not p r (x ∷ xs) h = ground (arith, h x, all-remove_if_not p r xs h)

  pub all-drop : (p : A → Bool) (n : ℕ) (xs : List A) → all p xs ≡ true → all p (drop n xs) ≡ true
  all-drop p zero xs h = h
  all-drop p (suc n) [] h = refl
  all-drop p (suc n) (x ∷ xs) h = all-drop p n xs (ground arith)

  pub all-take : (p : A → Bool) (n : ℕ) (xs : List A) → all p xs ≡ true → all p (take n xs) ≡ true
  all-take p zero xs h = refl
  all-take p (suc n) [] h = refl
  all-take p (suc n) (x ∷ xs) h = ground (arith, all-take p n xs)

  pub all-copy_to :
      (p : A → Bool) (xs : List A) (at : ℕ) (ys : List A)
      → all p xs ≡ true
      → all p ys ≡ true
      → all p (copy_to xs at ys) ≡ true
  all-copy_to p [] at ys h k = refl
  all-copy_to p (x ∷ xs) (suc at) ys h k = ground (arith, all-copy_to p xs at ys)
  all-copy_to p (x ∷ xs) zero [] h k = h
  all-copy_to p (x ∷ xs) zero (y ∷ ys) h k = ground (arith, all-copy_to p xs zero ys)

  -- How many elements match.
  abbrev pub count_if : (A → Bool) → List A → ℕ
  count_if p [] = 0
  count_if p (x ∷ xs) = (if p x then 1 else 0) + count_if p xs

  pub length-remove_if-count_if :
      (p : A → Bool) (xs : List A) → length (remove_if p xs) + count_if p xs ≡ length xs
  length-remove_if-count_if p [] = omega arith
  length-remove_if-count_if p (x ∷ xs) = ground (arith, length-remove_if-count_if p xs)

  pub drop-append_ge :
      (n : ℕ) (xs ys : List A) → length xs ≤ n → drop n (xs ++ ys) ≡ drop (n - length xs) ys
  drop-append_ge n [] ys h = ap (λ k. drop k ys) (omega arith)
  drop-append_ge zero (x ∷ xs) ys h = absurd (omega arith)
  drop-append_ge (suc n) (x ∷ xs) ys h =
      drop-append_ge n xs ys (omega arith) ∙ ap (λ k. drop k ys) (omega arith)

  pub count_if-append :
      (p : A → Bool) (xs ys : List A) → count_if p (xs ++ ys) ≡ count_if p xs + count_if p ys
  count_if-append p [] ys = omega arith
  count_if-append p (x ∷ xs) ys = omega (arith, count_if-append p xs ys)

  pub count_if-any : (p : A → Bool) (xs : List A) → (any p xs ≡ true) ↔ (0 < count_if p xs)
  count_if-any p [] = (λ h. absurd (cc), λ h. absurd (omega arith))
  count_if-any p (x ∷ xs) =
      (λ h. ground (arith, count_if-any p xs), λ h. ground (arith, count_if-any p xs))

  pub remove_if_of_length :
      (p : A → Bool) (xs : List A) → length (remove_if p xs) ≡ length xs → remove_if p xs ≡ xs
  remove_if_of_length p xs h = elim (Bool-cases (any p xs)) [
    | inl some_match ↦ absurd (omega (arith, length-remove_if_lt p xs some_match))
    | inr no_match ↦ remove_if-none p xs no_match
  ]

-- How often a number stands in a list.
abbrev pub count : ℕ → List ℕ → ℕ
count a = count_if (λ x. x == a)

pub count-append : (a : ℕ) (xs ys : List ℕ) → count a (xs ++ ys) ≡ count a xs + count a ys
count-append a = count_if-append (λ x. x == a)
