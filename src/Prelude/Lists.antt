-- ===== src/Prelude/Lists.antt =====
-- Lists measured and indexed by native numbers, and the standard algorithms that the sources call.
use Prim.Native.Nat.{ℕ, zero, suc, ◌+◌, ◌-◌, ◌≤◌, ◌<◌}
use mathlib.Core.Path.{◌≡◌, refl, sym, ap, ◌∙◌}
use mathlib.Core.Bool.{Bool, true, false, ◌||◌, ◌&&◌}
use mathlib.Core.List.{List, [], ◌∷◌, ◌++◌}
use mathlib.Core.Option.{Option, none, some}
use native.Mathlib.Omega.{arith}
use native.Mathlib.Nat.{suc-add, zero-add}
use libslirc_old.Prelude.Tests.{if◌then◌else◌}

module _ {ℓ} {A : Type ℓ} where
  abbrev pub length : List A → ℕ
  length [] = 0
  length (x ∷ xs) = suc (length xs)

  abbrev pub take : ℕ → List A → List A
  take zero xs = []
  take (suc n) [] = []
  take (suc n) (x ∷ xs) = x ∷ take n xs

  abbrev pub drop : ℕ → List A → List A
  drop zero xs = xs
  drop (suc n) [] = []
  drop (suc n) (x ∷ xs) = drop n xs

  abbrev pub get_elem? : List A → ℕ → Option A
  get_elem? [] i = none
  get_elem? (x ∷ xs) zero = some x
  get_elem? (x ∷ xs) (suc i) = get_elem? xs i

  abbrev pub replicate : ℕ → A → List A
  replicate zero a = []
  replicate (suc n) a = a ∷ replicate n a

  -- `std::remove_if` with the `erase` of the tail behind it.
  abbrev pub remove_if : (A → Bool) → List A → List A
  remove_if p [] = []
  remove_if p (x ∷ xs) = let rest = remove_if p xs in if p x then rest else x ∷ rest

  -- `std::find_if(...) != end()`.
  abbrev pub any : (A → Bool) → List A → Bool
  any p [] = false
  any p (x ∷ xs) = p x || any p xs

  abbrev pub all : (A → Bool) → List A → Bool
  all p [] = true
  all p (x ∷ xs) = p x && all p xs

  -- `std::copy` of a list to the position `at` of another; writes beyond its end are dropped.
  abbrev pub copy_to : List A → ℕ → List A → List A
  copy_to [] at ys = []
  copy_to (x ∷ xs) (suc at) ys = x ∷ copy_to xs at ys
  copy_to (x ∷ xs) zero [] = x ∷ xs
  copy_to (x ∷ xs) zero (y ∷ ys) = y ∷ copy_to xs zero ys

  pub length-append : (xs ys : List A) → length (xs ++ ys) ≡ length xs + length ys
  length-append [] ys = omega arith
  length-append (x ∷ xs) ys = omega (arith, length-append xs ys)

  pub length-drop : (n : ℕ) (xs : List A) → length (drop n xs) ≡ length xs - n
  length-drop zero xs = omega arith
  length-drop (suc n) [] = omega arith
  length-drop (suc n) (x ∷ xs) = omega (arith, length-drop n xs)

  pub length-remove_if : (p : A → Bool) (xs : List A) → length (remove_if p xs) ≤ length xs
  length-remove_if p [] = omega arith
  length-remove_if p (x ∷ xs) = ground (arith, length-remove_if p xs)

  pub length-copy_to : (xs : List A) (at : ℕ) (ys : List A) → length (copy_to xs at ys) ≡ length xs
  length-copy_to [] at ys = refl
  length-copy_to (x ∷ xs) (suc at) ys = ap suc (length-copy_to xs at ys)
  length-copy_to (x ∷ xs) zero [] = refl
  length-copy_to (x ∷ xs) zero (y ∷ ys) = ap suc (length-copy_to xs zero ys)

  drop-nil : (n : ℕ) → drop n [] ≡ []
  drop-nil zero = refl
  drop-nil (suc n) = refl

  pub drop-drop : (i j : ℕ) (xs : List A) → drop j (drop i xs) ≡ drop (i + j) xs
  drop-drop zero j xs = ap (λ n. drop n xs) (omega arith)
  drop-drop (suc i) j [] = drop-nil j ∙ sym (drop-nil (suc i + j))
  drop-drop (suc i) j (x ∷ xs) =
      let more : suc (i + j) ≡ suc i + j = omega arith in
      drop-drop i j xs ∙ ap (λ n. drop n (x ∷ xs)) more

  pub take-append-drop : (n : ℕ) (xs : List A) → take n xs ++ drop n xs ≡ xs
  take-append-drop zero xs = refl
  take-append-drop (suc n) [] = refl
  take-append-drop (suc n) (x ∷ xs) = ap (◌∷◌ x) (take-append-drop n xs)

  pub length-take : (n : ℕ) (xs : List A) → n ≤ length xs → length (take n xs) ≡ n
  length-take zero xs h = refl
  length-take (suc n) [] h = absurd (omega arith)
  length-take (suc n) (x ∷ xs) h = ap suc (length-take n xs (omega arith))

  pub drop-append : (xs ys : List A) → drop (length xs) (xs ++ ys) ≡ ys
  drop-append [] ys = refl
  drop-append (x ∷ xs) ys = drop-append xs ys

  pub take-append : (xs ys : List A) → take (length xs) (xs ++ ys) ≡ xs
  take-append [] ys = refl
  take-append (x ∷ xs) ys = ap (◌∷◌ x) (take-append xs ys)

  pub drop-append_le :
      (n : ℕ) (xs ys : List A) → n ≤ length xs → drop n (xs ++ ys) ≡ drop n xs ++ ys
  drop-append_le zero xs ys h = refl
  drop-append_le (suc n) [] ys h = absurd (omega arith)
  drop-append_le (suc n) (x ∷ xs) ys h = drop-append_le n xs ys (omega arith)

  pub remove_if-append :
      (p : A → Bool) (xs ys : List A) → remove_if p (xs ++ ys) ≡ remove_if p xs ++ remove_if p ys
  remove_if-append p [] ys = refl
  remove_if-append p (x ∷ xs) ys = ground (arith, remove_if-append p xs ys)

  -- Nothing is removed exactly when nothing matches.
  pub remove_if-none : (p : A → Bool) (xs : List A) → any p xs ≡ false → remove_if p xs ≡ xs
  remove_if-none p [] h = refl
  remove_if-none p (x ∷ xs) h = ground (arith, remove_if-none p xs)

  pub length-remove_if_lt :
      (p : A → Bool) (xs : List A) → any p xs ≡ true → length (remove_if p xs) < length xs
  length-remove_if_lt p [] h = absurd (cc)
  length-remove_if_lt p (x ∷ xs) h = ground (arith, length-remove_if_lt p xs, length-remove_if p xs)

  -- `std::copy` in range replaces just the elements that it writes.
  pub drop-copy_to :
      (xs : List A) (at : ℕ) (ys : List A)
      → at + length ys ≤ length xs
      → drop at (copy_to xs at ys) ≡ ys ++ drop (at + length ys) xs
  drop-copy_to [] zero [] h = refl
  drop-copy_to [] zero (y ∷ ys) h = absurd (omega arith)
  drop-copy_to [] (suc at) ys h = absurd (omega arith)
  drop-copy_to (x ∷ xs) zero [] h = refl
  drop-copy_to (x ∷ xs) zero (y ∷ ys) h =
      rw zero-add (ap (◌∷◌ y) (rw zero-add at (drop-copy_to xs zero ys (omega arith))))
  drop-copy_to (x ∷ xs) (suc at) ys h =
      rw (suc-add at (length ys)) (drop-copy_to xs at ys (omega arith))

  pub take-copy_to :
      (xs ys : List A) → length ys ≤ length xs → take (length ys) (copy_to xs zero ys) ≡ ys
  take-copy_to xs [] h = refl
  take-copy_to [] (y ∷ ys) h = absurd (omega arith)
  take-copy_to (x ∷ xs) (y ∷ ys) h = ap (◌∷◌ y) (take-copy_to xs ys (omega arith))

  -- The element at an index heads what is left from there.
  pub get_elem?-drop :
      (xs : List A) (i : ℕ)
      → i < length xs
      → (x : A) × (get_elem? xs i ≡ some x) × (drop i xs ≡ x ∷ drop (i + 1) xs)
  get_elem?-drop [] i h = absurd (omega arith)
  get_elem?-drop (x ∷ xs) zero h = (x, refl, refl)
  get_elem?-drop (x ∷ xs) (suc i) h =
      let (y, e, d) = get_elem?-drop xs i (omega arith) in (y, e, rw (suc-add i 1) d)

  pub drop_all : (n : ℕ) (xs : List A) → length xs ≤ n → drop n xs ≡ []
  drop_all zero [] h = refl
  drop_all zero (x ∷ xs) h = absurd (omega arith)
  drop_all (suc n) [] h = refl
  drop_all (suc n) (x ∷ xs) h = drop_all n xs (omega arith)

  pub any-append : (p : A → Bool) (xs ys : List A) → any p (xs ++ ys) ≡ (any p xs || any p ys)
  any-append p [] ys = refl
  any-append p (x ∷ xs) ys = ground (arith, any-append p xs ys)

  pub all-append : (p : A → Bool) (xs ys : List A) → all p (xs ++ ys) ≡ (all p xs && all p ys)
  all-append p [] ys = refl
  all-append p (x ∷ xs) ys = ground (arith, all-append p xs ys)

  -- Room made behind a list and then written takes just what is written.
  pub copy_to-append :
      (xs : List A) (d : A) (ys : List A)
      → copy_to (xs ++ replicate (length ys) d) (length xs) ys ≡ xs ++ ys
  copy_to-append [] d [] = refl
  copy_to-append [] d (y ∷ ys) = ap (◌∷◌ y) (copy_to-append [] d ys)
  copy_to-append (x ∷ xs) d ys = ap (◌∷◌ x) (copy_to-append xs d ys)

  pub drop-take-append : (n : ℕ) (xs ys : List A) → n ≤ length xs → drop n (take n xs ++ ys) ≡ ys
  drop-take-append zero xs ys h = refl
  drop-take-append (suc n) [] ys h = absurd (omega arith)
  drop-take-append (suc n) (x ∷ xs) ys h = drop-take-append n xs ys (omega arith)
