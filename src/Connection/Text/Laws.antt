-- ===== src/Connection/Text/Laws.antt =====
-- The searches in a text that is put together from parts.
use libslirc_old.Prelude.{
  ℕ, zero, suc, ◌≤◌, ◌≡◌, refl, ap, Bool, true, false, List, [], ◌∷◌, ◌++◌, Option, none, some,
  arith, ◌==◌, length, take, get_elem?, any,
}
use libslirc_old.Connection.Text.{codes, shifted, find_if, starts_with, find_word, find_last_if}

abbrev pub is_char : ℕ → ℕ → Bool
is_char c d = d == c

pub find_if-none : (p : ℕ → Bool) (s : List ℕ) → any p s ≡ false → find_if p s ≡ none
find_if-none p [] h = refl
find_if-none p (c ∷ s) h = ground (arith, find_if-none p s)

shifted_zero : (found : Option ℕ) → found ≡ shifted 0 found
shifted_zero none = refl
shifted_zero (some i) = ap some (omega arith)

pub find_if-append :
    (p : ℕ → Bool) (s t : List ℕ)
    → any p s ≡ false
    → find_if p (s ++ t) ≡ shifted (length s) (find_if p t)
find_if-append p [] t h = shifted_zero (find_if p t)
find_if-append p (c ∷ s) t h = ground (arith, find_if-append p s t)

pub find_last_if-none : (p : ℕ → Bool) (s : List ℕ) → any p s ≡ false → find_last_if p s ≡ none
find_last_if-none p [] h = refl
find_last_if-none p (c ∷ s) h = ground (arith, find_last_if-none p s)

pub find_last_if-append :
    (p : ℕ → Bool) (s : List ℕ) (c : ℕ) (t : List ℕ)
    → p c ≡ true
    → any p t ≡ false
    → find_last_if p (s ++ c ∷ t) ≡ some (length s)
find_last_if-append p [] c t h none_behind = ground (arith, find_last_if-none p t)
find_last_if-append p (d ∷ s) c t h none_behind = ground (arith, find_last_if-append p s c t)

pub take_beyond : (n : ℕ) (s : List ℕ) → length s ≤ n → take n s ≡ s
take_beyond zero [] h = refl
take_beyond zero (c ∷ s) h = absurd (omega arith)
take_beyond (suc n) [] h = refl
take_beyond (suc n) (c ∷ s) h = ap (◌∷◌ c) (take_beyond n s (omega arith))

pub get_elem?-append :
    (s : List ℕ) (c : ℕ) (t : List ℕ) → get_elem? (s ++ c ∷ t) (length s) ≡ some c
get_elem?-append [] c t = refl
get_elem?-append (d ∷ s) c t = get_elem?-append s c t

-- The separator behind a protocol.
pub find_word-none : (s : List ℕ) → any (is_char b'/') s ≡ false → find_word (codes "://") s ≡ none
find_word-none [] h = refl
find_word-none (c ∷ []) h = ground arith
find_word-none (c ∷ d ∷ s) h = ground (arith, find_word-none (d ∷ s))

pub find_word-append :
    (s t : List ℕ)
    → any (is_char b':') s ≡ false
    → find_word (codes "://") (s ++ (codes "://" ++ t)) ≡ some (length s)
find_word-append [] t h = refl
find_word-append (c ∷ s) t h = ground (arith, find_word-append s t)

-- What is equal by `==` of texts.
pub starts_with-eq : (s t : List ℕ) → starts_with s t ≡ true → length s ≡ length t → s ≡ t
starts_with-eq [] [] h e = refl
starts_with-eq [] (c ∷ t) h e = absurd (omega (arith, e))
starts_with-eq (c ∷ s) [] h e = absurd (omega (arith, e))
starts_with-eq (c ∷ s) (d ∷ t) h e = ground (arith, starts_with-eq s t)
