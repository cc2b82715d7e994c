-- ===== src/Connection/Text.antt =====
-- The searches of `std::string` that src/modules/connection.cpp uses. A text is the list of its codes,
-- and a position none for `npos`.
pub mod Laws
use Prim.Native.Char.{code}
use Prim.Native.String
use Prim.Native.String.{String}
use libslirc_old.Prelude.{
  ℕ, suc, ◌+◌, Bool, true, false, ◌&&◌, List, [], ◌∷◌, Option, none, some, ◌==◌, if◌then◌else◌,
  take, drop,
}

-- The code points of a text.
abbrev pub codes : String → List ℕ
codes String.[] = []
codes (String.◌∷◌ c s) = code c ∷ codes s

-- A position behind `pos` as one from the beginning; `npos` stays.
abbrev pub shifted : ℕ → Option ℕ → Option ℕ
shifted pos none = none
shifted pos (some i) = some (pos + i)

abbrev pub find_if : (ℕ → Bool) → List ℕ → Option ℕ
find_if p [] = none
find_if p (c ∷ s) = let rest = find_if p s in if p c then some 0 else shifted 1 rest

-- `std::string::find` and `find_first_not_of`: the first position from `pos` on, none for `npos`.
unfoldable pub find_from : (ℕ → Bool) → ℕ → List ℕ → Option ℕ
find_from p pos s = shifted pos (find_if p (drop pos s))

abbrev pub starts_with : List ℕ → List ℕ → Bool
starts_with [] s = true
starts_with (c ∷ word) [] = false
starts_with (c ∷ word) (d ∷ s) = c == d && starts_with word s

-- `find` of a word from the beginning.
abbrev pub find_word : List ℕ → List ℕ → Option ℕ
find_word word [] = if starts_with word [] then some 0 else none
find_word word (c ∷ s) =
    let rest = find_word word s in if starts_with word (c ∷ s) then some 0 else shifted 1 rest

-- A position behind the first character, or that of the first character if it fits.
abbrev pub last_of : Bool → Option ℕ → Option ℕ
last_of fits (some i) = some (suc i)
last_of true none = some 0
last_of false none = none

abbrev pub find_last_if : (ℕ → Bool) → List ℕ → Option ℕ
find_last_if p [] = none
find_last_if p (c ∷ s) = last_of (p c) (find_last_if p s)

-- `rfind` and `find_last_not_of`: the last position up to `pos`.
unfoldable pub find_last : (ℕ → Bool) → ℕ → List ℕ → Option ℕ
find_last p pos s = find_last_if p (take (suc pos) s)
