-- ===== src/Connection/Tests.antt =====
-- src/modules/connection.cpp on small texts: `a` is 97, `b` is 98.
use libslirc_old.Prelude.{ℕ, ◌≡◌, refl, List, [], ◌∷◌, some}
use libslirc_old.Connection.Lines.{split}
use libslirc_old.Connection.Lines.Chunks.{split_refines, encoded, split-encoded}

-- " a\r\n\r\n b\nab"
abbrev text : List ℕ
text = 32 ∷ 97 ∷ 13 ∷ 10 ∷ 13 ∷ 10 ∷ 32 ∷ 98 ∷ 10 ∷ 97 ∷ 98 ∷ []

text_lines : split text ≡ some ((97 ∷ []) ∷ (98 ∷ []) ∷ [], 97 ∷ 98 ∷ [])
text_lines = split_refines text

split-encoded_example :
    split (encoded ((97 ∷ 32 ∷ []) ∷ (98 ∷ []) ∷ [])) ≡ some ((97 ∷ 32 ∷ []) ∷ (98 ∷ []) ∷ [], [])
split-encoded_example = split-encoded ((97 ∷ 32 ∷ []) ∷ (98 ∷ []) ∷ []) (refl, (refl, tt))
