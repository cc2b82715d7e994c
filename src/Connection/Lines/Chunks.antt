-- ===== src/Connection/Lines/Chunks.antt =====
-- src/modules/connection.cpp, `recv`: the lines that are emitted do not depend on how the bytes arrive.
use libslirc_old.Prelude.{
  ℕ, ◌+◌, ◌≡◌, refl, sym, ap, ◌∙◌, inl, inr, Bool, true, false, not, ◌&&◌, List, [], ◌∷◌, ◌++◌,
  arith, some, if◌then◌else◌, length, any, any-append, Bool-cases, subst,
}
use mathlib.Core.Option.{some-injective}
use mathlib.Core.List.{append-nil, append_assoc}
use libslirc_old.Connection.Lines.{is_blank, is_newline, split, receive, receive_all}
use libslirc_old.Connection.Lines.Stream.{chop, ended, starts, feed, split_loop-Done}

-- A line that has not ended: it starts with no blank and has no newline.
abbrev pub is_unfinished : List ℕ → Bool
is_unfinished [] = true
is_unfinished (c ∷ line) = not (is_blank c) && not (any is_newline line)

abbrev pub concat : List (List ℕ) → List ℕ
concat [] = []
concat (s ∷ more) = s ++ concat more

-- The loop of `recv` ends within its fuel, and emits exactly the lines that the reader gives that takes
-- one character after the other; what stays in the buffer is the reader's unfinished line.
pub split_refines : (buf : List ℕ) → split buf ≡ some (feed [] buf)
unfolding split
split_refines buf = split_loop-Done (length buf + 1) buf 0 (omega arith)

-- The unfinished line behind one more character.
abbrev next : List ℕ → ℕ → List ℕ
next line c = if is_newline c then [] else if starts line c then line ++ c ∷ [] else []

pub feed-append :
    (line s t : List ℕ)
    → let (lines, last) = feed line s in
      feed line (s ++ t) ≡ (lines ++ (feed last t).0, (feed last t).1)
feed-append line [] t = refl
feed-append line (c ∷ s) t =
    let ih = feed-append (next line c) s t in
    elim (Bool-cases (is_newline c)) [
      | inl newline ↦
          ground (arith, ih, append_assoc (ended line) (feed [] s).0 (feed (feed [] s).1 t).0)
      | inr other ↦ ground (arith, ih)
    ]

feed_behind :
    (c : ℕ) (line s : List ℕ) → any is_newline s ≡ false → feed (c ∷ line) s ≡ ([], c ∷ (line ++ s))
feed_behind c line [] h = ap (λ l. ([], c ∷ l)) (sym (append-nil line))
feed_behind c line (d ∷ s) h =
    ground (arith, feed_behind c (line ++ d ∷ []) s, append_assoc line (d ∷ []) s)

feed_unfinished : (line : List ℕ) → is_unfinished line ≡ true → feed [] line ≡ ([], line)
feed_unfinished [] h = refl
feed_unfinished (c ∷ s) h = ground (arith, feed_behind c [] s)

next-is_unfinished :
    (line : List ℕ) (c : ℕ) → is_unfinished line ≡ true → is_unfinished (next line c) ≡ true
next-is_unfinished [] c h = ground arith
next-is_unfinished (d ∷ line) c h = ground (arith, any-append is_newline line (c ∷ []))

pub feed-is_unfinished :
    (line s : List ℕ) → is_unfinished line ≡ true → is_unfinished (feed line s).1 ≡ true
feed-is_unfinished line [] h = h
feed-is_unfinished line (c ∷ s) h = feed-is_unfinished (next line c) s (next-is_unfinished line c h)

-- A read with an unfinished line in the buffer goes on with that line.
pub feed-unfinished :
    (line bytes : List ℕ) → is_unfinished line ≡ true → feed [] (line ++ bytes) ≡ feed line bytes
feed-unfinished line bytes h =
    feed-append [] line bytes
    ∙ ap (λ (r : List (List ℕ) × List ℕ). (r.0 ++ (feed r.1 bytes).0, (feed r.1 bytes).1))
        (feed_unfinished line h)

receive-feed :
    (line bytes : List ℕ) → is_unfinished line ≡ true → receive line bytes ≡ some (feed line bytes)
unfolding receive
receive-feed line bytes h = split_refines (line ++ bytes) ∙ ap some (feed-unfinished line bytes h)

receive_all-feed :
    (line : List ℕ) (chunks : List (List ℕ))
    → is_unfinished line ≡ true
    → receive_all line chunks ≡ some (feed line (concat chunks))
unfolding receive_all
receive_all-feed line [] h = refl
receive_all-feed line (bytes ∷ more) h =
    let last = (feed line bytes).1 in
    let ih = receive_all-feed last more (feed-is_unfinished line bytes h) in
    ground (arith, receive-feed line bytes h, ih, feed-append line bytes (concat more))

-- However the bytes arrive, in one read or in many, the reads emit the same lines and leave the same
-- unfinished line in the buffer, which has no newline and starts with no blank.
chunks_lem :
    (chunks : List (List ℕ))
    → (receive_all [] chunks ≡ split (concat chunks))
      × ((lines : List (List ℕ)) (rest : List ℕ)
          → receive_all [] chunks ≡ some (lines, rest)
          → is_unfinished rest ≡ true)
chunks_lem chunks =
    let all_fed = receive_all-feed [] chunks refl in
    (
      all_fed ∙ sym (split_refines (concat chunks)),
      λ lines rest h.
          let e = some-injective _ _ (sym all_fed ∙ h) in
          subst (λ (r : List (List ℕ) × List ℕ). is_unfinished r.1 ≡ true) e
            (feed-is_unfinished [] (concat chunks) refl),
    )

-- A line as it is sent.
abbrev pub terminated : List ℕ → List ℕ
terminated line = line ++ 13 ∷ 10 ∷ []

abbrev pub encoded : List (List ℕ) → List ℕ
encoded [] = []
encoded (line ∷ more) = terminated line ++ encoded more

abbrev pub is_line : List ℕ → Bool
is_line [] = false
is_line (c ∷ line) = is_unfinished (c ∷ line)

abbrev pub AllLines : List (List ℕ) → Type 0
AllLines [] = Unit
AllLines (line ∷ more) = (is_line line ≡ true) × AllLines more

chop-append : (c : ℕ) (line : List ℕ) → chop (c ∷ (line ++ 13 ∷ [])) ≡ c ∷ line
chop-append c [] = refl
chop-append c (d ∷ line) = ap (◌∷◌ c) (chop-append d line)

feed-terminated :
    (line rest : List ℕ)
    → is_line line ≡ true
    → feed [] (terminated line ++ rest) ≡ (line ∷ (feed [] rest).0, (feed [] rest).1)
feed-terminated [] rest h = absurd (cc)
feed-terminated (c ∷ s) rest h =
    ap (feed []) (append_assoc (c ∷ s) (13 ∷ 10 ∷ []) rest)
    ∙ ground
        (arith, feed-append [] (c ∷ s) (13 ∷ 10 ∷ rest), feed_unfinished (c ∷ s) h, chop-append c s)

-- Lines that are not empty, start with no blank and have no newline come out of `recv` as they were,
-- when each is sent with a carriage return and a newline behind it.
pub split-encoded :
    (lines : List (List ℕ)) → AllLines lines → split (encoded lines) ≡ some (lines, [])
split-encoded lines h = split_refines (encoded lines) ∙ ap some (fed lines h)
  where
    fed : (ls : List (List ℕ)) → AllLines ls → feed [] (encoded ls) ≡ (ls, [])
    fed [] h = refl
    fed (line ∷ more) h =
        feed-terminated line (encoded more) h.0
        ∙ ap (λ (r : List (List ℕ) × List ℕ). (line ∷ r.0, r.1)) (fed more h.1)
