-- ===== src/Connection/Lines/Stream.antt =====
-- src/modules/connection.cpp, `recv`, against a reader that takes one character after the other.
use libslirc_old.Prelude.{
  ℕ, zero, suc, ◌+◌, ◌-◌, ◌≤◌, ◌<◌, ◌≡◌, refl, sym, ap, ◌∙◌, ◌⊎◌, inl, inr, Bool, true, false, not,
  List, [], ◌∷◌, ◌++◌, arith, none, some, ◌==◌, if◌then◌else◌, length, take, drop, get_elem?,
  length-drop, drop-drop, Bool-cases,
}
use libslirc_old.Connection.Text.{shifted, find_if, find_from}
use libslirc_old.Connection.Lines.{is_blank, is_newline, is_return, with_line, split_loop}
use mathlib.Core.List.{append-nil, append_assoc}

-- A line without the carriage return at its end.
abbrev pub chop : List ℕ → List ℕ
chop [] = []
chop (c ∷ []) = if c == 13 then [] else c ∷ []
chop (c ∷ d ∷ s) = c ∷ chop (d ∷ s)

-- The line that a newline ends: none if only blanks came.
abbrev pub ended : List ℕ → List (List ℕ)
ended [] = []
ended (c ∷ cs) = chop (c ∷ cs) ∷ []

abbrev pub starts : List ℕ → ℕ → Bool
starts [] c = not (is_blank c)
starts (_ ∷ _) c = true

-- The lines of a text behind an unfinished line, and the unfinished line behind them. Blanks before a
-- line are skipped.
abbrev pub feed : List ℕ → List ℕ → List (List ℕ) × List ℕ
feed line [] = ([], line)
feed line (c ∷ s) =
    let next = if is_newline c then [] else if starts line c then line ++ c ∷ [] else [] in
    let (lines, last) = feed next s in (if is_newline c then ended line ++ lines else lines, last)

abbrev Skips : List ℕ → Type 0
Skips s =
    ((find_if (λ c. not (is_blank c)) s ≡ none) × (feed [] s ≡ ([], [])))
    ⊎ ((i : ℕ) × (c : ℕ) × (t : List ℕ) × (find_if (λ c. not (is_blank c)) s ≡ some i)
        × (drop i s ≡ c ∷ t)
        × (is_blank c ≡ false)
        × (feed [] s ≡ feed (c ∷ []) t))

skips : (s : List ℕ) → Skips s
skips [] = inl (refl, refl)
skips (c ∷ s) = elim (Bool-cases (is_blank c)) [
  | inr visible ↦ inr (0, c, s, ground arith, refl, visible, ground arith)
  | inl blank ↦ elim (skips s) [
    | inl (nothing, e) ↦ inl (ground arith, ground arith)
    | inr (i, d, t, found, at, visible, e) ↦
        inr (suc i, d, t, ground arith, at, visible, ground arith)
  ]
]

abbrev Ends : ℕ → List ℕ → List ℕ → Type 0
Ends c line s =
    ((find_if is_newline s ≡ none) × (feed (c ∷ line) s ≡ ([], c ∷ (line ++ s))))
    ⊎ ((j : ℕ) × (t : List ℕ) × (find_if is_newline s ≡ some j)
        × (drop j s ≡ 10 ∷ t)
        × (feed (c ∷ line) s ≡ (chop (c ∷ (line ++ take j s)) ∷ (feed [] t).0, (feed [] t).1)))

ends : (c : ℕ) (line s : List ℕ) → Ends c line s
ends c line [] = inl (refl, ap (λ l. ([], c ∷ l)) (sym (append-nil line)))
ends c line (d ∷ s) = elim (Bool-cases (is_newline d)) [
  | inl newline ↦ inr (0, s, ground arith, ground arith, ground (arith, append-nil line))
  | inr other ↦ elim (ends c (line ++ d ∷ []) s) [
    | inl (nothing, e) ↦ inl (ground arith, ground (arith, append_assoc line (d ∷ []) s))
    | inr (j, t, found, at, e) ↦
        inr (suc j, t, ground arith, at, ground (arith, append_assoc line (d ∷ []) (take j s)))
  ]
]

-- What the loop takes for the line that ends at a newline.
take-chop :
    (n : ℕ) (t : List ℕ)
    → n < length t
    → (if is_return (get_elem? t n) then take n t else take (suc n) t) ≡ chop (take (suc n) t)
take-chop n [] h = absurd (omega arith)
take-chop zero (c ∷ t) h = ground arith
take-chop (suc n) (c ∷ []) h = absurd (omega arith)
take-chop (suc n) (c ∷ d ∷ t) h = ground (arith, take-chop n (d ∷ t))

get_elem?-drop_at : (i j : ℕ) (s : List ℕ) → get_elem? (drop i s) j ≡ get_elem? s (i + j)
get_elem?-drop_at zero j s = ap (get_elem? s) (omega arith)
get_elem?-drop_at (suc i) j [] = refl
get_elem?-drop_at (suc i) j (c ∷ s) =
    let more : suc (i + j) ≡ suc i + j = omega arith in
    get_elem?-drop_at i j s ∙ ap (get_elem? (c ∷ s)) more

return_before :
    (j c : ℕ) (t rest : List ℕ)
    → is_return (get_elem? (c ∷ t) j) ≡ true
    → drop j t ≡ 10 ∷ rest
    → drop j (c ∷ t) ≡ 13 ∷ 10 ∷ rest
return_before zero c t rest r h = ground arith
return_before (suc j) c [] rest r h = absurd (cc)
return_before (suc j) c (d ∷ t) rest r h = return_before j d t rest r h

behind_begin :
    (j c : ℕ) (t : List ℕ) → is_return (get_elem? (c ∷ t) j) ≡ true → is_blank c ≡ false → 0 < j
behind_begin zero c t r visible = absurd (ground arith)
behind_begin (suc j) c t r visible = omega arith

abbrev Done : ℕ → List ℕ → ℕ → Type 0
Done fuel buf line_end = split_loop fuel buf line_end ≡ some (feed [] (drop line_end buf))

-- Where the loop goes on behind a line.
abbrev end_of : List ℕ → ℕ → ℕ → ℕ
end_of buf begin j = if is_return (get_elem? buf (begin + j)) then begin + j else begin + j + 1

end_of-feed :
    (buf : List ℕ) (begin j c : ℕ) (t rest : List ℕ)
    → drop begin buf ≡ c ∷ t
    → is_blank c ≡ false
    → drop j t ≡ 10 ∷ rest
    → (feed [] (drop (end_of buf begin j) buf) ≡ feed [] rest)
      × (take (end_of buf begin j - begin) (c ∷ t) ≡ chop (c ∷ take j t))
      × (begin < end_of buf begin j)
      × (end_of buf begin j ≤ length buf)
end_of-feed buf begin j c t rest at visible newline =
    let char : get_elem? buf (begin + j) ≡ get_elem? (c ∷ t) j =
      sym (get_elem?-drop_at begin j buf) ∙ ap (λ s. get_elem? s j) at in
    let tail : drop (begin + j) buf ≡ drop j (c ∷ t) =
      sym (drop-drop begin j buf) ∙ ap (drop j) at in
    let next : drop (begin + j + 1) buf ≡ drop j t =
      ap (λ n. drop n buf) (omega arith)
      ∙ sym (drop-drop begin (suc j) buf)
      ∙ ap (drop (suc j)) at in
    let room : j < length t = omega (arith, length-drop j t, ap length newline) in
    let inside : begin + suc j < length buf = omega (arith, length-drop begin buf, ap length at) in
    let line = take-chop j (c ∷ t) (omega arith) in
    elim (Bool-cases (is_return (get_elem? (c ∷ t) j))) [
      | inl returns ↦
          let e : end_of buf begin j ≡ begin + j = ground arith in
          let n : end_of buf begin j - begin ≡ j = omega arith in
          (
            ap (λ i. feed [] (drop i buf)) e
                ∙ ap (feed []) (tail ∙ return_before j c t rest returns newline),
            ap (λ i. take i (c ∷ t)) n ∙ ground (arith, line),
            omega (arith, behind_begin j c t returns visible),
            omega arith,
          )
      | inr other ↦
          let e : end_of buf begin j ≡ begin + j + 1 = ground arith in
          let n : end_of buf begin j - begin ≡ suc j = omega arith in
          (
            ap (λ i. feed [] (drop i buf)) e ∙ ap (feed []) (next ∙ newline),
            ap (λ i. take i (c ∷ t)) n ∙ ground (arith, line),
            omega arith,
            omega arith,
          )
    ]

split_loop_more :
    (fuel : ℕ) (buf : List ℕ) (line_end begin j : ℕ)
    → find_from (λ c. not (is_blank c)) line_end buf ≡ some begin
    → find_from is_newline begin buf ≡ some (begin + suc j)
    → split_loop (suc fuel) buf line_end
      ≡ with_line
          (take (end_of buf begin j - begin) (drop begin buf))
          (split_loop fuel buf (end_of buf begin j))
unfolding split_loop find_from
split_loop_more fuel buf line_end begin j first second =
    let before : begin + suc j - 1 ≡ begin + j = omega arith in
    let same : begin + suc j ≡ begin + j + 1 = omega arith in
    ground (arith, first, second, before, same)

pub split_loop-Done :
    (fuel : ℕ) (buf : List ℕ) (line_end : ℕ) → length buf - line_end < fuel → Done fuel buf line_end
unfolding split_loop find_from
split_loop-Done zero buf line_end h = absurd (omega arith)
split_loop-Done (suc fuel) buf line_end h = elim (skips (drop line_end buf)) [
  | inl (nothing, e) ↦ ground arith
  | inr (i, c, t, found, at, visible, e) ↦
      let begin = line_end + i in
      let from : drop begin buf ≡ c ∷ t = sym (drop-drop line_end i buf) ∙ at in
      elim (ends c [] t) [
        | inl (nothing, unfinished) ↦ ground arith
        | inr (j, rest, newline, behind, finished) ↦
            let (fed, line, forward, inside) =
              end_of-feed buf begin j c t rest from visible behind in
            let again = split_loop-Done fuel buf (end_of buf begin j) (omega arith) in
            let newline_at : find_if is_newline (c ∷ t) ≡ some (suc j) = ground arith in
            let first : find_from (λ c. not (is_blank c)) line_end buf ≡ some begin =
              ap (shifted line_end) found in
            let second : find_from is_newline begin buf ≡ some (begin + suc j) =
              ap (λ s. shifted begin (find_if is_newline s)) from ∙ ap (shifted begin) newline_at in
            split_loop_more fuel buf line_end begin j first second
            ∙ ap
                (λ s.
                  with_line (take (end_of buf begin j - begin) s)
                    (split_loop fuel buf (end_of buf begin j)))
                from
            ∙ ap (with_line (take (end_of buf begin j - begin) (c ∷ t))) (again ∙ ap some fed)
            ∙ ap (λ l. some (l ∷ (feed [] rest).0, (feed [] rest).1)) line
            ∙ ap some (sym (e ∙ finished))
      ]
]
