-- ===== src/Connection/Lines.antt =====
-- src/modules/connection.cpp, `recv`: the bytes that have been received are split into lines. A
-- character is its code. The loop runs on fuel; every round moves `line_end` forward, so that one more
-- than the length of the buffer is enough (Lines/Stream).
pub mod Stream
pub mod Chunks
use libslirc_old.Prelude.{
  ℕ, zero, suc, ◌+◌, ◌-◌, Bool, true, false, not, ◌||◌, List, [], ◌∷◌, ◌++◌, Option, none, some,
  ◌==◌, if◌then◌else◌, length, take, drop, get_elem?,
}
use libslirc_old.Connection.Text.{find_from}

-- `" \r\n"`
abbrev pub is_blank : ℕ → Bool
is_blank c = c == 32 || c == 13 || c == 10

abbrev pub is_newline : ℕ → Bool
is_newline c = c == 10

abbrev pub is_return : Option ℕ → Bool
is_return none = false
is_return (some c) = c == 13

abbrev pub with_line : List ℕ → Option (List (List ℕ) × List ℕ) → Option (List (List ℕ) × List ℕ)
with_line line none = none
with_line line (some (lines, rest)) = some (line ∷ lines, rest)

-- The loop of `recv` from `line_end`: the lines that are emitted, and what stays in the buffer.
pub split_loop : ℕ → List ℕ → ℕ → Option (List (List ℕ) × List ℕ)
unfolding find_from
split_loop zero buf line_end = none
split_loop (suc fuel) buf line_end = elim (find_from (λ c. not (is_blank c)) line_end buf) [
  | none ↦ some ([], [])
  | some line_begin ↦ elim (find_from is_newline line_begin buf) [
    | none ↦ some ([], drop line_begin buf)
    | some newline ↦
        let end = if is_return (get_elem? buf (newline - 1)) then newline - 1 else newline in
        with_line (take (end - line_begin) (drop line_begin buf)) (split_loop fuel buf end)
  ]
]

pub split : List ℕ → Option (List (List ℕ) × List ℕ)
split buf = split_loop (length buf + 1) buf 0

-- What the handler of a read does with the received bytes.
pub receive : List ℕ → List ℕ → Option (List (List ℕ) × List ℕ)
receive recv_buffer bytes = split (recv_buffer ++ bytes)

abbrev pub with_lines :
    List (List ℕ) → Option (List (List ℕ) × List ℕ) → Option (List (List ℕ) × List ℕ)
with_lines lines none = none
with_lines lines (some (more, rest)) = some (lines ++ more, rest)

-- One read after the other, for the bytes that each of them transfers.
pub receive_all : List ℕ → List (List ℕ) → Option (List (List ℕ) × List ℕ)
receive_all recv_buffer [] = some ([], recv_buffer)
receive_all recv_buffer (bytes ∷ more) = elim (receive recv_buffer bytes) [
  | none ↦ none
  | some (lines, rest) ↦ with_lines lines (receive_all rest more)
]
