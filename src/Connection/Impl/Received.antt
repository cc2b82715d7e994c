-- ===== src/Connection/Impl/Received.antt =====
-- src/modules/connection.cpp, `emit_line`: the lines that the events of a connection carry.
use libslirc_old.Prelude.{
  ℕ, ◌≡◌, refl, ap, ◌∙◌, List, [], ◌∷◌, ◌++◌, append_assoc, Option, none, some, if◌then◌else◌,
  Result, ok, throw, arith,
}
use libslirc_old.Prelude.Assoc.{lookup}
use libslirc_old.EventId.{id_eq}
use libslirc_old.Component.{Component, Container}
use libslirc_old.Component.Laws.{insert-empty}
use libslirc_old.Event.{
  Event, Payload, received_line_data, error_details, afterwards_events, user_data,
}
use libslirc_old.Event.Queuing.Fresh.{new_event, make_event-new}
use libslirc_old.Connection.Impl.{
  received_line, received_data, Machine, emit, with_component, emit_line,
}

-- `received_data::data` of an event that has it.
abbrev pub line_in : Option (Component Payload) → List (List ℕ)
line_in none = []
line_in (some c) = elim c.value [
  | received_line_data line ↦ line ∷ []
  | afterwards_events l ↦ []
  | error_details text code ↦ []
  | user_data n ↦ []
]

-- The lines of the events of `received_line`.
abbrev pub lines_of : List Event → List (List ℕ)
lines_of [] = []
lines_of (e ∷ es) =
    let rest = lines_of es in
    if id_eq e.original_id received_line
    then line_in (lookup received_data.component_base_type e.components) ++ rest
    else rest

lines_of-append : (es fs : List Event) → lines_of (es ++ fs) ≡ lines_of es ++ lines_of fs
lines_of-append [] fs = refl
lines_of-append (e ∷ es) fs = ground (
  arith,
  lines_of-append es fs,
  append_assoc (line_in (lookup received_data.component_base_type e.components)) (lines_of es)
      (lines_of fs),
)

abbrev pub with_line : (ℕ → ℕ → ℕ) → ℕ → List ℕ → Event
with_line grow irc line = record (new_event grow irc received_line) {
  components = (1, record { dynamic_type = 1; value = received_line_data line }) ∷ [];
}

-- One more event, which carries the line; all else stays.
pub emit_line_lem :
    (grow : ℕ → ℕ → ℕ) (irc : ℕ) (line : List ℕ) (m : Machine)
    → emit_line grow irc line m ≡ record m { emitted = m.emitted ++ with_line grow irc line ∷ [] }
unfolding emit_line
emit_line_lem grow irc line m =
    ap (λ r. emit (with_component r received_data (received_line_data line)) m)
      (make_event-new grow irc received_line refl)
    ∙ ap
        (λ (i : Result (Component Payload × Container Payload)).
          emit
            (elim i [
              | throw x ↦ throw x
              | ok (_, components) ↦
                  ok (record (new_event grow irc received_line) { components = components })
            ])
            m)
        (insert-empty received_data (received_line_data line))

module _ (grow : ℕ → ℕ → ℕ) (irc : ℕ) where
  -- The events of the lines.
  abbrev pub line_events : List (List ℕ) → List Event
  line_events [] = []
  line_events (line ∷ lines) = with_line grow irc line ∷ line_events lines

  pub line_events-append :
      (xs ys : List (List ℕ)) → line_events (xs ++ ys) ≡ line_events xs ++ line_events ys
  line_events-append [] ys = refl
  line_events-append (x ∷ xs) ys = ap (◌∷◌ (with_line grow irc x)) (line_events-append xs ys)

  lines_of-carried : (lines : List (List ℕ)) → lines_of (line_events lines) ≡ lines
  unfolding lookup
  lines_of-carried [] = refl
  lines_of-carried (line ∷ lines) = ap (◌∷◌ line) (lines_of-carried lines)

  -- They carry the lines, in their order.
  pub lines_of-line_events :
      (es : List Event) (lines : List (List ℕ))
      → lines_of (es ++ line_events lines) ≡ lines_of es ++ lines
  lines_of-line_events es lines =
      lines_of-append es (line_events lines) ∙ ap (◌++◌ (lines_of es)) (lines_of-carried lines)
