-- ===== src/Client/Lines.antt =====
-- src/modules/connection.cpp, src/event.cpp and src/modules/event_manager.cpp: from the bytes that a
-- connection reads to the handlers of `received_line`.
pub mod Served
mod Tests
use libslirc_old.Prelude.{ℕ, suc, ◌≤◌, ◌≡◌, refl, Bool, List, [], ◌∷◌, none, some, arith}
use libslirc_old.Prelude.Assoc.{lookup, IsUnique}
use libslirc_old.Prelude.Classes.{Classes}
use libslirc_old.Component.{Container, find}
use libslirc_old.EventId.{IdType}
use libslirc_old.Event.{Event, Payload, received_line_data, handle_afterwards}
use libslirc_old.Event.Queuing.Invariant.{IsValid}
use libslirc_old.Connection.Impl.Received.{with_line, line_events}
use libslirc_old.Manager.Handle.{Context}
use libslirc_old.Client.{Objects, event_manager}
use libslirc_old.Client.Loop.{AreReady}
use libslirc_old.Client.Queued.{AreStored, AreOf}

-- The events at one address after the other.
abbrev pub numbered : ℕ → List Event → List (ℕ × Event)
numbered first [] = []
numbered first (e ∷ es) = (first, e) ∷ numbered (suc first) es

numbered-before :
    (k first : ℕ) (es : List Event) → suc k ≤ first → lookup k (numbered first es) ≡ none
unfolding lookup
numbered-before k first [] h = refl
numbered-before k first (e ∷ es) h = ground (arith, numbered-before k (suc first) es)

pub numbered-IsUnique : (first : ℕ) (es : List Event) → IsUnique (numbered first es)
numbered-IsUnique first [] = tt
numbered-IsUnique first (e ∷ es) =
    (numbered-before first (suc first) es (omega arith), numbered-IsUnique (suc first) es)

-- The component that carries a line.
abbrev pub carrying : List ℕ → Container Payload
carrying line = (1, record { dynamic_type = 1; value = received_line_data line }) ∷ []

with_line-IsValid :
    (grow : ℕ → ℕ → ℕ) (grows : (c n : ℕ) → n ≤ grow c n) (irc : ℕ) (line : List ℕ)
    → IsValid (with_line grow irc line)
with_line-IsValid grow grows irc line = ground (arith, grows 0 1)

with_line-plain :
    (grow : ℕ → ℕ → ℕ) (irc : ℕ) (classes : Classes) (line : List ℕ)
    → find classes handle_afterwards (with_line grow irc line).components ≡ none
unfolding find lookup
with_line-plain grow irc classes line = refl

module _ {U : Type 0} (grow : ℕ → ℕ → ℕ) (grows : (c n : ℕ) → n ≤ grow c n) (irc manager : ℕ) where
  pub AreOf-lines :
      (first : ℕ) (lines : List (List ℕ)) (o : Objects U)
      → event_manager irc o ≡ some manager
      → AreOf manager o (numbered first (line_events grow irc lines))
  AreOf-lines first [] o h = tt
  AreOf-lines first (line ∷ lines) o h = (h, AreOf-lines (suc first) lines o h)

  module _ (accepts : ℕ → ℕ → U → Bool × U) (classes : Classes)
      (signals : IdType → Context U → Bool × Context U) (fuel : ℕ) (enough : 3 ≤ fuel) where
    pub lines-AreReady :
        (first : ℕ) (lines : List (List ℕ)) (o : Objects U)
        → event_manager irc o ≡ some manager
        → AreStored (numbered first (line_events grow irc lines)) o.events
        → AreReady accepts classes signals manager fuel o
            (numbered first (line_events grow irc lines))
    lines-AreReady first [] o h s = tt
    lines-AreReady first (line ∷ lines) o h (found, s) = (
      (
        found,
        with_line-IsValid grow grows irc line,
        with_line-plain grow irc classes line,
        h,
        enough,
      ),
      lines-AreReady (suc first) lines o h s,
    )
