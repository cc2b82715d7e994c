-- ===== src/Stream.antt =====
-- include/slirc/util/scoped_stream_flags.hpp, and `event::id_type::print_debug` of
-- include/slirc/event.hpp, on the streams of the standard library: a stream has a format, the mask of the
-- states that throw, its state and the text that was written. `F` is the formats of a stream.
pub mod Flags
mod Tests
use libslirc_old.Prelude.{
  ℕ, ◌≡◌, Bool, true, false, not, ◌&&◌, ◌||◌, List, [], ◌∷◌, ◌++◌, Option, none, some,
  if◌then◌else◌,
}
use libslirc_old.EventId.{IdType, is_invalid}
use libslirc_old.Connection.Text.{codes}

-- `badbit` and `failbit`
pub record Bits : Type 0 where
  pub bad : Bool
  pub fail : Bool

abbrev pub goodbit : Bits
goodbit = record { bad = false; fail = false }

abbrev pub good : Bits → Bool
good b = not (b.bad || b.fail)

abbrev pub common : Bits → Bits → Bool
common a b = a.bad && b.bad || a.fail && b.fail

pub record Stream (F : Type 0) : Type 0 where
  pub format : F
  pub exceptions : Bits
  pub state : Bits
  pub text : List ℕ

-- What the standard library does: the default format, what a text or a number becomes in a format, the
-- format behind an output, whether the buffer of a stream takes a text, and whether an output to a
-- stream that is not good sets `failbit`.
pub record Output (F : Type 0) : Type 0 where
  pub default_format : F
  pub put_text : F → List ℕ → List ℕ
  pub put_number : F → ℕ → List ℕ
  pub used : F → F
  pub takes : List ℕ → List ℕ → Bool
  pub fails_again : Bool

-- What a call leaves: it returns, throws, or terminates the program.
pub data Ending (F : Type 0) : Type 0 where
  returned : Stream F → Ending F
  thrown : Stream F → Ending F
  terminated : Ending F

module _ {F : Type 0} where
  -- `copyfmt`, with whether it throws: the mask is copied, too, and takes effect.
  abbrev pub copyfmt : Stream F → Stream F → Bool × Stream F
  copyfmt to from = (
    common to.state from.exceptions,
    record to { format = from.format; exceptions = from.exceptions },
  )

  abbrev pub then_ : Bool × Stream F → (Stream F → Bool × Stream F) → Bool × Stream F
  then_ (true, s) f = (true, s)
  then_ (false, s) f = f s

  -- `restore`
  pub restore : Stream F → Stream F → Bool × Stream F
  restore original s = copyfmt s original

  -- The destructor, at the end of a scope that returns or throws. It is noexcept.
  leave : Bool → Bool × Stream F → Ending F
  leave threw (true, s) = terminated
  leave true (false, s) = thrown s
  leave false (false, s) = returned s

module _ {F : Type 0} (o : Output F) where
  -- `basic_ios(nullptr)`, a stream without a buffer.
  abbrev pub without_buffer : Stream F
  without_buffer = record {
    format = o.default_format;
    exceptions = goodbit;
    state = record { bad = true; fail = false };
    text = [];
  }

  -- An output of what `put` makes of the format.
  abbrev pub output : (F → List ℕ) → Stream F → Bool × Stream F
  output put s =
      let text = put s.format in
      let after : Stream F =
        if not (good s.state)
        then record s { state = record (s.state) { fail = s.state.fail || o.fails_again } }
        else if o.takes s.text text
        then record s { text = s.text ++ text; format = o.used s.format }
        else record s { state = record (s.state) { bad = true }; format = o.used s.format } in
      (common after.state after.exceptions, after)

  -- The constructor: `original_flags`, or an exception.
  pub backup : Stream F → Bool × Stream F
  backup s = copyfmt without_buffer s

  run_scope : (Stream F → Bool × Stream F) → Stream F → Bool × Stream F → Ending F
  unfolding leave restore
  run_scope body s (true, original) = thrown s
  run_scope body s (false, original) =
      let (threw, after) = body s in leave threw (restore original after)

  -- A scope with a `scoped_stream_flags`.
  pub scoped : (Stream F → Bool × Stream F) → Stream F → Ending F
  unfolding run_scope backup
  scoped body s = run_scope body s (backup s)

  -- The outputs of `print_debug`, for the name of each enum type. An id without a type is the default
  -- id.
  abbrev pub name_of : (ℕ → List ℕ) → Option ℕ → List ℕ
  name_of name none = []
  name_of name (some t) = name t

  abbrev pub outputs : (ℕ → List ℕ) → IdType → List (F → List ℕ)
  outputs name i =
      if is_invalid i
      then (λ f. o.put_text f (codes "<invalid>")) ∷ []
      else (λ f. o.put_text f (codes "<event: "))
        ∷ (λ f. o.put_text f (name_of name i.index))
        ∷ (λ f. o.put_text f (codes ", "))
        ∷ (λ f. o.put_number f i.id)
        ∷ (λ f. o.put_text f (codes ">"))
        ∷ []

  pub output_all : List (F → List ℕ) → Stream F → Bool × Stream F
  output_all [] s = (false, s)
  output_all (put ∷ puts) s = then_ (output put s) (output_all puts)

  write_id : (ℕ → List ℕ) → IdType → Stream F → Bool × Stream F
  unfolding output_all
  write_id name i s = then_ (copyfmt s without_buffer) (output_all (outputs name i))

  pub print_debug : (ℕ → List ℕ) → IdType → Stream F → Ending F
  unfolding scoped write_id
  print_debug name i s = scoped (write_id name i) s
