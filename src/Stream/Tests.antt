-- ===== src/Stream/Tests.antt =====
-- include/slirc/util/scoped_stream_flags.hpp: a stream with a format of its own, here a width.
use libslirc_old.Prelude.{
  ℕ, ◌+◌, ◌-◌, ◌≡◌, refl, Bool, true, false, List, [], ◌∷◌, ◌++◌, length, replicate,
}
use libslirc_old.EventId.{from_enum}
use libslirc_old.Connection.Text.{codes}
use libslirc_old.Stream.{goodbit, Stream, Output, returned, scoped, output, outputs, print_debug}
use libslirc_old.Stream.Flags.{Leaves, written, scoped_lem, print_debug_lem}

abbrev padded : ℕ → List ℕ → List ℕ
padded width text = replicate (width - length text) 32 ++ text

-- The format is the width, which an output sets to 0; a number has one digit.
abbrev widths : Output ℕ
widths = record {
  default_format = 0;
  put_text = padded;
  put_number = λ width n. padded width ((48 + n) ∷ []);
  used = λ width. 0;
  takes = λ before text. true;
  fails_again = true;
}

abbrev wide : Stream ℕ
wide = record {
  format = 9;
  exceptions = record { bad = false; fail = true };
  state = goodbit;
  text = codes "id: ";
}

abbrev name : ℕ → List ℕ
name enum_type = codes "my_events"

print_debug_lem_example :
    print_debug widths name (from_enum 3 7) wide
    ≡ returned (record wide {
      text = codes "id: " ++ written widths (outputs widths name (from_enum 3 7));
    })
print_debug_lem_example =
    print_debug_lem widths (λ before text. refl) refl name (from_enum 3 7) wide refl refl

printed : written widths (outputs widths name (from_enum 3 7)) ≡ codes "<event: my_events, 7>"
printed = refl

-- A body that writes the id of a stream whose `badbit` throws.
abbrev strict : Stream ℕ
strict = record wide { exceptions = record { bad = true; fail = false } }

abbrev body : Stream ℕ → Bool × Stream ℕ
body = output widths (λ width. padded width (codes "7"))

scoped_lem_example : Leaves strict (body strict).0 (body strict).1 (scoped widths body strict)
scoped_lem_example = scoped_lem widths body strict
