-- ===== src/Stream/Flags.antt =====
-- include/slirc/util/scoped_stream_flags.hpp and include/slirc/event.hpp: what `scoped_stream_flags` and
-- `print_debug` leave of a stream.
use libslirc_old.Prelude.{
  ℕ, ◌≡◌, refl, ◌⊎◌, sym, ap, ◌∙◌, subst, inl, inr, Bool, true, false, List, [], ◌∷◌, ◌++◌, arith,
  append_assoc, append-nil,
}
use libslirc_old.EventId.{IdType}
use libslirc_old.Stream.{
  Bits, goodbit, common, Stream, Output, Ending, returned, thrown, terminated, without_buffer,
  copyfmt, output, then_, backup, restore, leave, run_scope, scoped, outputs, output_all, write_id,
  print_debug,
}

-- What a scope leaves of the stream that it began with.
abbrev pub Leaves : {F : Type 0} → Stream F → Bool → Stream F → Ending F → Type 0
Leaves s threw after (returned t) =
    (t ≡ record after { format = s.format; exceptions = s.exceptions })
    × (threw ≡ false)
    × (s.exceptions.bad ≡ false)
    × (common after.state s.exceptions ≡ false)
Leaves s threw after (thrown t) =
    ((t ≡ s) × (s.exceptions.bad ≡ true))
    ⊎ ((t ≡ record after { format = s.format; exceptions = s.exceptions })
        × (threw ≡ true)
        × (common after.state s.exceptions ≡ false))
Leaves s threw after terminated =
    (s.exceptions.bad ≡ false) × (common after.state s.exceptions ≡ true)

-- A stream without a buffer is bad.
backup_fails : (mask : Bits) → mask.bad ≡ common (record { bad = true; fail = false }) mask
backup_fails mask = ground arith

module _ {F : Type 0} (o : Output F) where
  -- The stream behind a scope, with its format and its mask as before.
  abbrev restored : Stream F → Stream F → Stream F
  restored s after = record after { format = s.format; exceptions = s.exceptions }

  leave-Leaves :
      (s after : Stream F) (threw fails : Bool)
      → s.exceptions.bad ≡ false
      → common after.state s.exceptions ≡ fails
      → Leaves s threw after (leave threw (fails, restored s after))
  unfolding leave
  leave-Leaves s after threw true h e = (h, e)
  leave-Leaves s after true false h e = inr (refl, refl, e)
  leave-Leaves s after false false h e = (refl, refl, h, e)

  run_scope-Leaves :
      (body : Stream F → Bool × Stream F) (s : Stream F) (fails : Bool)
      → s.exceptions.bad ≡ fails
      → let (threw, after) = body s in
        let original = (backup o s).1 in Leaves s threw after (run_scope o body s (fails, original))
  unfolding run_scope backup restore
  run_scope-Leaves body s true h = inl (refl, h)
  run_scope-Leaves body s false h =
      let (threw, after) = body s in
      leave-Leaves s after threw (common after.state s.exceptions) h refl

  -- A scope with a `scoped_stream_flags` throws before anything else, and leaves the stream as it is, if
  -- `badbit` is in the mask of the stream. Otherwise it ends as its body does, with the format and the
  -- mask as they were, unless the state in which the body leaves the stream is in that mask: then it
  -- terminates the program.
  pub scoped_lem :
      (body : Stream F → Bool × Stream F) (s : Stream F)
      → let (threw, after) = body s in Leaves s threw after (scoped o body s)
  unfolding scoped backup
  scoped_lem body s =
      subst (λ fails. Leaves s (body s).0 (body s).1 (run_scope o body s (fails, (backup o s).1)))
        (backup_fails s.exceptions) (run_scope-Leaves body s s.exceptions.bad refl)

  scoped-returns :
      (body : Stream F → Bool × Stream F) (s after : Stream F)
      → s.exceptions.bad ≡ false
      → body s ≡ (false, after)
      → common after.state s.exceptions ≡ false
      → scoped o body s ≡ returned (restored s after)
  unfolding scoped run_scope backup restore leave
  scoped-returns body s after h e quiet =
      ap (λ fails. run_scope o body s (fails, (backup o s).1)) (sym (backup_fails s.exceptions) ∙ h)
      ∙ ap (λ (d : Bool × Stream F). leave d.0 (restore (backup o s).1 d.1)) e
      ∙ ap (λ fails. leave false (fails, restored s after)) quiet

  -- The outputs in the default format, one behind the other.
  abbrev pub written : List (F → List ℕ) → List ℕ
  written [] = []
  written (put ∷ puts) = put o.default_format ++ written puts

  module _ (takes_all : (before text : List ℕ) → o.takes before text ≡ true)
      (narrow : o.used o.default_format ≡ o.default_format) where
    -- A stream that was never changed, with a text.
    abbrev clean : List ℕ → Stream F
    clean text = record {
      format = o.default_format;
      exceptions = goodbit;
      state = goodbit;
      text = text;
    }

    output-clean :
        (put : F → List ℕ) (text : List ℕ)
        → output o put (clean text) ≡ (false, clean (text ++ put o.default_format))
    output-clean put text = ground (arith, takes_all text (put o.default_format), narrow)

    output_all-written :
        (puts : List (F → List ℕ)) (text : List ℕ)
        → output_all o puts (clean text) ≡ (false, clean (text ++ written puts))
    unfolding output_all
    output_all-written [] text = ap (λ l. (false, clean l)) (sym (append-nil text))
    output_all-written (put ∷ puts) text =
        ap (λ d. then_ d (output_all o puts)) (output-clean put text)
        ∙ output_all-written puts (text ++ put o.default_format)
        ∙ ap (λ l. (false, clean l)) (append_assoc text (put o.default_format) (written puts))

    -- Of a good stream without `badbit` in its mask, whose buffer takes what it is given, `print_debug`
    -- leaves the same format, mask and state, and appends the representation of the id in the default
    -- format, whatever the format of the stream is.
    pub print_debug_lem :
        (name : ℕ → List ℕ) (i : IdType) (s : Stream F)
        → s.state ≡ goodbit
        → s.exceptions.bad ≡ false
        → print_debug o name i s
          ≡ returned (record s { text = s.text ++ written (outputs o name i) })
    unfolding print_debug write_id
    print_debug_lem name i s g h =
        let after = clean (s.text ++ written (outputs o name i)) in
        let start : copyfmt s (without_buffer o) ≡ (false, clean s.text) = ground arith in
        scoped-returns (write_id o name i) s after h
          (ap (λ d. then_ d (output_all o (outputs o name i))) start
            ∙ output_all-written (outputs o name i) s.text)
          refl
        ∙ ap (λ b. returned (record s { state = b; text = after.text })) (sym g)
