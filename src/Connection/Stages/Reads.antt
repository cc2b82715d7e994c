-- ===== src/Connection/Stages/Reads.antt =====
-- src/modules/connection.cpp: the lines that the reads of a connection emit.
use libslirc_old.Prelude.{
  ℕ, ◌≡◌, refl, sym, ap, ◌∙◌, subst, Bool, true, List, [], ◌∷◌, ◌++◌, none, some,
}
use libslirc_old.Connection.Lines.Stream.{feed}
use libslirc_old.Connection.Lines.Chunks.{split_refines}
use libslirc_old.Connection.Impl.{connected, reading, Impl, Machine, start}
use libslirc_old.Connection.Stages.{with_impl, emit_lines, recv}
use libslirc_old.Prelude.{append_assoc, append-nil, not, Option}
use libslirc_old.Connection.Lines.Chunks.{
  is_unfinished, concat, feed-unfinished, feed-is_unfinished, feed-append,
}
use libslirc_old.Connection.Impl.Received.{
  lines_of, emit_line_lem, with_line, line_events, line_events-append, lines_of-line_events,
}
use libslirc_old.Event.{Event}
use libslirc_old.Connection.Impl.{is_state, succeeded, Done, emit_line}
use libslirc_old.Connection.Stages.{on_read}
use libslirc_old.Connection.Stages.Ignored.{if_false}

-- What the machine has received: its events, its state and its buffer.
record Received (events : List Event) (c : Impl) (n : Machine) : Type 0 where
  pub same_events : n.emitted ≡ events
  pub same_impl : n.impl ≡ c

abbrev filled : List ℕ → Impl → Impl
filled rest c = record c { buffers = record (c.buffers) { recv_buffer = rest } }

module _ (grow : ℕ → ℕ → ℕ) (irc : ℕ) (cancel_fails : Impl → Bool) where
  -- One read after the other, for the bytes that each of them transfers.
  pub reads : List (List ℕ) → Machine → Machine
  reads [] m = m
  reads (bytes ∷ more) m = reads more (on_read grow irc cancel_fails (succeeded bytes) m).1

  emit_lines-Received :
      (lines : List (List ℕ)) (m : Machine)
      → Received
          (m.emitted ++ line_events grow irc lines)
          m.impl
          (emit_lines grow irc cancel_fails lines m)
  unfolding emit_lines
  emit_lines-Received [] m = record { same_events = sym (append-nil m.emitted); same_impl = refl }
  emit_lines-Received (line ∷ lines) m =
      let r = emit_lines-Received lines (emit_line grow irc line m) in
      record {
        same_events =
            r.same_events
            ∙ ap (λ (k : Machine). k.emitted ++ line_events grow irc lines)
                (emit_line_lem grow irc line m)
            ∙ append_assoc m.emitted (with_line grow irc line ∷ []) (line_events grow irc lines);
        same_impl = r.same_impl ∙ ap (λ (k : Machine). k.impl) (emit_line_lem grow irc line m);
      }

  recv-Received :
      (m : Machine)
      → let (lines, rest) = feed [] m.impl.buffers.recv_buffer in
        Received
          (m.emitted ++ line_events grow irc lines)
          (filled rest m.impl)
          (recv grow irc cancel_fails m)
  unfolding recv
  recv-Received m =
      let fed = feed [] m.impl.buffers.recv_buffer in
      subst
        (λ (o : Option (List (List ℕ) × List ℕ)).
          Received (m.emitted ++ line_events grow irc fed.0) (filled fed.1 m.impl) (elim o [
            | none ↦ m
            | some (lines, rest) ↦ start reading (
                emit_lines grow irc cancel_fails lines (
                  with_impl (λ c. record c { buffers = record (c.buffers) { recv_buffer = rest } })
                    m))
          ]))
        (sym (split_refines m.impl.buffers.recv_buffer))
        (let r = emit_lines-Received fed.0 (record m { impl = filled fed.1 m.impl }) in
          record { same_events = r.same_events; same_impl = r.same_impl })

  on_read-Received :
      (line bytes : List ℕ) (m : Machine)
      → m.impl.curstate ≡ connected
      → m.impl.buffers.recv_buffer ≡ line
      → is_unfinished line ≡ true
      → Received
          (m.emitted ++ line_events grow irc (feed line bytes).0)
          (filled (feed line bytes).1 m.impl)
          (on_read grow irc cancel_fails (succeeded bytes) m).1
  unfolding on_read
  on_read-Received line bytes m c e h =
      let same : feed [] (m.impl.buffers.recv_buffer ++ bytes) ≡ feed line bytes =
        ap (λ b. feed [] (b ++ bytes)) e ∙ feed-unfinished line bytes h in
      subst
        (λ (d : Done).
          Received (m.emitted ++ line_events grow irc (feed line bytes).0)
            (filled (feed line bytes).1 m.impl) d.1)
        (sym (if_false _ _ _ (ap (λ s. not (is_state s connected)) c)))
        (subst
          (λ (fed : List (List ℕ) × List ℕ).
            Received (m.emitted ++ line_events grow irc fed.0) (filled fed.1 m.impl) (
              recv grow irc cancel_fails
                (record m { impl = filled (m.impl.buffers.recv_buffer ++ bytes) m.impl })))
          same
          (recv-Received (record m { impl = filled (m.impl.buffers.recv_buffer ++ bytes) m.impl })))

  reads-Received :
      (line : List ℕ) (chunks : List (List ℕ)) (m : Machine)
      → m.impl.curstate ≡ connected
      → m.impl.buffers.recv_buffer ≡ line
      → is_unfinished line ≡ true
      → let fed = feed line (concat chunks) in
        Received (m.emitted ++ line_events grow irc fed.0) (filled fed.1 m.impl) (reads chunks m)
  unfolding reads
  reads-Received line [] m c e h = record {
    same_events = sym (append-nil m.emitted);
    same_impl = ap (λ l. filled l m.impl) e;
  }
  reads-Received line (bytes ∷ more) m c e h =
      let r = on_read-Received line bytes m c e h in
      let (lines, last) = feed line bytes in
      let next = (on_read grow irc cancel_fails (succeeded bytes) m).1 in
      let ih =
        reads-Received last more next (ap (λ (i : Impl). i.curstate) r.same_impl ∙ c)
          (ap (λ (i : Impl). i.buffers.recv_buffer) r.same_impl)
          (feed-is_unfinished line bytes h) in
      let all = feed-append line bytes (concat more) in
      record {
        same_events =
            ih.same_events
            ∙ ap (λ l. l ++ line_events grow irc (feed last (concat more)).0) r.same_events
            ∙ append_assoc m.emitted (line_events grow irc lines)
                (line_events grow irc (feed last (concat more)).0)
            ∙ ap (◌++◌ m.emitted)
                (sym (line_events-append grow irc lines (feed last (concat more)).0))
            ∙ ap (λ (f : List (List ℕ) × List ℕ). m.emitted ++ line_events grow irc f.0) (sym all);
        same_impl =
            ih.same_impl
            ∙ ap (filled (feed last (concat more)).1) r.same_impl
            ∙ ap (λ (f : List (List ℕ) × List ℕ). filled f.1 m.impl) (sym all);
      }

  -- The events of the lines, as they are queued.
  pub reads-events :
      (chunks : List (List ℕ)) (m : Machine)
      → m.impl.curstate ≡ connected
      → m.impl.buffers.recv_buffer ≡ []
      → (reads chunks m).emitted ≡ m.emitted ++ line_events grow irc (feed [] (concat chunks)).0
  reads-events chunks m c e = (reads-Received [] chunks m c e refl).same_events

  -- In whatever reads the bytes arrive, a connected machine that has no bytes left over emits for them
  -- exactly the lines, in order, that a reader of single characters makes of all the bytes, each as the
  -- data of an event of `received_line`; it stays connected, and what that reader has left of an unfinished
  -- line is what is in the buffer.
  pub reads_lem :
      (chunks : List (List ℕ)) (m : Machine)
      → m.impl.curstate ≡ connected
      → m.impl.buffers.recv_buffer ≡ []
      → let n = reads chunks m in
        let (lines, last) = feed [] (concat chunks) in
        (lines_of n.emitted ≡ lines_of m.emitted ++ lines)
        × (n.impl.curstate ≡ connected)
        × (n.impl.buffers.recv_buffer ≡ last)
  reads_lem chunks m c e =
      let r = reads-Received [] chunks m c e refl in
      (
        ap lines_of r.same_events
            ∙ lines_of-line_events grow irc m.emitted (feed [] (concat chunks)).0,
        ap (λ (i : Impl). i.curstate) r.same_impl ∙ c,
        ap (λ (i : Impl). i.buffers.recv_buffer) r.same_impl,
      )
