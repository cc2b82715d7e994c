-- ===== src/Connection/Buffers/Sending.antt =====
-- src/modules/connection.cpp: what becomes of the bytes that are to be sent, from the time that a
-- connection is made, with callbacks in any order with new bytes.
use libslirc_old.Prelude.{
  ℕ, ◌+◌, ◌≤◌, ◌<◌, ◌≡◌, refl, sym, ap, ◌∙◌, ◌⊎◌, inl, inr, true, false, not, ◌&&◌, List, [], ◌∷◌,
  ◌++◌, arith, Option, none, some, ltb, length, take, drop, length-drop, drop-drop, drop_all,
  take-append-drop, Bool-cases, subst,
}
use mathlib.Core.Option.{some-injective}
use mathlib.Core.List.{append-nil, append_assoc}
use libslirc_old.Connection.Buffers.{
  Buffers, swap, at_end, start_write, send, append, clear, written,
}
use libslirc_old.Connection.Buffers.System.{
  unsent, System, either_write, Step, Reach, IsConserved, appends, writes, clears, here, next,
}

-- What `send` leaves, from bytes that are left to be sent while a job is marked as running.
abbrev Sends : Buffers → Buffers × Option (List ℕ) → Type 0
Sends b (after, write) =
    (unsent after ++ after.fill_buffer ≡ unsent b ++ b.fill_buffer)
    × (after.current_send_state ≤ length after.send_buffer)
    × (((after.send_job_running ≡ true)
          × (write ≡ some (unsent after))
          × (0 < length (unsent after)))
        ⊎ ((after.send_job_running ≡ false)
            × (write ≡ none)
            × (unsent after ≡ [])
            × (after.fill_buffer ≡ [])))

start_write-Sends :
    (b : Buffers)
    → b.send_job_running ≡ true
    → b.current_send_state ≤ length b.send_buffer
    → (at_end b ≡ true → b.fill_buffer ≡ [])
    → Sends b (start_write b)
unfolding start_write
start_write-Sends b r h empty = elim (Bool-cases (at_end b)) [
  | inl done ↦
      let none_left : unsent b ≡ [] = drop_all b.current_send_state b.send_buffer (ground arith) in
      rw done (refl, h, inr (refl, refl, none_left, empty done))
  | inr more ↦
      rw more
        (refl, h, inl (r, refl, ground (arith, length-drop b.current_send_state b.send_buffer)))
]

send-Sends :
    (b : Buffers)
    → b.send_job_running ≡ true
    → b.current_send_state ≤ length b.send_buffer
    → Sends b (send b)
unfolding send swap
send-Sends b r h = elim (Bool-cases (at_end b)) [
  | inr more ↦ rw more (start_write-Sends b r h λ e. absurd (cc))
  | inl done ↦
      let none_left : unsent b ≡ [] = drop_all b.current_send_state b.send_buffer (ground arith) in
      let (same, range, started) = start_write-Sends (swap b) r (omega arith) (λ e. refl) in
      rw done (
        same ∙ append-nil b.fill_buffer ∙ ap (λ l. l ++ b.fill_buffer) (sym none_left),
        range,
        started,
      )
]

regroup :
    (all sent q f bytes : List ℕ)
    → all ≡ sent ++ (q ++ f)
    → all ++ bytes ≡ sent ++ (q ++ (f ++ bytes))
regroup all sent q f bytes h =
    ap (λ l. l ++ bytes) h
    ∙ append_assoc sent (q ++ f) bytes
    ∙ ap (λ l. sent ++ l) (append_assoc q f bytes)

nothing_of_idle : (bytes : List ℕ) → ltb 0 (length bytes) ≡ false → bytes ≡ []
nothing_of_idle [] h = refl
nothing_of_idle (c ∷ bytes) h = absurd (ground arith)

-- A call of `append` that only fills the buffer.
filled-IsConserved :
    (s : System) (bytes : List ℕ)
    → (not s.buffers.send_job_running && ltb 0 (length bytes)) ≡ false
    → IsConserved s
    → IsConserved (record s {
      buffers = record (s.buffers) { fill_buffer = s.buffers.fill_buffer ++ bytes };
      appended = s.appended ++ bytes;
    })
filled-IsConserved s bytes quiet v = record {
  conserved = regroup s.appended s.sent (unsent s.buffers) s.buffers.fill_buffer bytes v.conserved;
  range = v.range;
  progress = elim v.progress [
    | inl (runs, write, more) ↦ inl (runs, write, more)
    | inr (idle, no_write, none_left, empty) ↦
        inr (idle, no_write, none_left, rw empty (nothing_of_idle bytes (ground arith)))
  ];
}

-- What `send` makes of the bytes that are left.
Sends-IsConserved :
    (b : Buffers) (done : Buffers × Option (List ℕ)) (appended sent : List ℕ)
    → Sends b done
    → appended ≡ sent ++ (unsent b ++ b.fill_buffer)
    → IsConserved
        (record { buffers = done.0; outstanding = done.1; appended = appended; sent = sent })
Sends-IsConserved b done appended sent (same, range, progress) h = record {
  conserved = h ∙ ap (λ l. sent ++ l) (sym same);
  range = range;
  progress = progress;
}

either_write-none : (write : Option (List ℕ)) → either_write write none ≡ write
either_write-none none = refl
either_write-none (some bytes) = refl

-- The written part goes over to what has been sent.
moved :
    (all sent q f : List ℕ) (n : ℕ)
    → all ≡ sent ++ (q ++ f)
    → all ≡ sent ++ take n q ++ (drop n q ++ f)
moved all sent q f n h =
    h
    ∙ ap (λ l. sent ++ (l ++ f)) (sym (take-append-drop n q))
    ∙ ap (λ l. sent ++ l) (append_assoc (take n q) (drop n q) f)
    ∙ sym (append_assoc sent (take n q) (drop n q ++ f))

writes-IsConserved :
    (s : System) (n : ℕ)
    → IsConserved s
    → s.buffers.send_job_running ≡ true
    → n ≤ length (unsent s.buffers)
    → let (b, write) = written n s.buffers in
      IsConserved (record {
        buffers = b;
        outstanding = write;
        appended = s.appended;
        sent = s.sent ++ take n (unsent s.buffers);
      })
unfolding written
writes-IsConserved s n v runs inside =
    let b : Buffers = record (s.buffers) {
      current_send_state = s.buffers.current_send_state + n;
    } in
    let rest = drop-drop s.buffers.current_send_state n s.buffers.send_buffer in
    let range : b.current_send_state ≤ length b.send_buffer =
      omega
        (arith, inside, v.range, length-drop s.buffers.current_send_state s.buffers.send_buffer) in
    Sends-IsConserved b (send b) s.appended (s.sent ++ take n (unsent s.buffers))
      (send-Sends b runs range)
      (moved s.appended s.sent (unsent s.buffers) s.buffers.fill_buffer n v.conserved
        ∙ ap (λ l. s.sent ++ take n (unsent s.buffers) ++ (l ++ s.buffers.fill_buffer)) rest)

starts-IsConserved :
    (s : System) (bytes : List ℕ)
    → (not s.buffers.send_job_running && ltb 0 (length bytes)) ≡ true
    → IsConserved s
    → let (b, write) = append bytes s.buffers in
      IsConserved (record s {
        buffers = b;
        outstanding = either_write write s.outstanding;
        appended = s.appended ++ bytes;
      })
unfolding append
starts-IsConserved s bytes starts v = elim v.progress [
  | inl (runs, _, _) ↦ absurd (ground arith)
  | inr (idle, no_write, none_left, empty) ↦
      let b : Buffers = record (s.buffers) {
        fill_buffer = s.buffers.fill_buffer ++ bytes;
        send_job_running = true;
      } in
      let outstanding = ap (either_write (send b).1) no_write ∙ either_write-none (send b).1 in
      rw starts (
        subst
          (λ o. IsConserved (record {
            buffers = (send b).0;
            outstanding = o;
            appended = s.appended ++ bytes;
            sent = s.sent;
          }))
          (sym outstanding)
          (Sends-IsConserved b (send b) (s.appended ++ bytes) s.sent (send-Sends b refl v.range)
            (regroup s.appended s.sent (unsent s.buffers) s.buffers.fill_buffer bytes v.conserved)))
]

clears-IsConserved :
    (s : System)
    → s.outstanding ≡ none
    → s.buffers.current_send_state ≡ 0
    → IsConserved s
    → IsConserved (record s { buffers = clear s.buffers })
unfolding clear
clears-IsConserved s no_write fresh v = elim v.progress [
  | inl (runs, write, _) ↦ absurd (cc)
  | inr (idle, _, none_left, empty) ↦
      let cleared : drop s.buffers.current_send_state [] ≡ [] = ap (λ n. drop n []) fresh in
      record {
        conserved =
            v.conserved
            ∙ ap (◌++◌ s.sent) (
                ap (λ l. l ++ s.buffers.fill_buffer) none_left
                ∙ empty
                ∙ sym (ap (λ l. l ++ []) cleared));
        range = omega (arith, fresh);
        progress = inr (refl, no_write, cleared, refl);
      }
]

Step-IsConserved : {s t : System} → Step s t → IsConserved s → IsConserved t
unfolding append
Step-IsConserved (appends s bytes) v =
    elim (Bool-cases (not s.buffers.send_job_running && ltb 0 (length bytes))) [
      | inr quiet ↦ rw quiet (filled-IsConserved s bytes quiet v)
      | inl starts ↦ starts-IsConserved s bytes starts v
    ]
Step-IsConserved (writes s bytes n outstanding some_written inside) v = elim v.progress [
  | inr (idle, no_write, _, _) ↦ absurd (cc)
  | inl (runs, write, _) ↦
      let same : bytes ≡ unsent s.buffers = some-injective _ _ (sym outstanding ∙ write) in
      subst
        (λ l. IsConserved (record {
          buffers = (written n s.buffers).0;
          outstanding = (written n s.buffers).1;
          appended = s.appended;
          sent = s.sent ++ take n l;
        }))
        (sym same) (writes-IsConserved s n v runs (subst (λ l. n ≤ length l) same inside))
]
Step-IsConserved (clears s no_write fresh) v = clears-IsConserved s no_write fresh v

pub Reach-IsConserved : {s : System} → Reach s → IsConserved s
Reach-IsConserved here = record {
  conserved = refl;
  range = omega arith;
  progress = inr (refl, refl, refl, refl);
}
Reach-IsConserved (next r step) = Step-IsConserved step (Reach-IsConserved r)
