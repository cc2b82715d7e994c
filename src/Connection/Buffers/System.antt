-- ===== src/Connection/Buffers/System.antt =====
-- src/modules/connection.cpp, `buffers_`: the bytes of one connection on their way out, with calls
-- and callbacks in any order, until it ends: no write fails, and no bytes are cleared away.
use libslirc_old.Prelude.{
  ℕ, ◌≤◌, ◌<◌, ◌≡◌, ◌⊎◌, true, false, List, [], ◌++◌, Option, none, some, length, take, drop,
}
use libslirc_old.Connection.Buffers.{Buffers, new_buffers, append, clear, written}

-- The bytes that are not known to be written.
abbrev pub unsent : Buffers → List ℕ
unsent b = drop b.current_send_state b.send_buffer

-- The bytes that were given to `append` and the bytes that the socket has written, as a history.
pub record System : Type 0 where
  pub buffers : Buffers
  pub outstanding : Option (List ℕ)
  pub appended : List ℕ
  pub sent : List ℕ

abbrev pub initial : System
initial = record { buffers = new_buffers; outstanding = none; appended = []; sent = [] }

-- A new write, or the one that is outstanding.
abbrev pub either_write : Option (List ℕ) → Option (List ℕ) → Option (List ℕ)
either_write none old = old
either_write (some bytes) old = some bytes

pub data Step : System → System → Type 0 where
  appends :
      (s : System) (bytes : List ℕ)
      → Step s (
          let (b, write) = append bytes s.buffers in
          record s {
            buffers = b;
            outstanding = either_write write s.outstanding;
            appended = s.appended ++ bytes;
          })
  -- The socket writes a part of what it was given, not nothing, and the callback is called.
  writes :
      (s : System) (bytes : List ℕ) (num_transferred : ℕ)
      → s.outstanding ≡ some bytes
      → 0 < num_transferred
      → num_transferred ≤ length bytes
      → Step s (
          let (b, write) = written num_transferred s.buffers in
          record s {
            buffers = b;
            outstanding = write;
            sent = s.sent ++ take num_transferred bytes;
          })
  -- A new connection clears the buffers before anything of them has been sent.
  clears :
      (s : System)
      → s.outstanding ≡ none
      → s.buffers.current_send_state ≡ 0
      → Step s (record s { buffers = clear s.buffers })

pub data Reach : System → Type 0 where
  here : Reach initial
  next : {s t : System} → Reach s → Step s t → Reach t

-- Every byte is sent once and in order: what was appended is what was sent, what is left of the send
-- buffer and the fill buffer. A write is outstanding, of all that is left of the send buffer, exactly
-- as long as a send job is running; when none is, everything has been sent.
pub record IsConserved (s : System) : Type 0 where
  pub conserved : s.appended ≡ s.sent ++ (unsent s.buffers ++ s.buffers.fill_buffer)
  pub range : s.buffers.current_send_state ≤ length s.buffers.send_buffer
  pub progress :
      ((s.buffers.send_job_running ≡ true)
        × (s.outstanding ≡ some (unsent s.buffers))
        × (0 < length (unsent s.buffers)))
      ⊎ ((s.buffers.send_job_running ≡ false)
          × (s.outstanding ≡ none)
          × (unsent s.buffers ≡ [])
          × (s.buffers.fill_buffer ≡ []))
