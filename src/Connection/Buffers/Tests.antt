-- ===== src/Connection/Buffers/Tests.antt =====
-- src/modules/connection.cpp: the buffers on a few bytes.
use libslirc_old.Prelude.{refl, true, [], ◌∷◌, some, none, arith, ℕ, ◌≤◌, ◌<◌, ◌≡◌, ◌≢◌, length}
use libslirc_old.Connection.Buffers.{swap, start_write, send, append, written, clear, write_size}
use libslirc_old.Connection.Buffers.Sizes.{outstanding_size, clear-overruns}
use libslirc_old.Connection.Buffers.System.{System, Reach, appends, writes, here, next}

-- 1, 2 and 3 are appended, 4 while they are written; the first write takes two of them.
abbrev busy : System
busy = record {
  buffers = record {
    send_buffer = 1 ∷ 2 ∷ 3 ∷ [];
    fill_buffer = 4 ∷ [];
    recv_buffer = [];
    current_send_state = 2;
    send_job_running = true;
  };
  outstanding = some (3 ∷ []);
  appended = 1 ∷ 2 ∷ 3 ∷ 4 ∷ [];
  sent = 1 ∷ 2 ∷ [];
}

busy-Reach : Reach busy
unfolding append written send swap start_write
busy-Reach =
    next (next (next here (appends _ (1 ∷ 2 ∷ 3 ∷ []))) (appends _ (4 ∷ [])))
      (writes _ (1 ∷ 2 ∷ 3 ∷ []) 2 refl (omega arith) (omega arith))

outstanding_size_example :
    (write_size busy.buffers ≡ length {A = ℕ} (3 ∷ []))
    × (length {A = ℕ} (3 ∷ []) ≤ length busy.buffers.send_buffer)
outstanding_size_example = outstanding_size busy-Reach refl (omega arith)

-- The connection ends here, and 7 and 8 are for the next one.
clear-overruns_example :
    let (after, write) = append (7 ∷ 8 ∷ []) (clear busy.buffers) in
    (after.fill_buffer ≡ 7 ∷ 8 ∷ [])
    × (length after.send_buffer < write_size after)
    × (length after.send_buffer ≡ 0)
    × (write ≢ none)
clear-overruns_example =
    clear-overruns busy.buffers (7 ∷ 8 ∷ []) (omega arith) (omega arith) (omega arith)
