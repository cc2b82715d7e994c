-- ===== src/Connection/Buffers.antt =====
-- src/modules/connection.cpp, `buffers_`: the bytes on their way out. The iterator into the send buffer
-- is its offset. A call of `async_write_some` is the list of bytes that it is given; its callback comes
-- later with the number of bytes that were written.
pub mod System
pub mod Sending
pub mod Sizes
mod Tests
use libslirc_old.Prelude.{
  ℕ, ◌+◌, ◌-◌, ◌%◌, ◌^◌, Bool, true, false, not, ◌&&◌, List, [], ◌++◌, Option, none, some, ltb,
  ◌==◌, if◌then◌else◌, length, drop,
}

pub record Buffers : Type 0 where
  pub send_buffer : List ℕ
  pub fill_buffer : List ℕ
  pub recv_buffer : List ℕ
  pub current_send_state : ℕ
  pub send_job_running : Bool

abbrev pub new_buffers : Buffers
new_buffers = record {
  send_buffer = [];
  fill_buffer = [];
  recv_buffer = [];
  current_send_state = 0;
  send_job_running = false;
}

-- The offset stays: behind a part that has been sent it stands for an iterator that is invalid now.
pub clear : Buffers → Buffers
clear b = record b {
  send_buffer = [];
  fill_buffer = [];
  recv_buffer = [];
  send_job_running = false;
}

swap : Buffers → Buffers
swap b = record b { send_buffer = b.fill_buffer; fill_buffer = []; current_send_state = 0 }

-- `send_buffer.end() == current_send_state`
abbrev pub at_end : Buffers → Bool
at_end b = length b.send_buffer == b.current_send_state

-- `send_buffer.end()-current_send_state`, the size that a write is given, as a `std::size_t` of 64 bits.
pub write_size : Buffers → ℕ
write_size b = (length b.send_buffer + 2 ^ 64 - b.current_send_state) % 2 ^ 64

-- The end of `send`: no write if there is nothing to send.
start_write : Buffers → Buffers × Option (List ℕ)
start_write b =
    if at_end b
    then (record b { send_job_running = false }, none)
    else (b, some (drop b.current_send_state b.send_buffer))

-- `send`, with the write that it starts.
pub send : Buffers → Buffers × Option (List ℕ)
unfolding swap start_write
send b = start_write (if at_end b then swap b else b)

pub append : List ℕ → Buffers → Buffers × Option (List ℕ)
unfolding send
append bytes b =
    let filled = record b { fill_buffer = b.fill_buffer ++ bytes } in
    if not b.send_job_running && ltb 0 (length bytes)
    then send (record filled { send_job_running = true })
    else (filled, none)

-- The callback of a write without an error, on a connection that is still connected.
pub written : ℕ → Buffers → Buffers × Option (List ℕ)
unfolding send
written num_transferred b =
    send (record b { current_send_state = b.current_send_state + num_transferred })
