-- ===== src/Connection/Buffers/Sizes.antt =====
-- src/modules/connection.cpp, `buffers_`: the sizes of the writes, and what a connection leaves to the
-- next one.
use libslirc_old.Prelude.{
  ℕ, ◌^◌, ◌≤◌, ◌<◌, ◌≡◌, ◌≢◌, sym, ap, ◌∙◌, inl, inr, List, arith, none, some, length, length-drop,
}
use mathlib.Core.Option.{some-injective}
use libslirc_old.Connection.Buffers.{Buffers, clear, write_size, start_write, send, append}
use libslirc_old.Connection.Buffers.System.{unsent, System, Reach}
use libslirc_old.Connection.Buffers.Sending.{Reach-IsConserved}

write_size-unsent :
    (b : Buffers)
    → b.current_send_state ≤ length b.send_buffer
    → length b.send_buffer < 2 ^ 64
    → write_size b ≡ length (unsent b)
unfolding write_size
write_size-unsent b r h = omega (arith, length-drop b.current_send_state b.send_buffer)

-- On a connection whose buffers were new, as long as no write fails and the buffers are cleared at most
-- while nothing has been sent and no write is outstanding: a write that is outstanding has been given the
-- size of its bytes, if the send buffer has less than 2^64.
pub outstanding_size :
    {s : System} {bytes : List ℕ}
    → Reach s
    → s.outstanding ≡ some bytes
    → length s.buffers.send_buffer < 2 ^ 64
    → (write_size s.buffers ≡ length bytes) × (length bytes ≤ length s.buffers.send_buffer)
outstanding_size {s} r out h =
    let v = Reach-IsConserved r in
    elim v.progress [
      | inr (_, no_write, _, _) ↦ absurd (cc)
      | inl (_, write, _) ↦
          let same = ap length (some-injective _ _ (sym out ∙ write)) in
          let size = write_size-unsent s.buffers v.range h in
          let left = length-drop s.buffers.current_send_state s.buffers.send_buffer in
          (omega (arith, same, size), omega (arith, same, left))
    ]

-- When the buffers are cleared behind a part of the send buffer that has been sent, the next bytes
-- stay in the fill buffer, and a write is started whose size is greater than that of the send buffer,
-- which is empty.
pub clear-overruns :
    (b : Buffers) (bytes : List ℕ)
    → 0 < b.current_send_state
    → b.current_send_state < 2 ^ 64
    → 0 < length bytes
    → let (after, write) = append bytes (clear b) in
      (after.fill_buffer ≡ bytes)
      × (length after.send_buffer < write_size after)
      × (length after.send_buffer ≡ 0)
      × (write ≢ none)
unfolding clear append send start_write write_size
clear-overruns b bytes k small more = ground arith
