-- ===== src/Queue/Misaligned.antt =====
-- A queue whose capacity is not a multiple of 8: the header of a frame at the end of the memory.
use rapidlog.Prelude.{
  ℕ, ◌+◌, ◌-◌, ◌≤◌, ◌<◌, ◌≡◌, List, panicked, write_at-panicked, length, le_bytes, length-le_bytes,
  arith, lt→leb_false,
}
use rapidlog.Queue.Ring.{RingBuffer, IsRingBuffer, free, write_pos}
use rapidlog.Queue.Defs.{padded_size, fill, fill_both, push}

module _ (r : RingBuffer) (laws : IsRingBuffer r) where
  open r use {Buffer, capacity}

  -- With fewer than four places from the next one to the end of the memory, `push` writes the header behind
  -- that end, although the queue has room for the message.
  pub push-panicked :
      (b : Buffer) (msg : List ℕ)
      → padded_size (length msg) ≤ free r b
      → capacity b - write_pos r b < 4
      → push r b msg ≡ panicked
  unfolding push fill fill_both
  push-panicked b msg room short =
      let (first, second, c) = laws.write_slices-room b (padded_size (length msg)) room in
      let few : length first < 4 = omega (arith, c.first_length) in
      rw (
        c.granted,
        push,
        lt→leb_false (8 + length msg) (length first) (omega arith),
        write_at-panicked first (le_bytes 4 (length msg)) 0
            (omega (arith, length-le_bytes 4 (length msg))),
      )
