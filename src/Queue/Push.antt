-- ===== src/Queue/Push.antt =====
-- `push` and `push_encoded` on a queue whose capacity is a multiple of the cache line.
use rapidlog.Prelude.{
  ℕ, ◌+◌, ◌%◌, ◌^◌, ◌≤◌, ◌<◌, ◌≡◌, List, [], ◌∷◌, ◌++◌, none, some, ok, length, length-append,
  arith, ap, ◌∙◌,
}
use rapidlog.Queue.Ring.{RingBuffer, IsRingBuffer, IsChunk, free, write_pos}
use rapidlog.Queue.Defs.{padded_size, fill, push}
use rapidlog.Queue.Writes.{frame, IsFilled, fill-IsFilled}
use rapidlog.Queue.Frames.{Frames-append, length-frame, Holds}
use native.Mathlib.Nat.{mod-mod_of_dvd, mod-lt, dvd_of_mod-eq-zero}

module _ (r : RingBuffer) (laws : IsRingBuffer r) where
  open r use {Buffer, stored, capacity, read_pos, commit_write}

  mod_aligned : (p n : ℕ) → p % 64 ≡ 0 → n % 64 ≡ 0 → p % n % 64 ≡ 0
  mod_aligned p n hp hn = mod-mod_of_dvd 64 {b = n} p (dvd_of_mod-eq-zero 64 hn) ∙ hp

  -- The place of the next byte is at a cache line, within the memory.
  write_pos_aligned :
      (b : Buffer) (ms : List (List ℕ))
      → Holds r b ms
      → (write_pos r b % 64 ≡ 0) × (write_pos r b < capacity b)
  write_pos_aligned b ms h = (
    mod_aligned (read_pos b + length (stored b)) (capacity b)
        (omega (arith, h.position_aligned, h.stored_aligned)) h.capacity_aligned,
    mod-lt (read_pos b + length (stored b)) (omega (arith, h.inside)),
  )

  -- A chunk for a message holds its frame.
  pub chunk-IsFilled :
      (b : Buffer) (ms : List (List ℕ)) (msg first second : List ℕ)
      → Holds r b ms
      → IsChunk r b (padded_size (length msg)) first second
      → IsFilled msg (padded_size (length msg)) (fill msg first second)
  chunk-IsFilled b ms msg first second h c =
      let (aligned, inside) = write_pos_aligned b ms h in
      fill-IsFilled msg first second (padded_size (length msg))
        (omega (arith, c.first_length, h.capacity_aligned)) (omega arith) c.both_lengths
        (λ fits. omega (arith, c.first_length, c.both_lengths, h.capacity_aligned))

  -- The queue behind a push: the message is the last one.
  pub record IsPushed (b : Buffer) (ms : List (List ℕ)) (msg : List ℕ) (b' : Buffer) : Type 0 where
    pub holds : Holds r b' (ms ++ (msg ∷ []))
    pub same_capacity : capacity b' ≡ capacity b
    pub grown : length (stored b') ≡ length (stored b) + padded_size (length msg)

  pub commit-IsPushed :
      (b : Buffer) (ms : List (List ℕ)) (msg first second gap : List ℕ)
      → Holds r b ms
      → length msg < 256 ^ 4
      → padded_size (length msg) ≤ free r b
      → length gap ≡ 4
      → first ++ second ≡ frame gap msg (padded_size (length msg))
      → IsPushed b ms msg (commit_write b first second)
  commit-IsPushed b ms msg first second gap h small room eg ej =
      let stored' : stored (commit_write b first second)
          ≡ stored b ++ frame gap msg (padded_size (length msg)) =
        laws.stored-commit_write b first second ∙ ap (λ f. stored b ++ f) ej in
      let grown' : length (stored (commit_write b first second))
          ≡ length (stored b) + padded_size (length msg) =
        ap (λ (s : List ℕ). length s) stored'
        ∙ length-append (stored b) (frame gap msg (padded_size (length msg)))
        ∙ ap (λ n. length (stored b) + n) (length-frame gap msg eg) in
      let capacity' = laws.capacity-commit_write b first second in
      let read_pos' = laws.read_pos-commit_write b first second in
      let frames' = Frames-append ms msg (stored b) gap h.frames eg small in
      record {
        holds = record {
          frames = rw stored' frames';
          fits = omega (arith, h.fits);
          inside = omega (arith, h.inside);
          capacity_aligned = rw capacity' h.capacity_aligned;
          position_aligned = rw read_pos' h.position_aligned;
          stored_aligned = omega (arith, h.stored_aligned);
        };
        same_capacity = capacity';
        grown = grown';
      }

  -- `push` of a message shorter than 2^32 bytes, on a queue of whole cache lines with room for its
  -- frame: it succeeds, every raw write stays inside the chunk, and the message stands behind the
  -- others, which are as they were.
  pub push-IsPushed :
      (b : Buffer) (ms : List (List ℕ)) (msg : List ℕ)
      → Holds r b ms
      → length msg < 256 ^ 4
      → padded_size (length msg) ≤ free r b
      → (b' : Buffer) × (push r b msg ≡ ok (some b')) × IsPushed b ms msg b'
  unfolding push
  push-IsPushed b ms msg h small room =
      let (first, second, c) = laws.write_slices-room b (padded_size (length msg)) room in
      let f = chunk-IsFilled b ms msg first second h c in
      (
        commit_write b f.first f.second,
        rw (c.granted, push, f.filled),
        commit-IsPushed b ms msg f.first f.second f.gap h small room f.gap_length f.joined,
      )

  -- Without room it reports `Full`.
  pub push-full :
      (b : Buffer) (msg : List ℕ) → free r b < padded_size (length msg) → push r b msg ≡ ok none
  unfolding push
  push-full b msg h = rw (laws.write_slices-full b (padded_size (length msg)) h, push)
