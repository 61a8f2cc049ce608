-- ===== src/Queue/Ring.antt =====
-- The byte ring buffer of the crate rtrb, on which src/queue.rs stands: its operations, and what its
-- documentation says of them. A chunk is a pair of slices, the second one after the wrap-around.
use rapidlog.Prelude.{
  ℕ, ◌+◌, ◌-◌, ◌%◌, ◌≤◌, ◌<◌, ◌≡◌, refl, List, [], ◌++◌, Option, none, some, length, take, drop,
  min, replicate, length-replicate, take-append-drop, length-take, arith, ltb, if◌then◌else◌,
  lt→ltb, le→ltb_false,
}

-- The operations. Producer and consumer share the buffer; each call takes effect at once.
pub record RingBuffer : Type 1 where
  pub Buffer : Type 0
  -- `RingBuffer::new(capacity)`.
  pub new : ℕ → Buffer
  -- `slots()` of the consumer.
  pub slots : Buffer → ℕ
  -- `write_chunk_uninit(n)`: the slices with what their memory holds, or the error.
  pub write_slices : Buffer → ℕ → Option (List ℕ × List ℕ)
  -- `commit` of a whole chunk whose slices were filled with these bytes.
  pub commit_write : Buffer → List ℕ → List ℕ → Buffer
  -- `read_chunk(slots)`.
  pub read_slices : Buffer → List ℕ × List ℕ
  -- `commit(n)` of such a chunk.
  pub commit_read : Buffer → ℕ → Buffer
  -- Not called by the code: the bytes committed and not yet read, the number of places, and the
  -- place of the oldest byte.
  pub stored : Buffer → List ℕ
  pub capacity : Buffer → ℕ
  pub read_pos : Buffer → ℕ

module _ (r : RingBuffer) where
  open r use {Buffer, slots, write_slices, read_slices, commit_write, commit_read, stored}
  open r use {capacity, read_pos}

  abbrev pub free : Buffer → ℕ
  free b = capacity b - length (stored b)

  -- The place that the next byte is written to.
  abbrev pub write_pos : Buffer → ℕ
  write_pos b = (read_pos b + length (stored b)) % capacity b

  -- The chunk that a request for `n` places gets: its first slice goes no further than the end of
  -- the memory.
  pub record IsChunk (b : Buffer) (n : ℕ) (first second : List ℕ) : Type 0 where
    pub granted : write_slices b n ≡ some (first, second)
    pub first_length : length first ≡ min n (capacity b - write_pos b)
    pub both_lengths : length first + length second ≡ n

  -- What the documentation says.
  pub record IsRingBuffer : Type 0 where
    pub stored-new : (n : ℕ) → stored (r.new n) ≡ []
    pub capacity-new : (n : ℕ) → capacity (r.new n) ≡ n
    pub read_pos-new : (n : ℕ) → read_pos (r.new n) ≡ 0
    pub slots_lem : (b : Buffer) → slots b ≡ length (stored b)
    pub write_slices-full : (b : Buffer) (n : ℕ) → free b < n → write_slices b n ≡ none
    pub write_slices-room :
        (b : Buffer) (n : ℕ)
        → n ≤ free b
        → (first : List ℕ) × (second : List ℕ) × IsChunk b n first second
    pub stored-commit_write :
        (b : Buffer) (first second : List ℕ)
        → stored (commit_write b first second) ≡ stored b ++ (first ++ second)
    pub capacity-commit_write :
        (b : Buffer) (first second : List ℕ) → capacity (commit_write b first second) ≡ capacity b
    pub read_pos-commit_write :
        (b : Buffer) (first second : List ℕ) → read_pos (commit_write b first second) ≡ read_pos b
    pub read_slices-append : (b : Buffer) → (read_slices b).0 ++ (read_slices b).1 ≡ stored b
    pub length-read_slices :
        (b : Buffer) → length (read_slices b).0 ≡ min (length (stored b)) (capacity b - read_pos b)
    pub stored-commit_read : (b : Buffer) (n : ℕ) → stored (commit_read b n) ≡ drop n (stored b)
    pub capacity-commit_read : (b : Buffer) (n : ℕ) → capacity (commit_read b n) ≡ capacity b
    pub read_pos-commit_read :
        (b : Buffer) (n : ℕ) → read_pos (commit_read b n) ≡ (read_pos b + n) % capacity b

-- A ring buffer that meets all of this, for runs.
pub record Cells : Type 0 where
  pub places : ℕ
  pub oldest : ℕ
  pub bytes : List ℕ

abbrev next_place : Cells → ℕ
next_place c = (c.oldest + length c.bytes) % c.places

abbrev chunk_of : Cells → ℕ → List ℕ × List ℕ
chunk_of c n =
    let first = min n (c.places - next_place c) in
    (replicate first 0xee, replicate (n - first) 0xee)

abbrev front_of : Cells → ℕ
front_of c = min (length c.bytes) (c.places - c.oldest)

abbrev pub cells : RingBuffer
cells = record {
  Buffer = Cells;
  new = λ n. record { places = n; oldest = 0; bytes = [] };
  slots = λ c. length c.bytes;
  write_slices = λ c n. if ltb (c.places - length c.bytes) n then none else some (chunk_of c n);
  commit_write = λ c first second. record c { bytes = c.bytes ++ (first ++ second) };
  read_slices = λ c. (take (front_of c) c.bytes, drop (front_of c) c.bytes);
  commit_read = λ c n. record c { bytes = drop n c.bytes; oldest = (c.oldest + n) % c.places };
  stored = λ c. c.bytes;
  capacity = λ c. c.places;
  read_pos = λ c. c.oldest;
}

cells_room :
    (c : Cells) (n : ℕ)
    → n ≤ free cells c
    → (first : List ℕ) × (second : List ℕ) × IsChunk cells c n first second
cells_room c n h = (
  (chunk_of c n).0,
  (chunk_of c n).1,
  record {
    granted = rw (le→ltb_false (c.places - length c.bytes) n h);
    first_length = length-replicate (min n (c.places - next_place c)) 0xee;
    both_lengths = rw (length-replicate, length-replicate) (omega arith);
  },
)

pub cells-IsRingBuffer : IsRingBuffer cells
cells-IsRingBuffer = record {
  stored-new = λ n. refl;
  capacity-new = λ n. refl;
  read_pos-new = λ n. refl;
  slots_lem = λ b. refl;
  write_slices-full = λ b n h. rw (lt→ltb (b.places - length b.bytes) n h);
  write_slices-room = cells_room;
  stored-commit_write = λ b first second. refl;
  capacity-commit_write = λ b first second. refl;
  read_pos-commit_write = λ b first second. refl;
  read_slices-append = λ b. take-append-drop (front_of b) b.bytes;
  length-read_slices = λ b. omega (arith, length-take (front_of b) b.bytes);
  stored-commit_read = λ b n. refl;
  capacity-commit_read = λ b n. refl;
  read_pos-commit_read = λ b n. refl;
}
