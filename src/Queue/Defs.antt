-- ===== src/Queue/Defs.antt =====
-- src/queue.rs over a ring buffer: the frames in which messages are written, `push`, `push_encoded`,
-- `pop` and `pop_all`.
use rapidlog.Prelude.{
  ℕ, zero, suc, ◌+◌, ◌-◌, ◌*◌, ◌/◌, List, [], ◌∷◌, ◌++◌, Option, none, some, Run, ok, out_of_fuel,
  ◌>>=◌, write_at, slice, length, min, replicate, le_bytes, from_le, ltb, leb, if◌then◌else◌,
}
use rapidlog.Queue.Ring.{RingBuffer}

abbrev pub header_size : ℕ
header_size = 8

abbrev pub cache_line : ℕ
cache_line = 64

-- `align_up`. For a power of two, `& !(align - 1)` clears what is over a multiple of it.
abbrev pub align_up : ℕ → ℕ → ℕ
align_up n align = (n + align - 1) / align * align

-- The places that a message of `len` bytes takes.
abbrev pub padded_size : ℕ → ℕ
padded_size len = align_up (header_size + len) cache_line

-- Lines 77 to 86: the message fits into the first slice. The header is one `u32`.
unfoldable pub fill_first : List ℕ → List ℕ → List ℕ → Run (List ℕ × List ℕ)
fill_first msg first second = do
  first₁ ← write_at first 0 (le_bytes 4 (length msg))
  first₂ ← write_at first₁ header_size msg
  let total = header_size + length msg
  first₃ ← write_at first₂ total (replicate (length first - total) 0)
  ok (first₃, replicate (length second) 0)

-- Lines 87 to 102: the message goes on in the second slice.
unfoldable pub fill_both : List ℕ → List ℕ → List ℕ → Run (List ℕ × List ℕ)
fill_both msg first second = do
  let first_data = length first - header_size
  first₁ ← write_at first 0 (le_bytes 4 (length msg))
  front ← slice msg 0 first_data
  first₂ ← write_at first₁ header_size front
  let remaining = length msg - first_data
  back ← slice msg first_data (first_data + remaining)
  second₁ ← write_at second 0 back
  second₂ ← write_at second₁ remaining (replicate (length second - remaining) 0)
  ok (first₂, second₂)

-- The slices of a chunk once the message is in them.
unfoldable pub fill : List ℕ → List ℕ → List ℕ → Run (List ℕ × List ℕ)
unfolding fill_first fill_both
fill msg first second =
    if leb (header_size + length msg) (length first)
    then fill_first msg first second
    else fill_both msg first second

-- The slice that the closure of `push_encoded` gets: the payload's place in the first slice, or,
-- if the message does not fit there, a vector of zeros.
unfoldable pub encode_buffer : ℕ → List ℕ → Run (List ℕ)
encode_buffer total_msg first =
    if leb (header_size + total_msg) (length first)
    then slice first header_size (header_size + total_msg)
    else ok (replicate total_msg 0)

-- Lines 186 to 206, for slices that hold a header at least: the message at the front and the
-- places it takes, if all of them are there.
unfoldable pub read_frame : List ℕ → List ℕ → Run (Option (List ℕ × ℕ))
read_frame first second = do
  len_buf ← slice first 0 4
  let msg_len = from_le len_buf
  let first_payload = min (length first - header_size) msg_len
  let remaining = msg_len - first_payload
  let msg = do
    front ← slice first header_size (header_size + first_payload)
    back ← slice second 0 (min remaining (length second))
    ok (some (front ++ back, padded_size msg_len))
  if ltb (length first + length second) (padded_size msg_len) then ok none else msg

module _ (r : RingBuffer) where
  open r use {Buffer, slots, write_slices, read_slices, commit_write, commit_read}

  -- `SpscProducer::push`; `none` is `Err(PushError::Full)`.
  unfoldable pub push : Buffer → List ℕ → Run (Option Buffer)
  unfolding fill
  push b msg = elim (write_slices b (padded_size (length msg))) [
    | none ↦ ok none
    | some (first, second) ↦ do
      (first', second') ← fill msg first second
      ok (some (commit_write b first' second'))
  ]

  -- `SpscProducer::push_encoded`. The closure takes the slice, and returns its value beside what it
  -- left there; a slice keeps its length.
  unfoldable pub push_encoded :
      {R : Type 0} → Buffer → ℕ → (List ℕ → Run (R × List ℕ)) → Run (Option (R × Buffer))
  unfolding fill encode_buffer
  push_encoded b total_msg encode = elim (write_slices b (padded_size total_msg)) [
    | none ↦ ok none
    | some (first, second) ↦ do
      buf ← encode_buffer total_msg first
      (result, msg) ← encode buf
      (first', second') ← fill msg first second
      ok (some (result, commit_write b first' second'))
  ]

  -- `SpscConsumer::pop`.
  unfoldable pub pop : Buffer → Run (Option (List ℕ × Buffer))
  unfolding read_frame
  pop b =
      let (first, second) = read_slices b in
      let frame = do
        found ← read_frame first second
        elim found [ none ↦ ok none | some (msg, padded) ↦ ok (some (msg, commit_read b padded)) ]
      in if ltb (slots b) header_size
        then ok none
        else if ltb (length first) header_size
        then ok none
        else frame

  -- The loop of `SpscConsumer::pop_all`.
  unfoldable pub pop_loop : ℕ → Buffer → Run (List (List ℕ) × Buffer)
  unfolding pop
  pop_loop zero b = out_of_fuel
  pop_loop (suc fuel) b = do
    popped ← pop b
    elim popped [
      | none ↦ ok ([], b)
      | some (msg, b') ↦ do (msgs, b'') ← pop_loop fuel b'; ok (msg ∷ msgs, b'')
    ]

  -- `pop_all`. Each round takes at least a cache line, so the stored bytes bound the rounds.
  unfoldable pub pop_all : Buffer → Run (List (List ℕ) × Buffer)
  unfolding pop_loop
  pop_all b = pop_loop (slots b + 1) b
