-- ===== src/Queue/Grow.antt =====
-- src/queue.rs and src/config.rs: a fresh queue, and the growth of a producer.
use rapidlog.Prelude.{
  ℕ, ◌*◌, ◌%◌, ◌≤◌, ◌<◌, ◌≡◌, refl, List, [], Option, none, some, length, min, leb, if◌then◌else◌,
  arith, ap, ◌∙◌, ◌⊎◌, inl, inr, le→leb, lt→leb_false,
}
use rapidlog.Queue.Ring.{RingBuffer, IsRingBuffer}
use rapidlog.Queue.Frames.{Holds}
use native.Mathlib.Decide.{dec_lt}

-- `DEFAULT_START_CAPACITY` and `MAX_BLOCK_CAPACITY`.
abbrev pub default_start_capacity : ℕ
default_start_capacity = 131_072

abbrev pub max_block_capacity : ℕ
max_block_capacity = 2_147_483_648

-- `enum QueueMode`.
pub data QueueMode : Type 0 where
  unbounded_blocking bounded_dropping : QueueMode

-- The capacity that `SpscProducer::grow` asks for, if it grows.
unfoldable pub grown_capacity : ℕ → Option ℕ
grown_capacity capacity =
    let new_cap = min (capacity * 2) max_block_capacity in
    if leb new_cap capacity then none else some new_cap

module _ (r : RingBuffer) (laws : IsRingBuffer r) where
  open r use {Buffer, stored, capacity, read_pos}

  -- `create_queue` with a capacity of whole cache lines gives an empty queue.
  pub new-Holds : (n : ℕ) → n % 64 ≡ 0 → 0 < n → Holds r (r.new n) []
  new-Holds n aligned some_room =
      let empty = laws.stored-new n in
      let no_bytes = ap (λ (s : List ℕ). length s) empty in
      let size = laws.capacity-new n in
      let start = laws.read_pos-new n in
      record {
        frames = empty;
        fits = omega arith;
        inside = omega arith;
        capacity_aligned = ap (λ k. k % 64) size ∙ aligned;
        position_aligned = ap (λ k. k % 64) start;
        stored_aligned = ap (λ k. k % 64) no_bytes;
      }

-- A producer grows exactly while it is above 0 and below the largest block; then it grows by two or
-- up to that block, and whole cache lines stay whole.
pub grown_capacity_cases :
    (capacity : ℕ)
    → ((grown_capacity capacity ≡ none) × ((capacity ≡ 0) ⊎ (max_block_capacity ≤ capacity)))
      ⊎ ((n : ℕ) × (grown_capacity capacity ≡ some n)
          × (capacity < n)
          × (n ≡ min (capacity * 2) max_block_capacity)
          × (capacity % 64 ≡ 0 → n % 64 ≡ 0))
unfolding grown_capacity
grown_capacity_cases capacity = elim (dec_lt capacity (min (capacity * 2) max_block_capacity)) [
  | yes h ↦ inr (
    min (capacity * 2) max_block_capacity,
    rw (lt→leb_false (min (capacity * 2) max_block_capacity) capacity h),
    h,
    refl,
    (λ e. omega arith),
  )
  | no h ↦
      inl (rw (le→leb (min (capacity * 2) max_block_capacity) capacity (omega arith)), omega arith)
]
