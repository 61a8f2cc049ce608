-- ===== src/Queue/Frames.antt =====
-- What a buffer holds: the frames of the messages that were pushed and not yet popped.
use rapidlog.Prelude.{
  ℕ, ◌+◌, ◌-◌, ◌%◌, ◌^◌, ◌≤◌, ◌<◌, ◌≡◌, List, [], ◌∷◌, ◌++◌, length, append_assoc, length-append,
  length-replicate, replicate, le_bytes, arith, append-nil, refl, ap, ◌∙◌,
}
use rapidlog.Queue.Ring.{RingBuffer}
use rapidlog.Queue.Defs.{header_size, padded_size}
use rapidlog.Queue.Writes.{frame}

-- `bytes` are the frames of `msgs`, one behind the other.
abbrev pub Frames : List (List ℕ) → List ℕ → Type 0
Frames [] bytes = bytes ≡ []
Frames (m ∷ ms) bytes =
    (gap : List ℕ) × (rest : List ℕ) × (length gap ≡ 4)
    × (length m < 256 ^ 4)
    × (bytes ≡ frame gap m (padded_size (length m)) ++ rest)
    × Frames ms rest

-- Lines of a cache line, of which the code's capacities and positions are multiples.
abbrev pub IsAligned : ℕ → Type 0
IsAligned n = n % 64 ≡ 0

pub length-frame :
    (gap m : List ℕ)
    → length gap ≡ 4
    → length (frame gap m (padded_size (length m))) ≡ padded_size (length m)
length-frame gap m e = omega (
  arith,
  length-append (le_bytes 4 (length m)) (gap ++ (m ++ zeros)),
  length-append gap (m ++ zeros),
  length-append m zeros,
  length-replicate {A = ℕ} (padded_size (length m) - (header_size + length m)) 0,
)
  where
    zeros : List ℕ
    zeros = replicate (padded_size (length m) - (header_size + length m)) 0

-- One more frame behind the others.
pub Frames-append :
    (ms : List (List ℕ)) (m : List ℕ) (bytes gap : List ℕ)
    → Frames ms bytes
    → length gap ≡ 4
    → length m < 256 ^ 4
    → Frames (ms ++ (m ∷ [])) (bytes ++ frame gap m (padded_size (length m)))
Frames-append [] m bytes gap h e small = (gap, [], e, small, rw (h, append-nil), refl)
Frames-append (n ∷ ms) m bytes gap (g, rest, eg, sn, eb, h) e small = (
  g,
  rest ++ frame gap m (padded_size (length m)),
  eg,
  sn,
  ap (λ bs. bs ++ frame gap m (padded_size (length m))) eb
      ∙ append_assoc (frame g n (padded_size (length n))) rest
          (frame gap m (padded_size (length m))),
  Frames-append ms m rest gap h e small,
)

-- The state of a queue between calls, seen from outside: the messages in it, oldest first.
module _ (r : RingBuffer) where
  open r use {Buffer, stored, capacity, read_pos}

  pub record Holds (b : Buffer) (ms : List (List ℕ)) : Type 0 where
    pub frames : Frames ms (stored b)
    pub fits : length (stored b) ≤ capacity b
    pub inside : read_pos b < capacity b
    pub capacity_aligned : IsAligned (capacity b)
    pub position_aligned : IsAligned (read_pos b)
    pub stored_aligned : IsAligned (length (stored b))
