-- ===== src/Queue/Runs.antt =====
-- Runs of the queue on the ring buffer `cells`.
use rapidlog.Prelude.{
  ℕ, ◌*◌, ◌%◌, ◌≤◌, min, length-replicate, ◌∙◌, ◌<◌, ◌≡◌, ◌⊎◌, refl, List, [], ◌∷◌, none, some, Run,
  ok, panicked, replicate, length, arith,
}
use rapidlog.Queue.Ring.{cells, cells-IsRingBuffer, Cells}
use rapidlog.Queue.Defs.{push, pop, pop_all}
use rapidlog.Queue.Frames.{Holds}
use rapidlog.Queue.Grow.{new-Holds, grown_capacity, grown_capacity_cases, max_block_capacity}
use rapidlog.Queue.Push.{IsPushed, push-IsPushed, push-full}
use rapidlog.Queue.Pop.{IsPopped, pop_lem, pop_all_lem}
use rapidlog.Queue.Refine.{
  Call, push_call, pop_call, pushed, full, nothing, message, run, fifo, run_refines, used,
}
use rapidlog.Queue.Encoded.{IsPushedSlice, Encodes, push_encoded-IsPushedSlice}
use rapidlog.Queue.Misaligned.{push-panicked}

abbrev two_bytes : List ℕ
two_bytes = 5 ∷ 6 ∷ []

abbrev small_queue : Cells
small_queue = record { places = 128; oldest = 0; bytes = [] }

-- Three cache lines asked of a queue of two; the third push finds room again behind the wrap-around.
abbrev calls : List Call
calls =
    push_call (1 ∷ 2 ∷ 3 ∷ [])
    ∷ push_call (7 ∷ [])
    ∷ push_call (8 ∷ [])
    ∷ pop_call
    ∷ push_call (replicate 56 9)
    ∷ pop_call
    ∷ pop_call
    ∷ pop_call
    ∷ []

small_queue-Holds : Holds cells small_queue []
small_queue-Holds = new-Holds cells cells-IsRingBuffer 128 refl (omega arith)

fifo_run :
    fifo 128 [] calls
    ≡ pushed
      ∷ pushed
      ∷ full
      ∷ message (1 ∷ 2 ∷ 3 ∷ [])
      ∷ pushed
      ∷ message (7 ∷ [])
      ∷ message (replicate 56 9)
      ∷ nothing
      ∷ []
unfolding fifo used
fifo_run = refl

run_refines_example : run cells small_queue calls ≡ ok (fifo 128 [] calls)
run_refines_example =
    run_refines cells cells-IsRingBuffer calls small_queue [] small_queue-Holds
      (omega arith, (omega arith, (omega arith, (omega arith, tt))))

push-IsPushed_example :
    (b : Cells) × (push cells small_queue two_bytes ≡ ok (some b))
    × IsPushed cells cells-IsRingBuffer small_queue [] two_bytes b
push-IsPushed_example =
    push-IsPushed cells cells-IsRingBuffer small_queue [] two_bytes small_queue-Holds (omega arith)
      (omega arith)

-- The queue behind that push.
abbrev filled :
    (b : Cells) × (push cells small_queue two_bytes ≡ ok (some b))
    × IsPushed cells cells-IsRingBuffer small_queue [] two_bytes b
filled =
    push-IsPushed cells cells-IsRingBuffer small_queue [] two_bytes small_queue-Holds (omega arith)
      (omega arith)

pop_lem_example :
    (((two_bytes ∷ []) ≡ []) × (pop cells filled.0 ≡ ok none))
    ⊎ ((m : List ℕ) × (rest : List (List ℕ)) × (two_bytes ∷ [] ≡ m ∷ rest)
        × IsPopped cells cells-IsRingBuffer filled.0 m rest)
pop_lem_example = pop_lem cells cells-IsRingBuffer filled.0 (two_bytes ∷ []) filled.2.holds

pop_all_lem_example :
    (b : Cells) × (pop_all cells filled.0 ≡ ok (two_bytes ∷ [], b)) × Holds cells b []
pop_all_lem_example = pop_all_lem cells cells-IsRingBuffer filled.0 (two_bytes ∷ []) filled.2.holds

push-full_example : push cells small_queue (replicate 200 1) ≡ ok none
push-full_example = push-full cells cells-IsRingBuffer small_queue (replicate 200 1) (omega arith)

-- A queue of 66 places whose next place is the last but one.
abbrev odd_queue : Cells
odd_queue = record { places = 66; oldest = 64; bytes = [] }

push-panicked_example : push cells odd_queue (1 ∷ []) ≡ panicked
push-panicked_example =
    push-panicked cells cells-IsRingBuffer odd_queue (1 ∷ []) (omega arith) (omega arith)

abbrev block : ℕ
block = 2_000_000_000

grown_capacity_cases_example :
    ((grown_capacity block ≡ none) × ((block ≡ 0) ⊎ (max_block_capacity ≤ block)))
    ⊎ ((n : ℕ) × (grown_capacity block ≡ some n)
        × (block < n)
        × (n ≡ min (block * 2) max_block_capacity)
        × (block % 64 ≡ 0 → n % 64 ≡ 0))
grown_capacity_cases_example = grown_capacity_cases block

-- A closure that overwrites its slice with ones, and returns its length.
abbrev ones : List ℕ → Run (ℕ × List ℕ)
ones buf = ok (length buf, replicate (length buf) 1)

ones-Encodes : Encodes 3 ones
ones-Encodes = record {
  value = λ buf. length buf;
  message = λ buf. replicate (length buf) 1;
  runs = λ buf e. refl;
  keeps = λ buf e. length-replicate (length buf) 1 ∙ e;
}

push_encoded-IsPushedSlice_example :
    IsPushedSlice cells cells-IsRingBuffer small_queue [] 3 ones ones-Encodes
push_encoded-IsPushedSlice_example =
    push_encoded-IsPushedSlice cells cells-IsRingBuffer small_queue [] 3 ones ones-Encodes
      small_queue-Holds (omega arith) (omega arith)
