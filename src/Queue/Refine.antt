-- ===== src/Queue/Refine.antt =====
-- The queue against its specification: a list of messages under a bound on what they take.
use rapidlog.Prelude.{
  ℕ, ◌+◌, ◌-◌, ◌^◌, ◌<◌, ◌≡◌, refl, ap, List, [], ◌∷◌, ◌++◌, none, some, Run, ok, ◌>>=◌, length,
  length-append, arith, ltb, if◌then◌else◌, le→ltb_false, lt→ltb,
}
use rapidlog.Queue.Ring.{RingBuffer, IsRingBuffer}
use rapidlog.Queue.Defs.{padded_size, push, pop}
use rapidlog.Queue.Frames.{Frames, length-frame, Holds}
use rapidlog.Queue.Writes.{frame}
use rapidlog.Queue.Push.{push-IsPushed, push-full}
use rapidlog.Queue.Pop.{pop-IsPopped, pop-empty}
use native.Mathlib.Decide.{dec_lt}

-- A call on the queue, from the producer's or the consumer's side, and its answer.
pub data Call : Type 0 where
  push_call : List ℕ → Call
  pop_call : Call

pub data Answer : Type 0 where
  pushed full nothing : Answer
  message : List ℕ → Answer

-- The places that messages take.
unfoldable pub used : List (List ℕ) → ℕ
used [] = 0
used (m ∷ ms) = padded_size (length m) + used ms

-- The specification: first in, first out, and a message is refused when the places run out.
unfoldable pub fifo : ℕ → List (List ℕ) → List Call → List Answer
fifo cap ms [] = []
fifo cap ms (push_call m ∷ calls) =
    if ltb (cap - used ms) (padded_size (length m))
    then full ∷ fifo cap ms calls
    else pushed ∷ fifo cap (ms ++ (m ∷ [])) calls
fifo cap [] (pop_call ∷ calls) = nothing ∷ fifo cap [] calls
fifo cap (m ∷ ms) (pop_call ∷ calls) = message m ∷ fifo cap ms calls

used-Frames : (ms : List (List ℕ)) (bytes : List ℕ) → Frames ms bytes → length bytes ≡ used ms
unfolding used
used-Frames [] bytes h = ap (λ (x : List ℕ). length x) h
used-Frames (m ∷ ms) bytes (gap, rest, eg, small, eb, h) = omega (
  arith,
  ap (λ (x : List ℕ). length x) eb,
  length-append (frame gap m (padded_size (length m))) rest,
  length-frame gap m eg,
  used-Frames ms rest h,
)

module _ (r : RingBuffer) where
  open r use {Buffer, capacity}

  -- The same calls on the ring buffer.
  unfoldable pub run : Buffer → List Call → Run (List Answer)
  run b [] = ok []
  run b (push_call m ∷ calls) = do
    done ← push r b m
    elim done [
      | none ↦ do more ← run b calls; ok (full ∷ more)
      | some b' ↦ do more ← run b' calls; ok (pushed ∷ more)
    ]
  run b (pop_call ∷ calls) = do
    done ← pop r b
    elim done [
      | none ↦ do more ← run b calls; ok (nothing ∷ more)
      | some (m, b') ↦ do more ← run b' calls; ok (message m ∷ more)
    ]

-- Every pushed message has a length that the header can tell.
abbrev pub AreSmall : List Call → Type 0
AreSmall [] = Unit {0}
AreSmall (push_call m ∷ calls) = (length m < 256 ^ 4) × AreSmall calls
AreSmall (pop_call ∷ calls) = AreSmall calls

module _ (r : RingBuffer) (laws : IsRingBuffer r) where
  open r use {Buffer, capacity, stored}

  -- On a queue that holds some messages, and whose capacity and positions are whole cache lines, any
  -- sequence of pushes and pops, of messages shorter than 2^32 bytes, is answered as the specification
  -- answers it: first in, first out, and `Full` exactly where the padded messages exceed the capacity.
  -- None of the calls panics.
  pub run_refines :
      (calls : List Call) (b : Buffer) (ms : List (List ℕ))
      → Holds r b ms
      → AreSmall calls
      → run r b calls ≡ ok (fifo (capacity b) ms calls)
  unfolding run fifo
  run_refines [] b ms h small = refl
  run_refines (pop_call ∷ calls) b [] h small =
      rw (pop-empty r laws b h, run_refines calls b [] h small)
  run_refines (pop_call ∷ calls) b (m ∷ ms) h small =
      let p = pop-IsPopped r laws b m ms h in
      rw (p.popped, run_refines calls p.after ms p.holds small, p.same_capacity)
  run_refines (push_call m ∷ calls) b ms h small =
      let places = used-Frames ms (stored b) h.frames in
      elim (dec_lt (capacity b - used ms) (padded_size (length m))) [
        | yes no_room ↦ rw (
          push-full r laws b m (omega arith),
          lt→ltb (capacity b - used ms) (padded_size (length m)) no_room,
          run_refines calls b ms h small.1,
        )
        | no room ↦
            let (b', done, p) = push-IsPushed r laws b ms m h small.0 (omega arith) in
            rw (
              done,
              le→ltb_false (capacity b - used ms) (padded_size (length m)) (omega arith),
              run_refines calls b' (ms ++ (m ∷ [])) p.holds small.1,
              p.same_capacity,
            )
      ]
