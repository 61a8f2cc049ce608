-- ===== src/Threads/Runs.antt =====
-- Runs of a thread that logs, on the ring buffer `cells`.
use rapidlog.Prelude.{
  ℕ, ◌<◌, ◌≡◌, ◌⊎◌, refl, List, [], ◌∷◌, Bool, false, none, some, ok, length, All, arith, replicate,
}
use rapidlog.Queue.Ring.{cells, cells-IsRingBuffer, Cells, free}
use rapidlog.Queue.Defs.{padded_size}
use rapidlog.Queue.Frames.{Holds}
use rapidlog.Queue.Grow.{new-Holds, unbounded_blocking, bounded_dropping}
use rapidlog.Threads.Defs.{ThreadContext, World, push_impl, poll_all_registered_queues}
use rapidlog.Threads.Held.{IsHolding}
use rapidlog.Threads.Attempt.{IsReady, IsSent}
use rapidlog.Threads.Push.{push_impl_sends, push_impl_bounded}
use rapidlog.Threads.Poll.{messages_of, alive_of, poll_all_lem}

abbrev queue_of : ℕ → Cells
queue_of id = record { places = 64; oldest = 0; bytes = [] }

abbrev nobody : ℕ → Bool
nobody id = false

abbrev no_messages : ℕ → List (List ℕ)
no_messages id = []

-- One thread, with a queue of a cache line.
abbrev world : World cells
world = record { store = queue_of; abandoned = nobody; next = 1; registry = 0 ∷ [] }

abbrev unbounded : ThreadContext
unbounded = record { producer = 0; capacity = 64; mode = unbounded_blocking }

abbrev bounded : ThreadContext
bounded = record { producer = 0; capacity = 64; mode = bounded_dropping }

-- A message that only a grown queue can hold.
abbrev long_message : List ℕ
long_message = replicate 100 1

world-IsHolding : IsHolding cells world no_messages
world-IsHolding = record {
  queues = λ id lt. new-Holds cells cells-IsRingBuffer 64 refl (omega arith);
  unborn = λ id le. refl;
  registered = (omega arith, tt);
  distinct = (tt, tt);
}

world-IsReady : IsReady cells cells-IsRingBuffer unbounded world
world-IsReady = record { alive = omega arith; in_step = refl; listed = ([], [], refl) }

bounded-IsReady : IsReady cells cells-IsRingBuffer bounded world
bounded-IsReady = record { alive = omega arith; in_step = refl; listed = ([], [], refl) }

push_impl_sends_example :
    (ctx' : ThreadContext) × (w' : World cells) × (push_impl cells long_message unbounded world
      ≡ ok (some tt, ctx', w'))
    × IsSent cells cells-IsRingBuffer
        (λ u m. m ≡ long_message)
        tt
        unbounded
        world
        no_messages
        ctx'
        w'
push_impl_sends_example =
    push_impl_sends cells cells-IsRingBuffer long_message unbounded world no_messages refl
      world-IsHolding world-IsReady (omega arith) (omega arith) (omega arith) (omega arith)

push_impl_bounded_example :
    ((push_impl cells long_message bounded world ≡ ok (none, bounded, world))
      × (free cells (world.store 0) < padded_size (length long_message)))
    ⊎ ((ctx' : ThreadContext) × (w' : World cells) × (push_impl cells long_message bounded world
          ≡ ok (some tt, ctx', w'))
        × IsSent cells cells-IsRingBuffer
            (λ u m. m ≡ long_message)
            tt
            bounded
            world
            no_messages
            ctx'
            w')
push_impl_bounded_example =
    push_impl_bounded cells cells-IsRingBuffer long_message bounded world no_messages refl
      world-IsHolding bounded-IsReady (omega arith)

-- The thread behind its push: it has a second queue, with the message.
abbrev sent :
    (ctx' : ThreadContext) × (w' : World cells) × (push_impl cells long_message unbounded world
      ≡ ok (some tt, ctx', w'))
    × IsSent cells cells-IsRingBuffer
        (λ u m. m ≡ long_message)
        tt
        unbounded
        world
        no_messages
        ctx'
        w'
sent =
    push_impl_sends cells cells-IsRingBuffer long_message unbounded world no_messages refl
      world-IsHolding world-IsReady (omega arith) (omega arith) (omega arith) (omega arith)

poll_all_lem_example :
    (w' : World cells) × (poll_all_registered_queues cells sent.1
      ≡ ok (messages_of sent.3.held' sent.1.registry, w'))
    × (w'.registry ≡ alive_of sent.1.abandoned sent.1.registry)
    × All (λ id. Holds cells (w'.store id) []) sent.1.registry
poll_all_lem_example = poll_all_lem cells cells-IsRingBuffer sent.1 sent.3.held' sent.3.holding
