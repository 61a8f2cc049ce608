-- ===== src/Threads/Push.antt =====
-- `ThreadContext::push` and `ThreadContext::push_encoded`, in both modes.
use rapidlog.Prelude.{ℕ, ◌^◌, ◌≤◌, ◌<◌, ◌≡◌, ◌⊎◌, inl, inr, refl, List, none, some, ok, length}
use rapidlog.Queue.Ring.{RingBuffer, IsRingBuffer, free}
use rapidlog.Queue.Defs.{padded_size}
use rapidlog.Queue.Grow.{unbounded_blocking, bounded_dropping, max_block_capacity}
use rapidlog.Threads.Defs.{
  ThreadContext, World, push_with, push_impl, push_loop, push_attempt, try_push, growth_fuel,
}
use rapidlog.Threads.Held.{IsHolding}
use rapidlog.Threads.Attempt.{IsReady, IsSent, push_attempt-IsAttempt, try_push_cases}
use rapidlog.Threads.Growth.{push_unbounded_sends}

module _ (r : RingBuffer) (laws : IsRingBuffer r) where
  open r use {Buffer}

  loop_of_push :
      (msg : List ℕ) (ctx : ThreadContext) (w : World r)
      → ctx.mode ≡ unbounded_blocking
      → push_impl r msg ctx w ≡ push_loop r growth_fuel (push_attempt r msg) ctx w
  unfolding push_impl push_with
  loop_of_push msg ctx w e = rw (e, push_impl, push_with) refl

  try_of_push :
      (msg : List ℕ) (ctx : ThreadContext) (w : World r)
      → ctx.mode ≡ bounded_dropping
      → push_impl r msg ctx w ≡ try_push r (push_attempt r msg) ctx w
  unfolding push_impl push_with
  try_of_push msg ctx w e = rw (e, push_impl, push_with) refl

  -- `push` in the unbounded mode, on a thread whose registered queue has a capacity above 0 and below the largest
  -- block, where all queues are of whole cache lines, sends every
  -- message that such a block can hold, shorter than 2^32 bytes: afterwards it stands last in the thread's queue, the other
  -- messages of that queue stand before it, and no other queue has changed.
  pub push_impl_sends :
      (msg : List ℕ) (ctx : ThreadContext) (w : World r) (held : ℕ → List (List ℕ))
      → ctx.mode ≡ unbounded_blocking
      → IsHolding r w held
      → IsReady r laws ctx w
      → 0 < ctx.capacity
      → ctx.capacity < max_block_capacity
      → padded_size (length msg) ≤ max_block_capacity
      → length msg < 256 ^ 4
      → (ctx' : ThreadContext) × (w' : World r) × (push_impl r msg ctx w ≡ ok (some tt, ctx', w'))
        × IsSent r laws (λ u m. m ≡ msg) tt ctx w held ctx' w'
  push_impl_sends msg ctx w held e h ready some_room below fits small =
      let (value, ctx', w', done, s) =
        push_unbounded_sends r laws (length msg) (λ u m. m ≡ msg) (push_attempt r msg) ctx w held
          (push_attempt-IsAttempt r laws msg small) h ready some_room below fits in
      (ctx', w', rw (loop_of_push msg ctx w e) done, s)

  -- `push` in the bounded mode, of a message shorter than 2^32 bytes, on a thread whose queue is
  -- registered, where all queues are of whole cache lines, either sends the message, to the end of the
  -- thread's queue, or it changes nothing, which happens only where the queue has no room for it.
  pub push_impl_bounded :
      (msg : List ℕ) (ctx : ThreadContext) (w : World r) (held : ℕ → List (List ℕ))
      → ctx.mode ≡ bounded_dropping
      → IsHolding r w held
      → IsReady r laws ctx w
      → length msg < 256 ^ 4
      → ((push_impl r msg ctx w ≡ ok (none, ctx, w))
          × (free r (w.store ctx.producer) < padded_size (length msg)))
        ⊎ ((ctx' : ThreadContext) × (w' : World r) × (push_impl r msg ctx w
              ≡ ok (some tt, ctx', w'))
            × IsSent r laws (λ u m. m ≡ msg) tt ctx w held ctx' w')
  push_impl_bounded msg ctx w held e h ready small =
      elim (try_push_cases r laws (length msg) (λ u m. m ≡ msg) (push_attempt r msg) ctx w held
        (push_attempt-IsAttempt r laws msg small) h ready) [
          | inl (full, short) ↦ inl (rw (try_of_push msg ctx w e) full, short)
          | inr (value, ctx', w', done, s) ↦ inr (ctx', w', rw (try_of_push msg ctx w e) done, s)
        ]
