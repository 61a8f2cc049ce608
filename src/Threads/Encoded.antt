-- ===== src/Threads/Encoded.antt =====
-- `ThreadContext::push_encoded`, in both modes.
use rapidlog.Prelude.{
  ℕ, ◌^◌, ◌≤◌, ◌<◌, ◌≡◌, ◌⊎◌, inl, inr, refl, ◌∙◌, List, none, some, Run, ok, length,
}
use rapidlog.Queue.Ring.{RingBuffer, IsRingBuffer, free}
use rapidlog.Queue.Defs.{padded_size, push_encoded}
use rapidlog.Queue.Encoded.{Encodes, push_encoded-IsPushedSlice, push_encoded-full}
use rapidlog.Queue.Grow.{unbounded_blocking, bounded_dropping, max_block_capacity}
use rapidlog.Threads.Defs.{
  ThreadContext, World, push_with, push_encoded_impl, push_loop, try_push, growth_fuel,
}
use rapidlog.Threads.Held.{IsHolding}
use rapidlog.Threads.Attempt.{IsAttempt, IsReady, IsSent, try_push_cases}
use rapidlog.Threads.Growth.{push_unbounded_sends}

-- The value and the message that the closure makes of a slice.
pub record IsMade {R : Type 0} (n : ℕ) (encode : List ℕ → Run (R × List ℕ)) (e : Encodes n encode)
    (value : R) (msg : List ℕ) : Type 0 where
  pub buf : List ℕ
  pub buf_length : length buf ≡ n
  pub value_of : value ≡ e.value buf
  pub msg_of : msg ≡ e.message buf

module _ (r : RingBuffer) (laws : IsRingBuffer r) where
  push_encoded-IsAttempt :
      {R : Type 0} (n : ℕ) (encode : List ℕ → Run (R × List ℕ)) (e : Encodes n encode)
      → n < 256 ^ 4
      → IsAttempt r laws n (IsMade n encode e) (λ b. push_encoded r b n encode)
  push_encoded-IsAttempt n encode e small = record {
    room = λ b ms h enough.
        let p = push_encoded-IsPushedSlice r laws b ms n encode e h small enough in
        (
          e.value p.buf,
          e.message p.buf,
          p.after,
          p.pushed,
          record { buf = p.buf; buf_length = p.buf_length; value_of = refl; msg_of = refl },
          p.queue,
        );
    full = λ b short. push_encoded-full r laws b n encode short;
  }

  loop_of_encoded :
      {R : Type 0} (n : ℕ) (encode : List ℕ → Run (R × List ℕ)) (ctx : ThreadContext) (w : World r)
      → ctx.mode ≡ unbounded_blocking
      → push_encoded_impl r n encode ctx w
        ≡ push_loop r growth_fuel (λ b. push_encoded r b n encode) ctx w
  unfolding push_encoded_impl push_with
  loop_of_encoded n encode ctx w e = rw (e, push_encoded_impl, push_with) refl

  try_of_encoded :
      {R : Type 0} (n : ℕ) (encode : List ℕ → Run (R × List ℕ)) (ctx : ThreadContext) (w : World r)
      → ctx.mode ≡ bounded_dropping
      → push_encoded_impl r n encode ctx w ≡ try_push r (λ b. push_encoded r b n encode) ctx w
  unfolding push_encoded_impl push_with
  try_of_encoded n encode ctx w e = rw (e, push_encoded_impl, push_with) refl

  -- `push_encoded` in the unbounded mode, on a thread whose queue has a capacity above 0 and below the
  -- largest block, where all queues are of whole cache lines, with a closure that always succeeds and
  -- keeps its slice's length, for a message that such a block can hold, shorter than 2^32 bytes: what
  -- the closure leaves in a slice of that length is sent, to the end of the thread's queue.
  pub push_encoded_sends :
      {R : Type 0} (n : ℕ) (encode : List ℕ → Run (R × List ℕ)) (e : Encodes n encode)
      (ctx : ThreadContext) (w : World r) (held : ℕ → List (List ℕ))
      → ctx.mode ≡ unbounded_blocking
      → IsHolding r w held
      → IsReady r laws ctx w
      → 0 < ctx.capacity
      → ctx.capacity < max_block_capacity
      → padded_size n ≤ max_block_capacity
      → n < 256 ^ 4
      → (value : R) × (ctx' : ThreadContext) × (w' : World r) × (push_encoded_impl r n encode ctx w
          ≡ ok (some value, ctx', w'))
        × IsSent r laws (IsMade n encode e) value ctx w held ctx' w'
  push_encoded_sends n encode e ctx w held mode h ready some_room below fits small =
      let (value, ctx', w', done, s) =
        push_unbounded_sends r laws n (IsMade n encode e) (λ b. push_encoded r b n encode) ctx w
          held (push_encoded-IsAttempt n encode e small) h ready some_room below fits in
      (value, ctx', w', loop_of_encoded n encode ctx w mode ∙ done, s)

  -- In the bounded mode it is sent, or nothing changes, which happens only without room.
  pub push_encoded_bounded :
      {R : Type 0} (n : ℕ) (encode : List ℕ → Run (R × List ℕ)) (e : Encodes n encode)
      (ctx : ThreadContext) (w : World r) (held : ℕ → List (List ℕ))
      → ctx.mode ≡ bounded_dropping
      → IsHolding r w held
      → IsReady r laws ctx w
      → n < 256 ^ 4
      → ((push_encoded_impl r n encode ctx w ≡ ok (none, ctx, w))
          × (free r (w.store ctx.producer) < padded_size n))
        ⊎ ((value : R) × (ctx' : ThreadContext) × (w' : World r) × (push_encoded_impl r n encode ctx
                w
              ≡ ok (some value, ctx', w'))
            × IsSent r laws (IsMade n encode e) value ctx w held ctx' w')
  push_encoded_bounded n encode e ctx w held mode h ready small =
      elim (try_push_cases r laws n (IsMade n encode e) (λ b. push_encoded r b n encode) ctx w held
        (push_encoded-IsAttempt n encode e small) h ready) [
          | inl (full, short) ↦ inl (try_of_encoded n encode ctx w mode ∙ full, short)
          | inr (value, ctx', w', done, s) ↦
              inr (value, ctx', w', try_of_encoded n encode ctx w mode ∙ done, s)
        ]

  -- The same message, of which something else is known.
  pub sent_as :
      {R S : Type 0} (Good : R → List ℕ → Type 0) (Good' : S → List ℕ → Type 0) (value : R)
      (value' : S) (ctx ctx' : ThreadContext) (w w' : World r) (held : ℕ → List (List ℕ))
      → ((msg : List ℕ) → Good value msg → Good' value' msg)
      → IsSent r laws Good value ctx w held ctx' w'
      → IsSent r laws Good' value' ctx w held ctx' w'
  sent_as Good Good' value value' ctx ctx' w w' held f s = record {
    msg = s.msg;
    good = f s.msg s.good;
    held' = s.held';
    holding = s.holding;
    ready = s.ready;
    last = s.last;
    others = s.others;
    newer = s.newer;
    registry = s.registry;
    later = s.later;
    producer_now = s.producer_now;
  }
