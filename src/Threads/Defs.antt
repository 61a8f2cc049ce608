-- ===== src/Threads/Defs.antt =====
-- src/thread_context.rs. The queues live in a store and are numbered in the order of their creation.
-- A producer is the number of its queue beside the capacity that it keeps; the registry holds the
-- numbers of the consumers. The lock of the registry makes each of its uses one step.
use rapidlog.Prelude.{
  ℕ, zero, suc, ◌+◌, List, [], ◌∷◌, ◌++◌, Bool, true, false, ◌&&◌, ◌||◌, not, Option, none, some,
  Run, ok, out_of_fuel, ◌>>=◌, ◌==◌, if◌then◌else◌,
}
use rapidlog.Queue.Ring.{RingBuffer}
use rapidlog.Queue.Defs.{push, push_encoded, pop_all}
use rapidlog.Queue.Grow.{
  QueueMode, unbounded_blocking, bounded_dropping, grown_capacity, default_start_capacity,
}

-- `struct ThreadContext`.
pub record ThreadContext : Type 0 where
  pub producer : ℕ
  pub capacity : ℕ
  pub mode : QueueMode

-- A function changed at one number.
abbrev pub update {ℓ} : {A : Type ℓ} → (ℕ → A) → ℕ → A → ℕ → A
update f i a j = if i == j then a else f j

-- 31 doublings take a capacity of 1 to the largest block, and one round more returns.
abbrev pub growth_fuel : ℕ
growth_fuel = 32

module _ (r : RingBuffer) where
  open r use {Buffer, slots, new}

  -- The queues, those whose producer is gone, the number of the next one, and `CONSUMER_REGISTRY`.
  pub record World : Type 0 where
    pub store : ℕ → Buffer
    pub abandoned : ℕ → Bool
    pub next : ℕ
    pub registry : List ℕ

  -- `create_queue`, and the push of the consumer onto the registry.
  unfoldable pub register : ℕ → World → World
  register capacity w = record w {
    store = update w.store w.next (new capacity);
    next = w.next + 1;
    registry = w.registry ++ (w.next ∷ []);
  }

  -- The drop of a producer.
  unfoldable pub drop_producer : ℕ → World → World
  drop_producer id w = record w { abandoned = update w.abandoned id true }

  -- `ThreadContext::with_mode`.
  unfoldable pub with_mode : QueueMode → ℕ → World → ThreadContext × World
  unfolding register
  with_mode mode start_capacity w = (
    record { producer = w.next; capacity = start_capacity; mode = mode },
    register start_capacity w,
  )

  -- `set_or_create_ctx_with_mode`.
  unfoldable pub set_or_create : QueueMode → ℕ → ThreadContext → World → ThreadContext × World
  unfolding with_mode drop_producer
  set_or_create mode start_capacity ctx w =
      if ctx.capacity == start_capacity
      then (record ctx { mode = mode }, w)
      else with_mode mode start_capacity (drop_producer ctx.producer w)

  -- `ThreadContext::init`, and `Frontend::preallocate`.
  unfoldable pub init : ThreadContext → World → ThreadContext × World
  unfolding set_or_create
  init ctx w = set_or_create bounded_dropping default_start_capacity ctx w

  -- `Frontend::set_queue_mode`.
  unfoldable pub set_queue_mode : QueueMode → ThreadContext → World → ThreadContext × World
  unfolding set_or_create
  set_queue_mode mode ctx w = set_or_create mode default_start_capacity ctx w

  -- The state after a call, and its result; `none` is `Err(PushError::Full)`.
  abbrev pub Sent : Type 0 → Type 0
  Sent R = Option R × ThreadContext × World

  -- One attempt of a push on the thread's queue.
  unfoldable pub try_push :
      {R : Type 0} → (Buffer → Run (Option (R × Buffer))) → ThreadContext → World → Run (Sent R)
  try_push attempt ctx w = do
    done ← attempt (w.store ctx.producer)
    elim done [
      | none ↦ ok (none, ctx, w)
      | some (value, b) ↦ ok (some value, ctx, record w { store = update w.store ctx.producer b })
    ]

  -- The growth in the loop: a new queue, registered; the old producer is dropped.
  unfoldable pub switch : ℕ → ThreadContext → World → ThreadContext × World
  unfolding register drop_producer
  switch capacity ctx w = (
    record ctx { producer = w.next; capacity = capacity },
    register capacity (drop_producer ctx.producer w),
  )

  -- Behind an attempt: the loop returns, or it goes on with a grown queue if there is one.
  unfoldable pub after_try :
      {R : Type 0} → (ThreadContext → World → Run (Sent R)) → Option ℕ → Sent R → Run (Sent R)
  unfolding switch
  after_try again grown (some value, ctx, w) = ok (some value, ctx, w)
  after_try again none (none, ctx, w) = ok (none, ctx, w)
  after_try again (some capacity) (none, ctx, w) =
      let (ctx', w') = switch capacity ctx w in again ctx' w'

  -- The loop of `push_impl` and of `push_encoded_unbounded`.
  unfoldable pub push_loop :
      {R : Type 0} → ℕ → (Buffer → Run (Option (R × Buffer))) → ThreadContext → World → Run (Sent R)
  unfolding try_push after_try
  push_loop zero attempt ctx w = out_of_fuel
  push_loop (suc fuel) attempt ctx w = do
    sent ← try_push attempt ctx w
    after_try (push_loop fuel attempt) (grown_capacity sent.1.capacity) sent

  unfoldable pub push_with :
      {R : Type 0} → (Buffer → Run (Option (R × Buffer))) → ThreadContext → World → Run (Sent R)
  unfolding push_loop
  push_with attempt ctx w = elim ctx.mode [
    | bounded_dropping ↦ try_push attempt ctx w
    | unbounded_blocking ↦ push_loop growth_fuel attempt ctx w
  ]

  -- A push as an attempt with the value `()`.
  unfoldable pub push_attempt : List ℕ → Buffer → Run (Option (Unit {0} × Buffer))
  push_attempt msg b = do
    done ← push r b msg
    elim done [ none ↦ ok none | some b' ↦ ok (some (tt, b')) ]

  -- `ThreadContext::push`.
  unfoldable pub push_impl : List ℕ → ThreadContext → World → Run (Sent (Unit {0}))
  unfolding push_with push_attempt
  push_impl msg ctx w = push_with (push_attempt msg) ctx w

  -- `ThreadContext::push_encoded`.
  unfoldable pub push_encoded_impl :
      {R : Type 0} → ℕ → (List ℕ → Run (R × List ℕ)) → ThreadContext → World → Run (Sent R)
  unfolding push_with
  push_encoded_impl total_msg encode ctx w =
      push_with (λ b. push_encoded r b total_msg encode) ctx w

  -- The loop of `poll_all_registered_queues` over the consumers that are left: the messages, the
  -- consumers that stay, and the world.
  unfoldable pub poll_from : List ℕ → World → Run (List (List ℕ) × List ℕ × World)
  poll_from [] w = ok ([], [], w)
  poll_from (id ∷ ids) w = do
    (msgs, b) ← pop_all r (w.store id)
    (more, kept, w') ← poll_from ids (record w { store = update w.store id b })
    ok (msgs ++ more, (if w.abandoned id && (slots b == 0) then kept else id ∷ kept), w')

  -- `poll_all_registered_queues`.
  unfoldable pub poll_all_registered_queues : World → Run (List (List ℕ) × World)
  unfolding poll_from
  poll_all_registered_queues w = do
    (msgs, kept, w') ← poll_from w.registry w
    ok (msgs, record w' { registry = kept })

  -- `has_pending_messages`.
  unfoldable pub any_pending : List ℕ → World → Bool
  any_pending [] w = false
  any_pending (id ∷ ids) w = not (slots (w.store id) == 0) || any_pending ids w

  unfoldable pub has_pending_messages : World → Bool
  unfolding any_pending
  has_pending_messages w = any_pending w.registry w
