-- ===== src/Threads/Attempt.antt =====
-- One push of a thread: an attempt on its queue, and the queue that replaces it.
use rapidlog.Prelude.{
  ℕ, ◌+◌, ◌^◌, ◌≤◌, ◌<◌, ◌≡◌, ◌≢◌, ◌⊎◌, inl, inr, refl, ap, ◌∙◌, sym, subst, subst₂, List, [], ◌∷◌,
  ◌++◌, Option, none, some, Run, ok, append-nil, length, arith, ◌%◌,
}
use rapidlog.Queue.Ring.{RingBuffer, IsRingBuffer, free}
use rapidlog.Queue.Defs.{padded_size}
use rapidlog.Queue.Frames.{Holds}
use rapidlog.Queue.Push.{IsPushed, push-IsPushed, push-full}
use rapidlog.Queue.Grow.{new-Holds}
use rapidlog.Threads.Defs.{ThreadContext, World, update, switch, try_push, push_attempt}
use rapidlog.Threads.Held.{
  IsHolding, IsListed, Distinct-snoc, All-snoc, All-map, update_self, update_ne,
}
use native.Mathlib.Decide.{dec_lt, ℕ_discrete}

module _ (r : RingBuffer) (laws : IsRingBuffer r) where
  open r use {Buffer, capacity, stored}

  -- The thread's own idea of its queue is right, and its queue is registered.
  pub record IsReady (ctx : ThreadContext) (w : World r) : Type 0 where
    pub alive : ctx.producer < w.next
    pub in_step : capacity (w.store ctx.producer) ≡ ctx.capacity
    pub listed : IsListed ctx.producer w.registry

  -- An attempt to push a message of `n` bytes, of which `Good` tells more.
  pub record IsAttempt {R : Type 0} (n : ℕ) (Good : R → List ℕ → Type 0)
      (attempt : Buffer → Run (Option (R × Buffer))) : Type 0 where
    pub room :
        (b : Buffer) (ms : List (List ℕ))
        → Holds r b ms
        → padded_size n ≤ free r b
        → (value : R) × (msg : List ℕ) × (b' : Buffer) × (attempt b ≡ ok (some (value, b')))
          × Good value msg
          × IsPushed r laws b ms msg b'
    pub full : (b : Buffer) → free r b < padded_size n → attempt b ≡ ok none

  -- A message of this thread is in a queue: it stands last in the queue that the thread has now, and
  -- no other queue has changed. Queues that were made on the way are registered behind the others.
  pub record IsSent {R : Type 0} (Good : R → List ℕ → Type 0) (value : R) (ctx : ThreadContext)
      (w : World r) (held : ℕ → List (List ℕ)) (ctx' : ThreadContext) (w' : World r) : Type 0 where
    pub msg : List ℕ
    pub good : Good value msg
    pub held' : ℕ → List (List ℕ)
    pub holding : IsHolding r w' held'
    pub ready : IsReady ctx' w'
    pub last : held' ctx'.producer ≡ held ctx'.producer ++ (msg ∷ [])
    pub others : (id : ℕ) → id ≢ ctx'.producer → held' id ≡ held id
    pub newer : List ℕ
    pub registry : w'.registry ≡ w.registry ++ newer
    pub later : ctx.producer ≤ ctx'.producer
    pub producer_now : (ctx'.producer ≡ ctx.producer) ⊎ IsListed ctx'.producer newer

  -- One queue is replaced, with its messages.
  update-Holds :
      (store : ℕ → Buffer) (held : ℕ → List (List ℕ)) (p id : ℕ) (b : Buffer) (ms : List (List ℕ))
      → Holds r b ms
      → (p ≢ id → Holds r (store id) (held id))
      → Holds r (update store p b id) (update held p ms id)
  update-Holds store held p id b ms hb others = elim (ℕ_discrete p id) [
    | yes e ↦
        subst (λ i. Holds r (update store p b i) (update held p ms i)) e
          (subst₂ (λ x y. Holds r x y) (sym (update_self store p b)) (sym (update_self held p ms))
            hb)
    | no ne ↦
        subst₂ (λ x y. Holds r x y) (sym (update_ne store p id b ne))
          (sym (update_ne held p id ms ne)) (others ne)
  ]

  -- One attempt on a queue with room.
  pub stored-IsSent :
      {R : Type 0} {Good : R → List ℕ → Type 0} (value : R) (msg : List ℕ) (b : Buffer)
      (ctx : ThreadContext) (w : World r) (held : ℕ → List (List ℕ))
      → IsHolding r w held
      → IsReady ctx w
      → Good value msg
      → IsPushed r laws (w.store ctx.producer) (held ctx.producer) msg b
      → IsSent Good value ctx w held ctx (record w { store = update w.store ctx.producer b })
  stored-IsSent value msg b ctx w held h ready good p =
      let p₀ = ctx.producer in
      let held₁ = update held p₀ (held p₀ ++ (msg ∷ [])) in
      record {
        msg = msg;
        good = good;
        held' = held₁;
        holding = record {
          queues = λ id lt.
              update-Holds w.store held p₀ id b (held p₀ ++ (msg ∷ [])) p.holds
                (λ ne. h.queues id lt);
          unborn = λ id le.
              update_ne held p₀ id (held p₀ ++ (msg ∷ [])) (λ e. omega (arith, ready.alive))
              ∙ h.unborn id le;
          registered = h.registered;
          distinct = h.distinct;
        };
        ready = record {
          alive = ready.alive;
          in_step = rw update_self (p.same_capacity ∙ ready.in_step);
          listed = ready.listed;
        };
        last = update_self held p₀ (held p₀ ++ (msg ∷ []));
        others = λ id ne. update_ne held p₀ id (held p₀ ++ (msg ∷ [])) (λ e. ne (sym e));
        newer = [];
        registry = sym (append-nil w.registry);
        later = omega arith;
        producer_now = inl refl;
      }

  -- A new queue at the end of the registry, and the old producer dropped.
  pub switch-IsHolding :
      (n : ℕ) (ctx : ThreadContext) (w : World r) (held : ℕ → List (List ℕ))
      → IsHolding r w held
      → n % 64 ≡ 0
      → 0 < n
      → IsHolding r (switch r n ctx w).1 held × IsReady (switch r n ctx w).0 (switch r n ctx w).1
  unfolding switch
  switch-IsHolding n ctx w held h aligned some_room =
      let empty = new-Holds r laws n aligned some_room in
      (
        record {
          queues = λ id lt.
              subst (λ ms. Holds r (update w.store w.next (r.new n) id) ms) (unchanged id)
                (update-Holds w.store held w.next id (r.new n) [] empty
                  (λ ne. h.queues id (omega arith)));
          unborn = λ id le. h.unborn id (omega arith);
          registered =
              All-snoc (λ id. id < w.next + 1) w.registry w.next
                (All-map (λ id. id < w.next) (λ id. id < w.next + 1) w.registry
                  (λ id lt. omega arith) h.registered)
                (omega arith);
          distinct = Distinct-snoc w.registry w.next h.registered h.distinct;
        },
        record {
          alive = omega arith;
          in_step = ap capacity (update_self w.store w.next (r.new n)) ∙ laws.capacity-new n;
          listed = (w.registry, [], refl);
        },
      )
    where
      unchanged : (id : ℕ) → update held w.next [] id ≡ held id
      unchanged id = elim (ℕ_discrete w.next id) [
        | yes e ↦
            subst (λ i. update held w.next [] i ≡ held i) e
              (update_self held w.next [] ∙ sym (h.unborn w.next (omega arith)))
        | no ne ↦ update_ne held w.next id [] ne
      ]

  -- What an attempt on the thread's queue comes to.
  pub try_push_cases :
      {R : Type 0} (n : ℕ) (Good : R → List ℕ → Type 0)
      (attempt : Buffer → Run (Option (R × Buffer))) (ctx : ThreadContext) (w : World r)
      (held : ℕ → List (List ℕ))
      → IsAttempt n Good attempt
      → IsHolding r w held
      → IsReady ctx w
      → ((try_push r attempt ctx w ≡ ok (none, ctx, w))
          × (free r (w.store ctx.producer) < padded_size n))
        ⊎ ((value : R) × (ctx' : ThreadContext) × (w' : World r) × (try_push r attempt ctx w
              ≡ ok (some value, ctx', w'))
            × IsSent Good value ctx w held ctx' w')
  unfolding try_push
  try_push_cases n Good attempt ctx w held a h ready =
      elim (dec_lt (free r (w.store ctx.producer)) (padded_size n)) [
        | yes short ↦ inl (rw (a.full (w.store ctx.producer) short), short)
        | no enough ↦
            let (value, msg, b, done, good, p) =
              a.room (w.store ctx.producer) (held ctx.producer) (h.queues ctx.producer ready.alive)
                (omega arith) in
            inr (
              value,
              ctx,
              record w { store = update w.store ctx.producer b },
              rw done,
              stored-IsSent value msg b ctx w held h ready good p,
            )
      ]

  -- `push` is such an attempt.
  pub push_attempt-IsAttempt :
      (msg : List ℕ)
      → length msg < 256 ^ 4
      → IsAttempt (length msg) (λ u m. m ≡ msg) (push_attempt r msg)
  unfolding push_attempt
  push_attempt-IsAttempt msg small = record {
    room = λ b ms h enough.
        let (b', done, p) = push-IsPushed r laws b ms msg h small enough in
        (tt, msg, b', rw done, refl, p);
    full = λ b short. rw (push-full r laws b msg short);
  }
