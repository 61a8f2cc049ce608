-- ===== src/Threads/Growth.antt =====
-- Pushes of a thread: the loop of the unbounded mode, which grows the queue.
use rapidlog.Prelude.{
  ℕ, zero, suc, ◌*◌, ◌^◌, ◌≤◌, ◌<◌, ◌≡◌, ◌⊎◌, inl, inr, refl, ap, ap₂, ◌∙◌, sym, subst, List, [],
  ◌∷◌, Option, none, some, Run, ok, append_assoc, length, arith, ◌%◌, min,
}
use rapidlog.Queue.Ring.{RingBuffer, IsRingBuffer, free}
use rapidlog.Queue.Defs.{padded_size}
use rapidlog.Queue.Grow.{grown_capacity, grown_capacity_cases, max_block_capacity}
use rapidlog.Threads.Defs.{
  ThreadContext, World, switch, try_push, after_try, push_loop, growth_fuel,
}
use rapidlog.Threads.Held.{IsHolding, update_self}
use rapidlog.Threads.Attempt.{IsReady, IsAttempt, IsSent, try_push_cases, switch-IsHolding}
use native.Mathlib.Decide.{dec_lt}
use native.Mathlib.Nat.{pow-suc}

one-le-pow : (f : ℕ) → 1 ≤ 2 ^ f
one-le-pow zero = omega arith
one-le-pow (suc f) = rw pow-suc (omega (arith, one-le-pow f))

module _ (r : RingBuffer) (laws : IsRingBuffer r) where
  open r use {Buffer, capacity, stored}

  -- A push that the loop gives up: nothing is changed in any queue, the queue has the largest
  -- capacity or none, and it is the one the thread had, or one too small for the message.
  pub record IsRefused (n : ℕ) (ctx : ThreadContext) (w : World r) (held : ℕ → List (List ℕ))
      (ctx' : ThreadContext) (w' : World r) : Type 0 where
    pub holding : IsHolding r w' held
    pub short : free r (w'.store ctx'.producer) < padded_size n
    pub largest : max_block_capacity ≤ ctx'.capacity
    pub small : ((ctx' ≡ ctx) × (w' ≡ w)) ⊎ (ctx'.capacity < padded_size n)

  abbrev pub Outcome :
      {R : Type 0}
      → ℕ
      → (R → List ℕ → Type 0)
      → ThreadContext
      → World r
      → (ℕ → List (List ℕ))
      → Run (Option R × ThreadContext × World r)
      → Type 0
  Outcome {R} n Good ctx w held out =
      ((value : R) × (ctx' : ThreadContext) × (w' : World r) × (out ≡ ok (some value, ctx', w'))
        × IsSent r laws Good value ctx w held ctx' w')
      ⊎ ((ctx' : ThreadContext) × (w' : World r) × (out ≡ ok (none, ctx', w'))
          × IsRefused n ctx w held ctx' w')

  loop_stops :
      {R : Type 0} (f : ℕ) (attempt : Buffer → Run (Option (R × Buffer))) (ctx : ThreadContext)
      (w : World r)
      → try_push r attempt ctx w ≡ ok (none, ctx, w)
      → grown_capacity ctx.capacity ≡ none
      → push_loop r (suc f) attempt ctx w ≡ ok (none, ctx, w)
  loop_stops f attempt ctx w e₁ e₂ = unfold push_loop in rw e₁ (rw (e₂, after_try))

  loop_grows :
      {R : Type 0} (f c : ℕ) (attempt : Buffer → Run (Option (R × Buffer))) (ctx : ThreadContext)
      (w : World r)
      → try_push r attempt ctx w ≡ ok (none, ctx, w)
      → grown_capacity ctx.capacity ≡ some c
      → push_loop r (suc f) attempt ctx w
        ≡ push_loop r f attempt (switch r c ctx w).0 (switch r c ctx w).1
  loop_grows f c attempt ctx w e₁ e₂ = unfold push_loop in rw e₁ (rw (e₂, after_try))

  loop_sends :
      {R : Type 0} (f : ℕ) (attempt : Buffer → Run (Option (R × Buffer))) (ctx ctx' : ThreadContext)
      (w w' : World r) (value : R)
      → try_push r attempt ctx w ≡ ok (some value, ctx', w')
      → push_loop r (suc f) attempt ctx w ≡ ok (some value, ctx', w')
  loop_sends f attempt ctx ctx' w w' value e = unfold push_loop in rw e

  -- What is said of the world behind a growth holds of the world before it.
  switch-Outcome :
      {R : Type 0} (n c : ℕ) (Good : R → List ℕ → Type 0) (ctx : ThreadContext) (w : World r)
      (held : ℕ → List (List ℕ)) (out : Run (Option R × ThreadContext × World r))
      → IsReady r laws ctx w
      → Outcome n Good (switch r c ctx w).0 (switch r c ctx w).1 held out
      → Outcome n Good ctx w held out
  unfolding switch
  switch-Outcome n c Good ctx w held out ready (inl (value, ctx', w', e, s)) = inl (
    value,
    ctx',
    w',
    e,
    record {
      msg = s.msg;
      good = s.good;
      held' = s.held';
      holding = s.holding;
      ready = s.ready;
      last = s.last;
      others = s.others;
      newer = w.next ∷ s.newer;
      registry = s.registry ∙ append_assoc w.registry (w.next ∷ []) s.newer;
      later = omega (arith, s.later, ready.alive);
      producer_now = inr (elim s.producer_now [
        | inl same ↦ ([], s.newer, ap (λ i. i ∷ s.newer) (sym same))
        | inr (before, after, e) ↦ (w.next ∷ before, after, ap (λ is. w.next ∷ is) e)
      ]);
    },
  )
  switch-Outcome n c Good ctx w held out ready (inr (ctx', w', e, s)) = inr (
    ctx',
    w',
    e,
    record {
      holding = s.holding;
      short = s.short;
      largest = s.largest;
      small = inr (too_small s.small);
    },
  )
    where
      too_small :
          ((ctx' ≡ (switch r c ctx w).0) × (w' ≡ (switch r c ctx w).1))
            ⊎ (ctx'.capacity < padded_size n)
          → ctx'.capacity < padded_size n
      too_small (inr h) = h
      too_small (inl (e₁, e₂)) =
          let fresh : w'.store ctx'.producer ≡ r.new c =
            ap₂ (λ (v : World r) (x : ThreadContext). v.store x.producer) e₂ e₁
            ∙ update_self w.store w.next (r.new c) in
          let size = ap capacity fresh ∙ laws.capacity-new c in
          let empty =
            ap (λ b. length (stored b)) fresh ∙ ap (λ (x : List ℕ). length x) (laws.stored-new c) in
          let same = ap (λ (x : ThreadContext). x.capacity) e₁ in omega (arith, s.short)

  -- Enough rounds for a capacity are, less one, enough for the grown one.
  fuel_left :
      (f c n : ℕ)
      → n ≡ min (c * 2) max_block_capacity
      → max_block_capacity ≤ c * 2 ^ suc f
      → max_block_capacity ≤ n * 2 ^ f
  fuel_left f c n e h =
      let h' : max_block_capacity ≤ c * (2 ^ f * 2) = rw pow-suc at h in
      elim (dec_lt (c * 2) max_block_capacity) [
        | yes lt ↦
            let n_eq : n ≡ c * 2 = omega arith in
            subst (λ k. max_block_capacity ≤ k * 2 ^ f) (sym n_eq) (omega arith)
        | no ge ↦
            let n_eq : n ≡ max_block_capacity = omega arith in
            subst (λ k. max_block_capacity ≤ k * 2 ^ f) (sym n_eq) (omega (arith, one-le-pow f))
      ]

  -- One round, given what the rounds behind a growth come to.
  push_loop_round :
      {R : Type 0} (f n : ℕ) (Good : R → List ℕ → Type 0)
      (attempt : Buffer → Run (Option (R × Buffer))) (ctx : ThreadContext) (w : World r)
      (held : ℕ → List (List ℕ))
      → IsAttempt r laws n Good attempt
      → IsHolding r w held
      → IsReady r laws ctx w
      → ((c : ℕ)
          → ctx.capacity < c
          → c ≡ min (ctx.capacity * 2) max_block_capacity
          → IsHolding r (switch r c ctx w).1 held
            × IsReady r laws (switch r c ctx w).0 (switch r c ctx w).1
          → Outcome n Good
              (switch r c ctx w).0
              (switch r c ctx w).1
              held
              (push_loop r f attempt (switch r c ctx w).0 (switch r c ctx w).1))
      → Outcome n Good ctx w held (push_loop r (suc f) attempt ctx w)
  push_loop_round f n Good attempt ctx w held a h ready again =
      elim (try_push_cases r laws n Good attempt ctx w held a h ready) [
        | inr (value, ctx', w', e, s) ↦
            inl (value, ctx', w', loop_sends f attempt ctx ctx' w w' value e, s)
        | inl (e, short) ↦ elim (grown_capacity_cases ctx.capacity) [
          | inl (stop, why) ↦ inr (
            ctx,
            w,
            loop_stops f attempt ctx w e stop,
            record {
              holding = h;
              short = short;
              largest = omega (arith, inside, ready.in_step);
              small = inl (refl, refl);
            },
          )
          | inr (c, grow, more, size, keeps) ↦
              subst (λ out. Outcome n Good ctx w held out)
                (sym (loop_grows f c attempt ctx w e grow))
                (switch-Outcome n c Good ctx w held _ ready (
                  again c more size (
                    switch-IsHolding r laws c ctx w held h
                      (keeps (ap (λ k. k % 64) (sym ready.in_step) ∙ aligned)) (omega arith))))
        ]
      ]
    where
      inside : 0 < capacity (w.store ctx.producer)
      inside = omega (arith, (h.queues ctx.producer ready.alive).inside)

      aligned : capacity (w.store ctx.producer) % 64 ≡ 0
      aligned = (h.queues ctx.producer ready.alive).capacity_aligned

  push_loop_lem :
      {R : Type 0} (f n : ℕ) (Good : R → List ℕ → Type 0)
      (attempt : Buffer → Run (Option (R × Buffer))) (ctx : ThreadContext) (w : World r)
      (held : ℕ → List (List ℕ))
      → IsAttempt r laws n Good attempt
      → IsHolding r w held
      → IsReady r laws ctx w
      → max_block_capacity ≤ ctx.capacity * 2 ^ f
      → Outcome n Good ctx w held (push_loop r (suc f) attempt ctx w)
  push_loop_lem zero n Good attempt ctx w held a h ready fuel =
      push_loop_round zero n Good attempt ctx w held a h ready
        (λ c more size h'. absurd (omega arith))
  push_loop_lem (suc f) n Good attempt ctx w held a h ready fuel =
      push_loop_round (suc f) n Good attempt ctx w held a h ready (λ c more size h'.
        push_loop_lem f n Good attempt (switch r c ctx w).0 (switch r c ctx w).1 held a h'.0 h'.1
          (capacity_after c (fuel_left f ctx.capacity c size fuel)))
    where
      capacity_after :
          (c : ℕ)
          → max_block_capacity ≤ c * 2 ^ f
          → max_block_capacity ≤ (switch r c ctx w).0.capacity * 2 ^ f
      capacity_after c h' = unfold switch in h'

  -- A push in the unbounded mode ends, with the message at the end of the thread's queue, or
  -- refused with every queue as it was.
  pub push_unbounded_cases :
      {R : Type 0} (n : ℕ) (Good : R → List ℕ → Type 0)
      (attempt : Buffer → Run (Option (R × Buffer))) (ctx : ThreadContext) (w : World r)
      (held : ℕ → List (List ℕ))
      → IsAttempt r laws n Good attempt
      → IsHolding r w held
      → IsReady r laws ctx w
      → 0 < ctx.capacity
      → Outcome n Good ctx w held (push_loop r growth_fuel attempt ctx w)
  push_unbounded_cases n Good attempt ctx w held a h ready some_room =
      push_loop_lem 31 n Good attempt ctx w held a h ready (omega arith)

  -- In the unbounded mode a message that the largest block can hold is sent, as long as the thread's
  -- queue is below that block.
  pub push_unbounded_sends :
      {R : Type 0} (n : ℕ) (Good : R → List ℕ → Type 0)
      (attempt : Buffer → Run (Option (R × Buffer))) (ctx : ThreadContext) (w : World r)
      (held : ℕ → List (List ℕ))
      → IsAttempt r laws n Good attempt
      → IsHolding r w held
      → IsReady r laws ctx w
      → 0 < ctx.capacity
      → ctx.capacity < max_block_capacity
      → padded_size n ≤ max_block_capacity
      → (value : R) × (ctx' : ThreadContext) × (w' : World r) × (push_loop r growth_fuel attempt ctx
            w
          ≡ ok (some value, ctx', w'))
        × IsSent r laws Good value ctx w held ctx' w'
  push_unbounded_sends {R} n Good attempt ctx w held a h ready some_room below fits =
      elim (push_unbounded_cases n Good attempt ctx w held a h ready some_room) [
        | inl sent ↦ sent
        | inr (ctx', w', e, refused) ↦ absurd (impossible ctx' w' refused)
      ]
    where
      impossible : (ctx' : ThreadContext) (w' : World r) → IsRefused n ctx w held ctx' w' → ⊥
      impossible ctx' w' refused = elim refused.small [
        | inl (same, _) ↦
            let e = ap (λ (x : ThreadContext). x.capacity) same in omega (arith, refused.largest)
        | inr small ↦ omega (arith, refused.largest)
      ]
