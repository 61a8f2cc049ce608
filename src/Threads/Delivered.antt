-- ===== src/Threads/Delivered.antt =====
-- A message that a thread has sent, in the next poll.
use rapidlog.Prelude.{
  ℕ, ◌≡◌, ◌≢◌, refl, sym, ap, ap₂, ◌∙◌, subst, List, [], ◌∷◌, ◌++◌, append_assoc, ok, All, ◌⊎◌, inl,
  inr,
}
use rapidlog.Queue.Ring.{RingBuffer, IsRingBuffer}
use rapidlog.Threads.Defs.{ThreadContext, World, poll_all_registered_queues}
use rapidlog.Threads.Attempt.{IsReady, IsSent}
use rapidlog.Threads.Poll.{messages_of, messages_of-snoc, poll_all_lem}
use rapidlog.Threads.Held.{Distinct, IsListed, All-map}

messages_of-append :
    (held : ℕ → List (List ℕ)) (ids more : List ℕ)
    → messages_of held (ids ++ more) ≡ messages_of held ids ++ messages_of held more
messages_of-append held [] more = refl
messages_of-append held (id ∷ ids) more =
    ap (λ x. held id ++ x) (messages_of-append held ids more) ∙ simp append_assoc

All-front : (P : ℕ → Type 0) (xs : List ℕ) (y : ℕ) (ys : List ℕ) → All P (xs ++ (y ∷ ys)) → P y
All-front P [] y ys h = h.0
All-front P (x ∷ xs) y ys h = All-front P xs y ys h.1

-- In a list without repetitions the others are different.
ne_before : (xs : List ℕ) (p : ℕ) (ys : List ℕ) → Distinct (xs ++ (p ∷ ys)) → All (λ id. id ≢ p) xs
ne_before [] p ys d = tt
ne_before (x ∷ xs) p ys d = (All-front (λ j. x ≢ j) xs p ys d.0, ne_before xs p ys d.1)

ne_after : (xs : List ℕ) (p : ℕ) (ys : List ℕ) → Distinct (xs ++ (p ∷ ys)) → All (λ id. id ≢ p) ys
ne_after [] p ys d = All-map (λ j. p ≢ j) (λ j. j ≢ p) ys (λ j ne e. ne (sym e)) d.0
ne_after (x ∷ xs) p ys d = ne_after xs p ys d.1

messages_of-same :
    (held held' : ℕ → List (List ℕ)) (p : ℕ) (ids : List ℕ)
    → ((id : ℕ) → id ≢ p → held' id ≡ held id)
    → All (λ id. id ≢ p) ids
    → messages_of held' ids ≡ messages_of held ids
messages_of-same held held' p [] others ne = refl
messages_of-same held held' p (id ∷ ids) others ne =
    ap₂ (λ a b. a ++ b) (others id ne.0) (messages_of-same held held' p ids others ne.1)

-- The queue `p` stands in the registry, and the queue `old` is it or stands before it.
pub record IsBehind (old p : ℕ) (registry : List ℕ) : Type 0 where
  pub before : List ℕ
  pub after : List ℕ
  pub split : registry ≡ before ++ (p ∷ after)
  pub old_listed : IsListed old (before ++ (p ∷ []))

producer-IsBehind :
    (old p : ℕ) (registry newer all : List ℕ)
    → IsListed old registry
    → all ≡ registry ++ newer
    → (p ≡ old) ⊎ IsListed p newer
    → IsBehind old p all
producer-IsBehind old p registry newer all (b, a, e) at (inl same) = record {
  before = b;
  after = a ++ newer;
  split =
      at
      ∙ ap (λ is. is ++ newer) e
      ∙ append_assoc b (old ∷ a) newer
      ∙ ap (λ i. b ++ (i ∷ (a ++ newer))) (sym same);
  old_listed = (b, [], ap (λ i. b ++ (i ∷ [])) same);
}
producer-IsBehind old p registry newer all (b, a, e) at (inr (nb, na, ne)) = record {
  before = registry ++ nb;
  after = na;
  split = at ∙ ap (λ is. registry ++ is) ne ∙ sym (append_assoc registry nb (p ∷ na));
  old_listed = (b, a ++ (nb ++ (p ∷ [])), ap (λ is. (is ++ nb) ++ (p ∷ [])) e ∙ simp append_assoc);
}

module _ (r : RingBuffer) (laws : IsRingBuffer r) where
  -- The next poll returns all that the queues held, and the message behind all of this thread's queue,
  -- of the one that it had before a growth too.
  pub sent_polled :
      {R : Type 0} (Good : R → List ℕ → Type 0) (value : R) (ctx ctx' : ThreadContext)
      (w w' : World r) (held : ℕ → List (List ℕ)) (s : IsSent r laws Good value ctx w held ctx' w')
      → IsReady r laws ctx w
      → (b : IsBehind ctx.producer ctx'.producer w'.registry) × (w'' : World r)
        × (poll_all_registered_queues r w'
            ≡ ok (
              messages_of held (b.before ++ (ctx'.producer ∷ []))
                  ++ (s.msg ∷ messages_of held b.after),
              w'',
            ))
  sent_polled Good value ctx ctx' w w' held s ready =
      let p = ctx'.producer in
      let b =
        producer-IsBehind ctx.producer p w.registry s.newer w'.registry ready.listed s.registry
          s.producer_now in
      let (w'', polled, kept, empty) = poll_all_lem r laws w' s.held' s.holding in
      let d : Distinct (b.before ++ (p ∷ b.after)) = subst Distinct b.split s.holding.distinct in
      let front =
        messages_of-snoc r laws w' held s.held' p b.before s.msg s.last s.others
          (ne_before b.before p b.after d) in
      let back = messages_of-same held s.held' p b.after s.others (ne_after b.before p b.after d) in
      let regroup : b.before ++ (p ∷ b.after) ≡ (b.before ++ (p ∷ [])) ++ b.after =
        simp append_assoc in
      let split : messages_of s.held' w'.registry
          ≡ messages_of held (b.before ++ (p ∷ [])) ++ (s.msg ∷ messages_of held b.after) =
        ap (messages_of s.held') (b.split ∙ regroup)
        ∙ messages_of-append s.held' (b.before ++ (p ∷ [])) b.after
        ∙ ap₂ (λ x y. x ++ y) front back
        ∙ simp append_assoc in
      (b, w'', polled ∙ ap (λ x. ok (x, w'')) split)
