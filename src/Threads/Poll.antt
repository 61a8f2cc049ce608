-- ===== src/Threads/Poll.antt =====
-- `poll_all_registered_queues`: what it returns and what it leaves.
use rapidlog.Prelude.{
  ℕ, ◌<◌, ◌≡◌, ◌≢◌, refl, ap, ap₂, ◌∙◌, sym, subst, List, [], ◌∷◌, ◌++◌, Bool, true, false, ◌&&◌,
  append_assoc, append-nil, ok, length, arith, All, ◌==◌, if◌then◌else◌,
}
use rapidlog.Queue.Ring.{RingBuffer, IsRingBuffer}
use rapidlog.Queue.Frames.{Holds}
use rapidlog.Queue.Pop.{pop_all_lem}
use rapidlog.Threads.Defs.{World, update, poll_from, poll_all_registered_queues}
use rapidlog.Threads.Held.{IsHolding, Distinct, All-map, update_self, update_ne}

-- The messages of some queues, queue by queue.
abbrev pub messages_of : (ℕ → List (List ℕ)) → List ℕ → List (List ℕ)
messages_of held [] = []
messages_of held (id ∷ ids) = held id ++ messages_of held ids

-- The queues whose producer is still there.
abbrev pub alive_of : (ℕ → Bool) → List ℕ → List ℕ
alive_of abandoned [] = []
alive_of abandoned (id ∷ ids) =
    if abandoned id then alive_of abandoned ids else id ∷ alive_of abandoned ids

All-map₂ :
    (P Q S : ℕ → Type 0) (xs : List ℕ)
    → ((x : ℕ) → P x → Q x → S x)
    → All P xs
    → All Q xs
    → All S xs
All-map₂ P Q S [] f h k = tt
All-map₂ P Q S (x ∷ xs) f h k = (f x h.0 k.0, All-map₂ P Q S xs f h.1 k.1)

eq→== : (a b : ℕ) → a ≡ b → (a == b) ≡ true
eq→== a b h = ground arith

module _ (r : RingBuffer) (laws : IsRingBuffer r) where
  open r use {Buffer, slots, stored}

  -- What a poll of the consumers `ids` comes to.
  pub record IsPolled (w : World r) (held : ℕ → List (List ℕ)) (ids : List ℕ) : Type 0 where
    pub after : World r
    pub polled : poll_from r ids w ≡ ok (messages_of held ids, alive_of w.abandoned ids, after)
    pub emptied : All (λ id. Holds r (after.store id) []) ids
    pub others : (id : ℕ) → All (λ j. j ≢ id) ids → after.store id ≡ w.store id
    pub same_next : after.next ≡ w.next
    pub same_abandoned : after.abandoned ≡ w.abandoned

  -- Each consumer gives up all its messages, oldest first, and a queue is dropped exactly if its
  -- producer is gone.
  pub poll_from_lem :
      (ids : List ℕ) (w : World r) (held : ℕ → List (List ℕ))
      → All (λ id. Holds r (w.store id) (held id)) ids
      → Distinct ids
      → IsPolled w held ids
  unfolding poll_from
  poll_from_lem [] w held h d = record {
    after = w;
    polled = refl;
    emptied = tt;
    others = λ id n. refl;
    same_next = refl;
    same_abandoned = refl;
  }
  poll_from_lem (id ∷ ids) w held h d =
      let (b, e, hb) = pop_all_lem r laws (w.store id) (held id) h.0 in
      let w₁ : World r = record w { store = update w.store id b } in
      let p =
        poll_from_lem ids w₁ held
          (All-map₂ (λ j. id ≢ j) (λ j. Holds r (w.store j) (held j))
            (λ j. Holds r (w₁.store j) (held j)) ids
            (λ j ne hj. subst (λ x. Holds r x (held j)) (sym (update_ne w.store id j b ne)) hj) d.0
            h.1)
          d.1 in
      let empty : (slots b == 0) ≡ true =
        eq→== (slots b) 0 (laws.slots_lem b ∙ ap (λ (x : List ℕ). length x) hb.frames) in
      let here : p.after.store id ≡ b =
        p.others id (All-map (λ j. id ≢ j) (λ j. j ≢ id) ids (λ j ne q. ne (sym q)) d.0)
        ∙ update_self w.store id b in
      record {
        after = p.after;
        polled =
            rw (e, p.polled, empty)
              (ap (λ ks. ok (messages_of held (id ∷ ids), ks, p.after))
                (keep_or_not (w.abandoned id)));
        emptied = (subst (λ x. Holds r x []) (sym here) hb, p.emptied);
        others = λ j ne. p.others j ne.1 ∙ update_ne w.store id j b ne.0;
        same_next = p.same_next;
        same_abandoned = p.same_abandoned;
      }
    where
      keep_or_not :
          (gone : Bool)
          → (if gone && true then alive_of w.abandoned ids else id ∷ alive_of w.abandoned ids)
            ≡ (if gone then alive_of w.abandoned ids else id ∷ alive_of w.abandoned ids)
      keep_or_not true = refl
      keep_or_not false = refl

  -- On queues of whole cache lines, each registered once, `poll_all_registered_queues` returns every message of every registered queue, in the order of
  -- the registry and oldest first within a queue, and leaves registered exactly the queues whose
  -- producers live; these are empty.
  pub poll_all_lem :
      (w : World r) (held : ℕ → List (List ℕ))
      → IsHolding r w held
      → (w' : World r) × (poll_all_registered_queues r w ≡ ok (messages_of held w.registry, w'))
        × (w'.registry ≡ alive_of w.abandoned w.registry)
        × All (λ id. Holds r (w'.store id) []) w.registry
  unfolding poll_all_registered_queues
  poll_all_lem w held h =
      let p =
        poll_from_lem w.registry w held
          (All-map (λ id. id < w.next) (λ id. Holds r (w.store id) (held id)) w.registry h.queues
            h.registered)
          h.distinct in
      (record p.after { registry = alive_of w.abandoned w.registry }, rw p.polled, refl, p.emptied)

  -- One thread, alone: a message that is sent is polled behind those sent before, also where its
  -- queue has grown into a new one.
  pub messages_of-snoc :
      (w : World r) (held : ℕ → List (List ℕ)) (held' : ℕ → List (List ℕ)) (p : ℕ) (before : List ℕ)
      (msg : List ℕ)
      → held' p ≡ held p ++ (msg ∷ [])
      → ((id : ℕ) → id ≢ p → held' id ≡ held id)
      → All (λ id. id ≢ p) before
      → messages_of held' (before ++ (p ∷ [])) ≡ messages_of held (before ++ (p ∷ [])) ++ (msg ∷ [])
  messages_of-snoc w held held' p [] msg last others ne = rw last (simp (append_assoc, append-nil))
  messages_of-snoc w held held' p (id ∷ before) msg last others ne =
      ap₂ (λ a b. a ++ b) (others id ne.0)
        (messages_of-snoc w held held' p before msg last others ne.1)
      ∙ sym (append_assoc (held id) (messages_of held (before ++ (p ∷ []))) (msg ∷ []))
