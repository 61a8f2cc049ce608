-- ===== src/Backend/Worker.antt =====
-- The worker's loop: batches out of polls.
use rapidlog.Prelude.{
  ℕ, zero, suc, ◌≤◌, ◌≡◌, refl, sym, ◌∙◌, List, [], ◌∷◌, ◌++◌, concat, append_assoc, Option,
  Bool-cases, ltb, ok, length, inl, inr, All, Text, arith, subst,
}
use rapidlog.Metadata.{Metadata}
use rapidlog.Message.{ArchivedHeader}
use rapidlog.Formatter.Defs.{DateTime}
use rapidlog.Body.Defs.{FloatDisplay}
use rapidlog.Logger.Defs.{Logger}
use rapidlog.Backend.Defs.{Decoded, Write, BackendOptions, gather, worker_loop}
use rapidlog.Backend.Order.{IsSort, IsReadable, IsBatch, process_batch_lem}

abbrev Polls : Type 0
Polls = List (List (List ℕ))

-- A gathering takes polls off the front and adds all their messages to the batch, in their order. It
-- ends because the batch is large enough, because a poll found nothing, or because of the stop signal.
record IsGathered (raw : List (List ℕ)) (polls : Polls) (batch : List (List ℕ)) (left : Polls)
    : Type 0 where
  pub messages : batch ++ concat left ≡ raw ++ concat polls
  pub fewer : length left ≤ length polls

gather_lem :
    (min_batch : ℕ) (raw : List (List ℕ)) (polls : Polls)
    → IsGathered raw polls (gather min_batch raw polls).0 (gather min_batch raw polls).1
unfolding gather
gather_lem min_batch raw [] = record { messages = refl; fewer = omega arith }
gather_lem min_batch raw ([] ∷ polls) = elim (Bool-cases (ltb (length raw) min_batch)) [
  | inl e ↦ rw e (record { messages = refl; fewer = omega arith })
  | inr e ↦ rw e (record { messages = refl; fewer = omega arith })
]
gather_lem min_batch raw ((m ∷ more) ∷ polls) = elim (Bool-cases (ltb (length raw) min_batch)) [
  | inl e ↦
      let rest = gather_lem min_batch (raw ++ (m ∷ more)) polls in
      rw e (record {
        messages = rest.messages ∙ append_assoc raw (m ∷ more) (concat polls);
        fewer = omega (arith, rest.fewer);
      })
  | inr e ↦ rw e (record { messages = refl; fewer = omega arith })
]

All-append : (P : List ℕ → Type 0) (xs ys : List (List ℕ)) → All P xs → All P ys → All P (xs ++ ys)
All-append P [] ys h k = k
All-append P (x ∷ xs) ys h k = (h.0, All-append P xs ys h.1 k)

All-front : (P : List ℕ → Type 0) (xs ys : List (List ℕ)) → All P (xs ++ ys) → All P xs
All-front P [] ys h = tt
All-front P (x ∷ xs) ys h = (h.0, All-front P xs ys h.1)

All-back : (P : List ℕ → Type 0) (xs ys : List (List ℕ)) → All P (xs ++ ys) → All P ys
All-back P [] ys h = h
All-back P (x ∷ xs) ys h = All-back P xs ys h.1

module _ (floats : FloatDisplay) (from_unix_timestamp : ℕ → Option DateTime)
    (metadata_at : ℕ → Metadata) (logger_at : ℕ → Logger) (options : BackendOptions)
    (header_of : List ℕ → ArchivedHeader) (line_of : List ℕ → Text) where
  abbrev IsGood : List ℕ → Type 0
  IsGood =
      IsReadable floats from_unix_timestamp metadata_at logger_at options.pattern_formatter
        header_of line_of

  -- The messages fall into batches, one after the other, and the lines of each batch follow those of the
  -- batches before it.
  pub data Batches : List (List ℕ) → List Write → Type 0 where
    nil : Batches [] []
    cons :
        (batch more : List (List ℕ)) (out rest : List Write)
        → IsBatch floats from_unix_timestamp metadata_at logger_at options.pattern_formatter
            header_of line_of batch out
        → Batches more rest
        → Batches (batch ++ more) (out ++ rest)

  -- Where every polled message has a header and a text, and the sort keeps what it documents, the worker
  -- ends, after at most as many rounds as there are polls before the stop signal. Every message of the polls goes
  -- through exactly one batch, the batches in the order of the polls, and within a batch the messages in
  -- the order of their times; each message is delivered or dropped as its logger says.
  pub worker_loop_lem :
      (sort_by_time : List Decoded → List Decoded) (fuel : ℕ) (polls : List (List (List ℕ)))
      → IsSort sort_by_time
      → length polls ≤ fuel
      → All
          (IsReadable floats from_unix_timestamp metadata_at logger_at options.pattern_formatter
            header_of line_of)
          (concat polls)
      → (out : List Write) × (worker_loop floats from_unix_timestamp metadata_at logger_at
            sort_by_time fuel options polls
          ≡ ok out)
        × Batches (concat polls) out
  unfolding worker_loop
  worker_loop_lem sort_by_time fuel [] sorts le h = ([], refl, Batches.nil)
  worker_loop_lem sort_by_time zero (p ∷ polls) sorts le h = absurd (omega arith)
  worker_loop_lem sort_by_time (suc fuel) ([] ∷ polls) sorts le h =
      worker_loop_lem sort_by_time fuel polls sorts (omega arith) h
  worker_loop_lem sort_by_time (suc fuel) ((m ∷ more) ∷ polls) sorts le h =
      let batch = (gather options.min_batch_size (m ∷ more) polls).0 in
      let left = (gather options.min_batch_size (m ∷ more) polls).1 in
      let g = gather_lem options.min_batch_size (m ∷ more) polls in
      let good = subst (λ x. All IsGood x) (sym g.messages) h in
      let (out, e, b) =
        process_batch_lem floats from_unix_timestamp metadata_at logger_at options.pattern_formatter
          header_of line_of sort_by_time batch sorts (All-front IsGood batch (concat left) good) in
      let (rest, e', bs) =
        worker_loop_lem sort_by_time fuel left sorts (omega (arith, g.fewer))
          (All-back IsGood batch (concat left) good) in
      (
        out ++ rest,
        rw (e, e') refl,
        subst (λ x. Batches x (out ++ rest)) g.messages
            (Batches.cons batch (concat left) out rest b bs),
      )
