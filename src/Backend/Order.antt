-- ===== src/Backend/Order.antt =====
-- One batch: its messages in the order of their times, and what is written of them.
use rapidlog.Prelude.{
  ℕ, ◌≤◌, ◌≡◌, refl, subst, ◌∙◌, ap, List, [], ◌∷◌, ◌++◌, map, Option, some, ok, ◌>>=◌, length,
  drop, inl, inr, ◌⊎◌, All, Text, Permᴰ,
}
use rapidlog.Metadata.{Metadata}
use rapidlog.Message.{ArchivedHeader, decode}
use rapidlog.Formatter.Defs.{Segment, DateTime}
use rapidlog.Body.Defs.{FloatDisplay}
use rapidlog.Logger.Defs.{Logger}
use rapidlog.Backend.Defs.{
  Decoded, Write, decode_all, format_message, dispatch, dispatch_all, process_batch,
}
use rapidlog.Backend.Delivery.{IsWanted, dispatch-cases}

-- No message stands behind one of a later time.
abbrev pub IsAscending : List Decoded → Type 0
IsAscending [] = Unit {0}
IsAscending (d ∷ ds) =
    All (λ (e : Decoded). d.0.timestamp_ns ≤ e.0.timestamp_ns) ds × IsAscending ds

-- What `sort_unstable_by_key` documents.
pub record IsSort (sort_by_time : List Decoded → List Decoded) : Type 0 where
  pub permuted : (ds : List Decoded) → Permᴰ ds (sort_by_time ds)
  pub ascending : (ds : List Decoded) → IsAscending (sort_by_time ds)

All-perm : (P : Decoded → Type 0) (xs ys : List Decoded) → Permᴰ xs ys → All P xs → All P ys
All-perm P _ _ Permᴰ.nil h = tt
All-perm P _ _ (Permᴰ.cons {l₁ = xs} {l₂ = ys} e p) h = (subst P e h.0, All-perm P xs ys p h.1)
All-perm P _ _ (Permᴰ.swap e f) h = (subst P f h.1.0, (subst P e h.0, h.1.1))
All-perm P _ _ (Permᴰ.trans {l₁ = xs} {l₂ = ys} {l₃ = zs} p q) h =
    All-perm P ys zs q (All-perm P xs ys p h)

module _ (floats : FloatDisplay) (from_unix_timestamp : ℕ → Option DateTime)
    (metadata_at : ℕ → Metadata) (logger_at : ℕ → Logger) (formatter : Option (List Segment))
    (header_of : List ℕ → ArchivedHeader) (line_of : List ℕ → Text) where
  -- The message has a header, and its arguments a text.
  pub record IsReadable (raw : List ℕ) : Type 0 where
    pub decoded : decode raw ≡ ok (some (header_of raw))
    pub long : 32 ≤ length raw
    pub formatted :
        format_message floats from_unix_timestamp metadata_at
          (header_of raw)
          (drop 32 raw)
          formatter
        ≡ ok (line_of raw)

  -- One line for each sink of the logger if the message is wanted, nothing else.
  unfoldable pub IsDelivery : Decoded → List Write → Type 0
  IsDelivery d out =
      (IsWanted metadata_at logger_at d
        × (out ≡ map (λ (sink : ℕ). (sink, line_of d.1)) (logger_at d.0.logger_ptr).sinks))
      ⊎ ((¬ IsWanted metadata_at logger_at d) × (out ≡ []))

  pub data Delivered : List Decoded → List Write → Type 0 where
    nil : Delivered [] []
    cons :
        (d : Decoded) (ds : List Decoded) (out more : List Write)
        → IsDelivery d out
        → Delivered ds more
        → Delivered (d ∷ ds) (out ++ more)

  -- The decoded message of some bytes.
  abbrev pub with_header : List ℕ → Decoded
  with_header raw = (header_of raw, raw)

  abbrev IsItem : Decoded → Type 0
  IsItem d = (d.0 ≡ header_of d.1) × IsReadable d.1

  formatted_of :
      (h : ArchivedHeader) (raw : List ℕ)
      → h ≡ header_of raw
      → IsReadable raw
      → format_message floats from_unix_timestamp metadata_at h (drop 32 raw) formatter
        ≡ ok (line_of raw)
  formatted_of h raw e r = rw e r.formatted

  dispatch_item :
      (d : Decoded)
      → IsItem d
      → (out : List Write) × (dispatch floats from_unix_timestamp metadata_at logger_at formatter d
          ≡ ok out)
        × IsDelivery d out
  unfolding IsDelivery
  dispatch_item (h, raw) (e, r) =
      elim (dispatch-cases floats from_unix_timestamp metadata_at logger_at formatter h raw
        r.long) [
          | inl (wanted, eq) ↦ (
            map (λ (sink : ℕ). (sink, line_of raw)) (logger_at h.logger_ptr).sinks,
            eq
                ∙ ap
                    (λ t. t >>= (λ line.
                      ok (map (λ (sink : ℕ). (sink, line)) (logger_at h.logger_ptr).sinks)))
                    (formatted_of h raw e r),
            inl (wanted, refl),
          )
          | inr (unwanted, eq) ↦ ([], eq, inr (unwanted, refl))
        ]

  dispatch_items :
      (ds : List Decoded)
      → All IsItem ds
      → (out : List Write) × (dispatch_all floats from_unix_timestamp metadata_at logger_at
            formatter ds
          ≡ ok out)
        × Delivered ds out
  unfolding dispatch_all
  dispatch_items [] h = ([], refl, Delivered.nil)
  dispatch_items (d ∷ ds) h =
      let (out, e, del) = dispatch_item d h.0 in
      let (more, e', dels) = dispatch_items ds h.1 in
      (out ++ more, rw (e, e') refl, Delivered.cons d ds out more del dels)

  decode_readable :
      (raws : List (List ℕ)) → All IsReadable raws → decode_all raws ≡ ok (map with_header raws)
  unfolding decode_all
  decode_readable [] h = refl
  decode_readable (raw ∷ raws) h = rw (h.0.decoded, decode_readable raws h.1) refl

  items_readable : (raws : List (List ℕ)) → All IsReadable raws → All IsItem (map with_header raws)
  items_readable [] h = tt
  items_readable (raw ∷ raws) h = ((refl, h.0), items_readable raws h.1)

  -- What a batch comes to: its messages in an ascending order, and their lines.
  pub record IsBatch (raws : List (List ℕ)) (out : List Write) : Type 0 where
    pub order : List Decoded
    pub permuted : Permᴰ (map with_header raws) order
    pub ascending : IsAscending order
    pub delivered : Delivered order out

  -- A batch whose messages all have a header and a text is processed without a panic, with any sort that
  -- keeps what it documents. Its messages are
  -- taken in an ascending order of their times, each once; each gives one line to each sink of its
  -- logger, in the sinks' order, if the logger wants it, and nothing else.
  pub process_batch_lem :
      (sort_by_time : List Decoded → List Decoded) (raws : List (List ℕ))
      → IsSort sort_by_time
      → All IsReadable raws
      → (out : List Write) × (process_batch floats from_unix_timestamp metadata_at logger_at
            sort_by_time formatter raws
          ≡ ok out)
        × IsBatch raws out
  unfolding process_batch
  process_batch_lem sort_by_time raws sorts h =
      let ds = map with_header raws in
      let p = sorts.permuted ds in
      let (out, e, del) =
        dispatch_items (sort_by_time ds)
          (All-perm IsItem ds (sort_by_time ds) p (items_readable raws h)) in
      (
        out,
        rw (decode_readable raws h) e,
        record {
          order = sort_by_time ds;
          permuted = p;
          ascending = sorts.ascending ds;
          delivered = del;
        },
      )
