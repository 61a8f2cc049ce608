-- ===== src/Backend/Delivery.antt =====
-- Which messages a worker delivers, and to whom.
use rapidlog.Prelude.{
  ℕ, ◌≤◌, ◌≡◌, refl, ◌∙◌, sym, List, [], ◌∷◌, map, true, false, Option, ok, ◌>>=◌, slice_from-drop,
  length, drop, Bool-cases, inl, inr, ◌⊎◌, All, true≢false, arith, lt→ltb, le→ltb_false, le_or_lt,
}
use rapidlog.Level.{as_usize}
use rapidlog.Metadata.{Metadata}
use rapidlog.Message.{ArchivedHeader}
use rapidlog.Formatter.Defs.{Segment, DateTime}
use rapidlog.Body.Defs.{FloatDisplay}
use rapidlog.Logger.Filter.{Filter}
use rapidlog.Logger.Defs.{Logger, level_of}
use rapidlog.Backend.Defs.{Decoded, accepts, format_message, dispatch}

-- The message is severe enough for its logger, and every filter accepts it.
abbrev pub IsWanted : (ℕ → Metadata) → (ℕ → Logger) → Decoded → Type 0
IsWanted metadata_at logger_at (h, raw) =
    (as_usize (level_of (logger_at h.logger_ptr)) ≤ as_usize (metadata_at h.metadata_ptr).level)
    × All (λ (f : Filter). f (metadata_at h.metadata_ptr) (drop 32 raw) ≡ true)
        (logger_at h.logger_ptr).filters

accepts-cases :
    (fs : List Filter) (m : Metadata) (payload : List ℕ)
    → (All (λ (f : Filter). f m payload ≡ true) fs × (accepts fs m payload ≡ true))
      ⊎ ((¬ All (λ (f : Filter). f m payload ≡ true) fs) × (accepts fs m payload ≡ false))
unfolding accepts
accepts-cases [] m payload = inl (tt, refl)
accepts-cases (f ∷ fs) m payload = elim (Bool-cases (f m payload)) [
  | inl e ↦ elim (accepts-cases fs m payload) [
    | inl (h, a) ↦ inl ((e, h), rw (e) a)
    | inr (h, a) ↦ inr (λ p. h p.1, rw (e) a)
  ]
  | inr e ↦ inr (λ p. true≢false (sym p.0 ∙ e), rw (e) refl)
]

module _ (floats : FloatDisplay) (from_unix_timestamp : ℕ → Option DateTime)
    (metadata_at : ℕ → Metadata) (logger_at : ℕ → Logger) where
  -- A message of at least 32 bytes is formatted, and its line is written once to each of its logger's sinks, in their order,
  -- if its level is at least its logger's and all filters accept its payload; else it is neither
  -- formatted nor written.
  pub dispatch-cases :
      (formatter : Option (List Segment)) (h : ArchivedHeader) (raw : List ℕ)
      → 32 ≤ length raw
      → (IsWanted metadata_at logger_at (h, raw)
          × (dispatch floats from_unix_timestamp metadata_at logger_at formatter (h, raw) ≡ (
              format_message floats from_unix_timestamp metadata_at h (drop 32 raw) formatter
              >>= (λ line. ok (map (λ (sink : ℕ). (sink, line)) (logger_at h.logger_ptr).sinks)))))
        ⊎ ((¬ IsWanted metadata_at logger_at (h, raw))
            × (dispatch floats from_unix_timestamp metadata_at logger_at formatter (h, raw)
                ≡ ok []))
  unfolding dispatch
  dispatch-cases formatter h raw long =
      let logger = logger_at h.logger_ptr in
      let m = metadata_at h.metadata_ptr in
      let payload = slice_from-drop raw 32 long in
      elim (le_or_lt (as_usize (level_of logger)) (as_usize m.level)) [
        | inr low ↦ inr (
          λ p. omega (arith, p.0),
          rw (lt→ltb (as_usize m.level) (as_usize (level_of logger)) low, dispatch) refl,
        )
        | inl high ↦ elim (accepts-cases logger.filters m (drop 32 raw)) [
          | inl (all, e) ↦ inl (
            (high, all),
            rw
                (
                  le→ltb_false (as_usize m.level) (as_usize (level_of logger)) high,
                  payload,
                  dispatch,
                )
                (rw e refl),
          )
          | inr (refused, e) ↦ inr (
            λ p. refused p.1,
            rw
                (
                  le→ltb_false (as_usize m.level) (as_usize (level_of logger)) high,
                  payload,
                  dispatch,
                )
                (rw e refl),
          )
        ]
      ]
