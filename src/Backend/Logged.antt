-- ===== src/Backend/Logged.antt =====
-- The worker on a message that a call of `log_impl!` has sent.
use rapidlog.Prelude.{
  ℕ, ◌≤◌, ◌≡◌, ◌∙◌, sym, inl, inr, ◌⊎◌, refl, List, [], ◌∷◌, map, Option, none, some, Run, ok,
  length, Text, le_or_lt, lt→ltb,
}
use rapidlog.Metadata.{Metadata}
use rapidlog.Message.{ArchivedHeader, decode}
use rapidlog.Formatter.Defs.{DateTime}
use rapidlog.Body.Defs.{FloatDisplay}
use rapidlog.Logger.Defs.{Logger}
use rapidlog.Backend.Defs.{decode_all, format_message, dispatch}
use rapidlog.Backend.Line.{line_text, default_line-line_text}
use rapidlog.Backend.Delivery.{IsWanted, dispatch-cases}
use rapidlog.Macros.Bodies.{IsLogged}

found_ne : (h : ArchivedHeader) → ◌≡◌ {A = Run (Option ArchivedHeader)} (ok none) (ok (some h)) → ⊥
found_ne h e = cc

decoded_long : (h : ArchivedHeader) (msg : List ℕ) → decode msg ≡ ok (some h) → 32 ≤ length msg
unfolding decode
decoded_long h msg e = elim (le_or_lt 32 (length msg)) [
  | inl le ↦ le
  | inr short ↦ absurd (found_ne h (sym (rw (lt→ltb (length msg) 32 short, decode) refl) ∙ e))
]

module _ (floats : FloatDisplay) (from_unix_timestamp : ℕ → Option DateTime)
    (metadata_at : ℕ → Metadata) (logger_at : ℕ → Logger) where
  -- A message of which the header and the text of the body can be read, on a worker without a pattern,
  -- where the address in the header leads to the call site's metadata: the worker decodes it to that
  -- header, and if its logger wants it, every sink of the logger is given one line, which is `[`, the
  -- seconds, `.`, nine digits of nanoseconds, `] [`, the level's name, `] `, the file, `:`, the line, a
  -- space and the text. If its logger does not want it, nothing is written.
  pub dispatch-IsLogged :
      (m : Metadata) (h : ArchivedHeader) (text : Text) (msg : List ℕ)
      → IsLogged floats m h text msg
      → metadata_at h.metadata_ptr ≡ m
      → (decode_all (msg ∷ []) ≡ ok ((h, msg) ∷ []))
        × ((IsWanted metadata_at logger_at (h, msg)
              × (dispatch floats from_unix_timestamp metadata_at logger_at none (h, msg)
                  ≡ ok (
                      map
                        (λ (sink : ℕ). (sink, line_text h.timestamp_ns m.level m.file m.line text))
                        (logger_at h.logger_ptr).sinks)))
            ⊎ ((¬ IsWanted metadata_at logger_at (h, msg))
                × (dispatch floats from_unix_timestamp metadata_at logger_at none (h, msg)
                    ≡ ok [])))
  unfolding decode_all format_message
  dispatch-IsLogged m h text msg s at = (
    rw s.decoded refl,
    elim (dispatch-cases floats from_unix_timestamp metadata_at logger_at none h msg
        (decoded_long h msg s.decoded)) [
          | inl (wanted, e) ↦
              inl (wanted, e ∙ rw (at, s.body, default_line-line_text h.timestamp_ns m text) refl)
          | inr (unwanted, e) ↦ inr (unwanted, e)
        ],
  )
