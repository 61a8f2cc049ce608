-- ===== src/Backend/Defs.antt =====
-- src/backend.rs: the worker. The pointers of a header are resolved by `metadata_at` and `logger_at`;
-- what the loggers' filters and levels are does not change while a batch is delivered. The sort, which
-- leaves the order of equal times open, is the parameter `sort_by_time`.
use rapidlog.Prelude.{
  ℕ, zero, suc, ◌/◌, ◌%◌, List, [], ◌∷◌, ◌++◌, map, Bool, true, false, Option, none, some, Run, ok,
  out_of_fuel, ◌>>=◌, slice_from, length, ltb, if◌then◌else◌, Text, ascii, decimal, padded_decimal,
}
use rapidlog.Level.{as_usize, debug_name}
use rapidlog.Metadata.{Metadata}
use rapidlog.Message.{ArchivedHeader, header_size, decode}
use rapidlog.Formatter.Defs.{Segment, DateTime, format}
use rapidlog.Body.Defs.{FloatDisplay, format_body}
use rapidlog.Logger.Filter.{Filter}
use rapidlog.Logger.Defs.{Logger, level_of}

-- `to_display_nanos` of src/timestamp.rs, with the default clock.
abbrev pub to_display_nanos : ℕ → ℕ
to_display_nanos raw = raw

-- A decoded message: its header, and all its bytes.
abbrev pub Decoded : Type 0
Decoded = ArchivedHeader × List ℕ

-- A line that a sink is given.
abbrev pub Write : Type 0
Write = ℕ × Text

-- `BackendOptions`, as far as the output depends on it.
pub record BackendOptions : Type 0 where
  pub min_batch_size : ℕ
  pub pattern_formatter : Option (List Segment)

abbrev pub default_options : BackendOptions
default_options = record { min_batch_size = 256; pattern_formatter = none }

-- The `filter_map` over the raw messages.
unfoldable pub decode_all : List (List ℕ) → Run (List Decoded)
decode_all [] = ok []
decode_all (raw ∷ raws) = do
  found ← decode raw
  rest ← decode_all raws
  elim found [ none ↦ ok rest | some header ↦ ok ((header, raw) ∷ rest) ]

-- `filters.iter().all(...)`.
unfoldable pub accepts : List Filter → Metadata → List ℕ → Bool
accepts [] m payload = true
accepts (f ∷ fs) m payload = if f m payload then accepts fs m payload else false

-- The gathering of a batch. The polls are those that the worker gets to before it sees the stop signal:
-- where none is left, the signal is set. The result is the batch, and the polls that are left.
unfoldable pub gather :
    ℕ → List (List ℕ) → List (List (List ℕ)) → List (List ℕ) × List (List (List ℕ))
gather min_batch raw [] = (raw, [])
gather min_batch raw ([] ∷ polls) =
    if ltb (length raw) min_batch then (raw, polls) else (raw, [] ∷ polls)
gather min_batch raw ((m ∷ more) ∷ polls) =
    if ltb (length raw) min_batch
    then gather min_batch (raw ++ (m ∷ more)) polls
    else (raw, (m ∷ more) ∷ polls)

-- The line where no pattern is given.
unfoldable pub default_line : ℕ → ℕ → Metadata → Text → Text
default_line secs nanos m body =
    ascii "["
    ++ (decimal secs
        ++ (ascii "."
            ++ (padded_decimal 9 nanos
                ++ (ascii "] ["
                    ++ (debug_name m.level
                        ++ (ascii "] "
                            ++ (m.file
                                ++ (ascii ":" ++ (decimal m.line ++ (ascii " " ++ body))))))))))

module _ (floats : FloatDisplay) (from_unix_timestamp : ℕ → Option DateTime)
    (metadata_at : ℕ → Metadata) where
  -- `format_message`.
  unfoldable pub format_message : ArchivedHeader → List ℕ → Option (List Segment) → Run Text
  unfolding default_line
  format_message archived payload formatter =
      let display_ns = to_display_nanos archived.timestamp_ns in
      let m = metadata_at archived.metadata_ptr in
      let secs = display_ns / 1000000000 in
      let nanos = display_ns % 1000000000 in
      do
        body ← format_body floats m payload
        elim formatter [
          | some segments ↦ ok (
              format from_unix_timestamp segments (record {
                timestamp_secs = secs;
                timestamp_nanos = nanos;
                level_of = m.level;
                file_of = m.file;
                line_of = m.line;
                body_of = body;
              }))
          | none ↦ ok (default_line secs nanos m body)
        ]

module _ (floats : FloatDisplay) (from_unix_timestamp : ℕ → Option DateTime)
    (metadata_at : ℕ → Metadata) (logger_at : ℕ → Logger) where
  -- The body of the loop over the decoded messages: the lines that it writes.
  unfoldable pub dispatch : Option (List Segment) → Decoded → Run (List Write)
  unfolding accepts
  dispatch formatter (archived, raw) =
      let m = metadata_at archived.metadata_ptr in
      let logger = logger_at archived.logger_ptr in
      let deliver = do
        payload ← slice_from raw header_size
        (if accepts logger.filters m payload
            then format_message floats from_unix_timestamp metadata_at archived payload formatter
              >>= (λ line. ok (map (λ (sink : ℕ). (sink, line)) logger.sinks))
            else ok [])
      in if ltb (as_usize m.level) (as_usize (level_of logger)) then ok [] else deliver

  unfoldable pub dispatch_all : Option (List Segment) → List Decoded → Run (List Write)
  unfolding dispatch
  dispatch_all formatter [] = ok []
  dispatch_all formatter (d ∷ ds) = do
    writes ← dispatch formatter d
    more ← dispatch_all formatter ds
    ok (writes ++ more)

module _ (floats : FloatDisplay) (from_unix_timestamp : ℕ → Option DateTime)
    (metadata_at : ℕ → Metadata) (logger_at : ℕ → Logger)
    (sort_by_time : List Decoded → List Decoded) where
  -- One round of `worker_loop`, behind the gathering of its batch.
  unfoldable pub process_batch : Option (List Segment) → List (List ℕ) → Run (List Write)
  unfolding decode_all dispatch_all
  process_batch formatter raws = do
    decoded ← decode_all raws
    dispatch_all floats from_unix_timestamp metadata_at logger_at formatter (sort_by_time decoded)

  -- `worker_loop`, as long as the polls last. Each round takes a poll.
  unfoldable pub worker_loop : ℕ → BackendOptions → List (List (List ℕ)) → Run (List Write)
  unfolding gather process_batch
  worker_loop fuel options [] = ok []
  worker_loop zero options (raw ∷ polls) = out_of_fuel
  worker_loop (suc fuel) options ([] ∷ polls) = worker_loop fuel options polls
  worker_loop (suc fuel) options ((m ∷ more) ∷ polls) =
      let batch = gather options.min_batch_size (m ∷ more) polls in
      do
        writes ← process_batch options.pattern_formatter batch.0
        rest ← worker_loop fuel options batch.1
        ok (writes ++ rest)
