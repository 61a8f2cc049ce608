-- ===== src/Backend/Runs.antt =====
-- A batch of two messages of one logger, the later one first, and one for no sink.
use rapidlog.Prelude.{
  ℕ, ◌/◌, ◌%◌, ◌≡◌, ◌⊎◌, ◌>>=◌, refl, List, [], ◌∷◌, ◌++◌, map, Option, none, ok, Text, ascii,
  le_bytes, from_le, take, drop, arith, slice, concat,
}
use rapidlog.Level.{info, warning}
use rapidlog.Metadata.{Metadata}
use rapidlog.Message.{ArchivedHeader, decode, read_u64}
use rapidlog.Formatter.Defs.{DateTime}
use rapidlog.Body.Defs.{FloatDisplay, format_body}
use rapidlog.Logger.Filter.{level_filter}
use rapidlog.Logger.Defs.{Logger}
use rapidlog.Backend.Defs.{
  decode_all, Write, BackendOptions, format_message, dispatch, default_line, process_batch,
  worker_loop,
}
use rapidlog.Backend.Delivery.{IsWanted, dispatch-cases}
use rapidlog.Backend.Order.{IsReadable, IsBatch, process_batch_lem}
use rapidlog.Macros.Bodies.{IsLogged}
use rapidlog.Backend.Line.{line_text}
use rapidlog.Backend.Logged.{dispatch-IsLogged}
use rapidlog.Backend.Sort.{insertion_sort, insertion_sort-IsSort}
use rapidlog.Backend.Worker.{Batches, worker_loop_lem}

abbrev no_floats : FloatDisplay
no_floats = record { display_f32 = λ n. []; display_f64 = λ n. [] }

abbrev no_dates : ℕ → Option DateTime
no_dates secs = none

abbrev site : Metadata
site = record {
  level = warning;
  format_str = ascii "hi";
  file = ascii "a.rs";
  line = 3;
  module_path = ascii "a";
  schema_provider = [];
  string_tables_provider = [];
  user_formatters_provider = [];
}

abbrev site_at : ℕ → Metadata
site_at ptr = site

abbrev logger_at : ℕ → Logger
logger_at ptr = record {
  name = ascii "app";
  log_level = 4;
  sinks = 1 ∷ 2 ∷ [];
  filters = level_filter info ∷ [];
}

abbrev raw_at : ℕ → List ℕ
raw_at t = le_bytes 8 t ++ (le_bytes 8 4096 ++ (le_bytes 8 8192 ++ le_bytes 8 0))

abbrev header_of : List ℕ → ArchivedHeader
header_of raw = record {
  timestamp_ns = from_le (take 8 raw);
  metadata_ptr = 4096;
  logger_ptr = 8192;
  reserved = 0;
}

abbrev line_of : List ℕ → Text
line_of raw =
    let t = from_le (take 8 raw) in default_line (t / 1000000000) (t % 1000000000) site (ascii "hi")

abbrev raws : List (List ℕ)
raws = raw_at 3_000_000_007 ∷ raw_at 2_000_000_001 ∷ []

abbrev polls : List (List (List ℕ))
polls = [] ∷ raws ∷ (raw_at 1 ∷ []) ∷ []

abbrev options : BackendOptions
options = record { min_batch_size = 2; pattern_formatter = none }

abbrev Readable : List ℕ → Type 0
Readable = IsReadable no_floats no_dates site_at logger_at none header_of line_of

Readable-third : Readable (raw_at 3_000_000_007)
unfolding decode read_u64 slice format_message format_body
Readable-third = record { decoded = refl; long = omega arith; formatted = refl }

Readable-second : Readable (raw_at 2_000_000_001)
unfolding decode read_u64 slice format_message format_body
Readable-second = record { decoded = refl; long = omega arith; formatted = refl }

Readable-first : Readable (raw_at 1)
unfolding decode read_u64 slice format_message format_body
Readable-first = record { decoded = refl; long = omega arith; formatted = refl }

dispatch-cases_example :
    (IsWanted site_at logger_at (header_of (raw_at 1), raw_at 1)
      × (dispatch no_floats no_dates site_at logger_at none (header_of (raw_at 1), raw_at 1) ≡ (
          format_message no_floats no_dates site_at (header_of (raw_at 1)) (drop 32 (raw_at 1)) none
          >>= (λ line. ok (map (λ (sink : ℕ). (sink, line)) (1 ∷ 2 ∷ []))))))
    ⊎ ((¬ IsWanted site_at logger_at (header_of (raw_at 1), raw_at 1))
        × (dispatch no_floats no_dates site_at logger_at none (header_of (raw_at 1), raw_at 1)
            ≡ ok []))
dispatch-cases_example =
    dispatch-cases no_floats no_dates site_at logger_at none (header_of (raw_at 1)) (raw_at 1)
      (omega arith)

process_batch_lem_example :
    (out : List Write) × (process_batch no_floats no_dates site_at logger_at insertion_sort none
        raws
      ≡ ok out)
    × IsBatch no_floats no_dates site_at logger_at none header_of line_of raws out
process_batch_lem_example =
    process_batch_lem no_floats no_dates site_at logger_at none header_of line_of insertion_sort
      raws insertion_sort-IsSort (Readable-third, (Readable-second, tt))

worker_loop_lem_example :
    (out : List Write) × (worker_loop no_floats no_dates site_at logger_at insertion_sort 3 options
        polls
      ≡ ok out)
    × Batches no_floats no_dates site_at logger_at options header_of line_of (concat polls) out
worker_loop_lem_example =
    worker_loop_lem no_floats no_dates site_at logger_at options header_of line_of insertion_sort 3
      polls insertion_sort-IsSort (omega arith)
      (Readable-third, (Readable-second, (Readable-first, tt)))

hi-IsLogged : IsLogged no_floats site (header_of (raw_at 1)) (ascii "hi") (raw_at 1)
unfolding decode read_u64 slice format_body
hi-IsLogged = record { decoded = refl; body = refl }

dispatch-IsLogged_example :
    (decode_all (raw_at 1 ∷ []) ≡ ok ((header_of (raw_at 1), raw_at 1) ∷ []))
    × ((IsWanted site_at logger_at (header_of (raw_at 1), raw_at 1)
          × (dispatch no_floats no_dates site_at logger_at none (header_of (raw_at 1), raw_at 1)
              ≡ ok (
                  map
                    (λ (sink : ℕ). (sink, line_text 1 warning (ascii "a.rs") 3 (ascii "hi")))
                    (1 ∷ 2 ∷ []))))
        ⊎ ((¬ IsWanted site_at logger_at (header_of (raw_at 1), raw_at 1))
            × (dispatch no_floats no_dates site_at logger_at none (header_of (raw_at 1), raw_at 1)
                ≡ ok [])))
dispatch-IsLogged_example =
    dispatch-IsLogged no_floats no_dates site_at logger_at site (header_of (raw_at 1)) (ascii "hi")
      (raw_at 1) hi-IsLogged refl
