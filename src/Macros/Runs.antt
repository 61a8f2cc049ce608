-- ===== src/Macros/Runs.antt =====
-- A call with a number and a text, on a thread of its own.
use rapidlog.Prelude.{
  ◌++◌, Option, map, ℕ, ◌+◌, ◌^◌, ◌<◌, ◌≤◌, ◌≡◌, ◌⊎◌, inl, refl, List, [], ◌∷◌, Bool, false, true,
  none, ok, arith, Text, ascii, is_utf8, decimal,
}
use rapidlog.Level.{info, warning, as_usize}
use rapidlog.Queue.Ring.{cells, cells-IsRingBuffer, Cells, free}
use rapidlog.Queue.Defs.{padded_size}
use rapidlog.Queue.Grow.{new-Holds, unbounded_blocking, bounded_dropping}
use rapidlog.Threads.Defs.{ThreadContext, World, poll_all_registered_queues}
use rapidlog.Threads.Held.{IsHolding}
use rapidlog.Threads.Poll.{messages_of}
use rapidlog.Threads.Delivered.{IsBehind}
use rapidlog.Threads.Attempt.{IsReady, IsSent}
use rapidlog.Arg.Opcode.{size_for_k}
use rapidlog.Body.Defs.{FloatDisplay}
use rapidlog.Body.Template.{Template, end, hole, IsTemplate, printed}
use rapidlog.Message
use rapidlog.Message.{IsHeader, header_size}
use rapidlog.Encode.Primitives.{unsigned_int, str}
use rapidlog.Encode.RoundTrip.{unsigned_int-IsShown}
use rapidlog.Encode.Leaves.{unsigned_int-IsDelimited, str-IsDelimited}
use rapidlog.Encode.Texts.{str-IsShown}
use rapidlog.Macros.Defs.{Argument, CallSite, meta, init_site, payloads_size, log_impl}
use rapidlog.Macros.Arguments.{IsLoggable, AreLoggable}
use rapidlog.Macros.Levels.{Features, max_level, log_macro, log_macro-cases}
use rapidlog.Metadata.{Metadata}
use rapidlog.Formatter.Defs.{DateTime}
use rapidlog.Logger.Defs.{Logger}
use rapidlog.Backend.Defs.{Decoded, decode_all, dispatch}
use rapidlog.Backend.Delivery.{IsWanted}
use rapidlog.Backend.EndToEnd.{call_header, call_line, log_impl_delivered}
use rapidlog.Macros.Logged.{HasText, log_impl_sends, log_impl_bounded}

abbrev no_floats : FloatDisplay
no_floats = record { display_f32 = λ n. []; display_f64 = λ n. [] }

abbrev queue_of : ℕ → Cells
queue_of id = record { places = 64; oldest = 0; bytes = [] }

abbrev nobody : ℕ → Bool
nobody id = false

abbrev no_messages : ℕ → List (List ℕ)
no_messages id = []

abbrev world : World cells
world = record { store = queue_of; abandoned = nobody; next = 1; registry = 0 ∷ [] }

abbrev unbounded : ThreadContext
unbounded = record { producer = 0; capacity = 64; mode = unbounded_blocking }

abbrev bounded : ThreadContext
bounded = record { producer = 0; capacity = 64; mode = bounded_dropping }

world-IsHolding : IsHolding cells world no_messages
world-IsHolding = record {
  queues = λ id lt. new-Holds cells cells-IsRingBuffer 64 refl (omega arith);
  unborn = λ id le. refl;
  registered = (omega arith, tt);
  distinct = (tt, tt);
}

unbounded-IsReady : IsReady cells cells-IsRingBuffer unbounded world
unbounded-IsReady = record { alive = omega arith; in_step = refl; listed = ([], [], refl) }

bounded-IsReady : IsReady cells cells-IsRingBuffer bounded world
bounded-IsReady = record { alive = omega arith; in_step = refl; listed = ([], [], refl) }

-- `log_warning!(logger, "n={} s={}", 7u32, "hello")`.
abbrev number : Argument
number = record { T = ℕ; encoder = unsigned_int 3; value = 7 }

abbrev greeting : Argument
greeting = record { T = Text; encoder = str; value = ascii "hello" }

abbrev args : List Argument
args = number ∷ greeting ∷ []

abbrev template : Template
template = hole (ascii "n=") [] (hole (ascii " s=") [] (end []))

template-IsTemplate : IsTemplate template
template-IsTemplate = ((refl, (refl, tt)), tt, ((refl, (refl, (refl, tt))), tt, tt))

abbrev site : CallSite
site = record {
  level = warning;
  format_str = ascii "n={} s={}";
  file = ascii "a.rs";
  line = 3;
  module_path = ascii "a";
  schema_bytes = none;
  string_tables = none;
}

number-IsLoggable : IsLoggable number
unfolding size_for_k
number-IsLoggable = record {
  shown = λ c. decimal;
  is_shown = (unsigned_int-IsShown 3 7 (omega arith) (omega arith) seven_fits).0;
  delimited = unsigned_int-IsDelimited 3 (omega arith) (omega arith);
}
  where
    seven_fits : 7 < 256 ^ size_for_k 3
    seven_fits = omega arith

greeting-IsLoggable : IsLoggable greeting
unfolding is_utf8
greeting-IsLoggable = record {
  shown = λ c t. t;
  is_shown = (str-IsShown (ascii "hello") (omega arith) valid).0;
  delimited = str-IsDelimited;
}
  where
    valid : is_utf8 (ascii "hello") ≡ true
    valid = refl

args-AreLoggable : AreLoggable args
args-AreLoggable = (number-IsLoggable, (greeting-IsLoggable, tt))

call-IsHeader : IsHeader (Message.new 1_000 4_096 8_192)
unfolding Message.new
call-IsHeader = record {
  timestamp_fits = omega arith;
  metadata_fits = omega arith;
  logger_fits = omega arith;
}

log_impl_sends_example :
    (ctx' : ThreadContext) × (w' : World cells) × (log_impl cells 1_000 4_096 8_192 info args site
        unbounded world
      ≡ ok (init_site args site, ctx', w'))
    × IsSent cells cells-IsRingBuffer
        (HasText no_floats 1_000 4_096 8_192 template args args-AreLoggable site)
        tt
        unbounded
        world
        no_messages
        ctx'
        w'
unfolding as_usize payloads_size printed size_for_k
log_impl_sends_example =
    log_impl_sends no_floats 1_000 4_096 8_192 template args args-AreLoggable site cells
      cells-IsRingBuffer info unbounded world no_messages (omega arith) template-IsTemplate refl
      (inl refl) (omega arith) call-IsHeader refl world-IsHolding unbounded-IsReady (omega arith)
      (omega arith) (omega arith) (omega arith)

log_impl_bounded_example :
    ((as_usize warning < as_usize info)
      × (log_impl cells 1_000 4_096 8_192 info args site bounded world ≡ ok (site, bounded, world)))
    ⊎ ((as_usize info ≤ as_usize warning)
        × (((free cells (world.store 0) < padded_size (header_size + payloads_size args))
              × (log_impl cells 1_000 4_096 8_192 info args site bounded world
                  ≡ ok (init_site args site, bounded, world)))
            ⊎ ((ctx' : ThreadContext) × (w' : World cells) × (log_impl cells 1_000 4_096 8_192 info
                    args site bounded world
                  ≡ ok (init_site args site, ctx', w'))
                × IsSent cells cells-IsRingBuffer
                    (HasText no_floats 1_000 4_096 8_192 template args args-AreLoggable site)
                    tt
                    bounded
                    world
                    no_messages
                    ctx'
                    w')))
unfolding payloads_size printed size_for_k
log_impl_bounded_example =
    log_impl_bounded no_floats 1_000 4_096 8_192 template args args-AreLoggable site cells
      cells-IsRingBuffer info bounded world no_messages template-IsTemplate refl (inl refl)
      (omega arith) call-IsHeader refl world-IsHolding bounded-IsReady (omega arith)

-- A build with `max_level_info` and `max_level_error`.
abbrev features : Features
features = record {
  max_level_debug = false;
  max_level_info = true;
  max_level_warning = false;
  max_level_error = true;
}

log_macro-cases_example :
    (((as_usize warning < max_level features) ⊎ (as_usize warning < as_usize info))
      × (log_macro cells features 1_000 4_096 8_192 info args site bounded world
          ≡ ok (site, bounded, world)))
    ⊎ ((max_level features ≤ as_usize warning)
        × (as_usize info ≤ as_usize warning)
        × (log_macro cells features 1_000 4_096 8_192 info args site bounded world
            ≡ log_impl cells 1_000 4_096 8_192 info args site bounded world))
log_macro-cases_example =
    log_macro-cases cells features 1_000 4_096 8_192 info args site bounded world

abbrev metadata_at : ℕ → Metadata
unfolding init_site meta
metadata_at ptr = meta (init_site args site)

abbrev logger_at : ℕ → Logger
logger_at ptr = record { name = ascii "app"; log_level = 4; sinks = 1 ∷ 2 ∷ []; filters = [] }

abbrev no_dates : ℕ → Option DateTime
no_dates secs = none

log_impl_delivered_example :
    (ctx' : ThreadContext) × (w' : World cells) × (w'' : World cells) × (msg : List ℕ)
    × (b : IsBehind 0 ctx'.producer w'.registry) × (log_impl cells 1_000 4_096 8_192 info args site
          unbounded world
        ≡ ok (init_site args site, ctx', w'))
    × (poll_all_registered_queues cells w'
        ≡ ok (
          messages_of no_messages (b.before ++ (ctx'.producer ∷ []))
              ++ (msg ∷ messages_of no_messages b.after),
          w'',
        ))
    × (decode_all (msg ∷ [])
        ≡ ok (
            (
              call_header no_floats no_dates metadata_at logger_at 1_000 4_096 8_192 template args
                  args-AreLoggable site,
              msg,
            )
            ∷ []))
    × (let d : Decoded = (
      call_header no_floats no_dates metadata_at logger_at 1_000 4_096 8_192 template args
          args-AreLoggable site,
      msg,
    ) in
        (IsWanted metadata_at logger_at d
          × (dispatch no_floats no_dates metadata_at logger_at none d
              ≡ ok (
                  map
                    (λ (sink : ℕ). (
                      sink,
                      call_line no_floats no_dates metadata_at logger_at 1_000 4_096 8_192 template
                          args args-AreLoggable site,
                    ))
                    (1 ∷ 2 ∷ []))))
        ⊎ ((¬ IsWanted metadata_at logger_at d)
            × (dispatch no_floats no_dates metadata_at logger_at none d ≡ ok [])))
unfolding as_usize payloads_size printed size_for_k metadata_at
log_impl_delivered_example =
    log_impl_delivered no_floats no_dates metadata_at logger_at 1_000 4_096 8_192 template args
      args-AreLoggable site cells cells-IsRingBuffer info unbounded world no_messages (omega arith)
      template-IsTemplate refl (inl refl) (inl refl) (omega arith) call-IsHeader refl
      world-IsHolding unbounded-IsReady (omega arith) (omega arith) (omega arith) (omega arith) refl
