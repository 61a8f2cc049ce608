-- ===== src/Backend/EndToEnd.antt =====
-- A log call, from its macro to the lines of its logger's sinks.
use rapidlog.Prelude.{
  ℕ, ◌+◌, ◌^◌, ◌≤◌, ◌<◌, ◌≡◌, ◌⊎◌, subst, List, [], ◌∷◌, ◌++◌, map, Option, none, ok, length, Text,
}
use rapidlog.Level.{LogLevel, as_usize}
use rapidlog.Queue.Ring.{RingBuffer, IsRingBuffer}
use rapidlog.Queue.Defs.{padded_size}
use rapidlog.Queue.Grow.{unbounded_blocking, max_block_capacity}
use rapidlog.Threads.Defs.{ThreadContext, World, poll_all_registered_queues}
use rapidlog.Threads.Held.{IsHolding}
use rapidlog.Threads.Attempt.{IsReady}
use rapidlog.Threads.Delivered.{IsBehind, sent_polled}
use rapidlog.Threads.Poll.{messages_of}
use rapidlog.Metadata
use rapidlog.Metadata.{Metadata}
use rapidlog.Message
use rapidlog.Message.{ArchivedHeader, IsHeader, header_size}
use rapidlog.Formatter.Defs.{DateTime}
use rapidlog.Body.Defs.{FloatDisplay}
use rapidlog.Body.Template.{Template, IsTemplate, printed}
use rapidlog.Logger.Defs.{Logger}
use rapidlog.Macros.Defs.{Argument, CallSite, meta, init_site, payloads_size, log_impl}
use rapidlog.Macros.Arguments.{AreLoggable}
use rapidlog.Macros.Tables.{HasTables, own_texts, arg_texts-own_texts}
use rapidlog.Macros.Bodies.{IsSite, call_text, IsLogged}
use rapidlog.Macros.Logged.{HasText, log_impl_sends}
use rapidlog.Backend.Defs.{Decoded, decode_all, dispatch}
use rapidlog.Backend.Delivery.{IsWanted}
use rapidlog.Backend.Line.{line_text}
use rapidlog.Backend.Logged.{dispatch-IsLogged}

module _ (floats : FloatDisplay) (from_unix_timestamp : ℕ → Option DateTime)
    (metadata_at : ℕ → Metadata) (logger_at : ℕ → Logger) (now meta_ptr logger_ptr : ℕ)
    (t : Template) (args : List Argument) (h : AreLoggable args) (site : CallSite) where
  -- The header of the call.
  abbrev pub call_header : ArchivedHeader
  call_header = record {
    timestamp_ns = now;
    metadata_ptr = meta_ptr;
    logger_ptr = logger_ptr;
    reserved = 0;
  }

  -- The line of the call: its time, level and place, and its text.
  abbrev pub call_line : Text
  call_line = line_text now site.level site.file site.line (call_text t (own_texts floats args h))

  module _ (r : RingBuffer) (laws : IsRingBuffer r) where
    -- A call that its logger's level lets through, with fewer than 256 arguments, whose values their
    -- encoders show, with a format string of literals and holes, with the locks of the schemas and of
    -- the string tables each empty or already filled for these arguments, with a time and addresses of
    -- 64 bits, of which that of the metadata leads to the call site's, and with a size below 2^32 that
    -- the largest block can hold; on a thread in the unbounded mode, whose registered queue has a
    -- capacity above 0 and below the largest block, where all queues are of whole cache lines: the call
    -- succeeds. The next poll returns all that the registered queues held, in the order of the
    -- registry, and among it the call's message, behind all messages of the queue that the thread has
    -- now and of the one that it had before the call. The worker decodes from the message the call's
    -- time and the addresses of its metadata and logger. If the logger wants it by then, a worker
    -- without a pattern gives each of the logger's sinks one line, which is `[`, the seconds, `.`, nine
    -- digits of nanoseconds, `] [`, the level's name, `] `, the call's file, `:`, its line, a space,
    -- and the format string with the arguments' texts, each made with the argument's own string table,
    -- in its holes, or as it stands if there are no arguments; else it writes nothing.
    pub log_impl_delivered :
        (logger_level : LogLevel) (ctx : ThreadContext) (w : World r) (held : ℕ → List (List ℕ))
        → as_usize logger_level ≤ as_usize site.level
        → IsTemplate t
        → site.format_str ≡ printed t
        → IsSite args site
        → HasTables args site
        → length args < 256
        → IsHeader (Message.new now meta_ptr logger_ptr)
        → ctx.mode ≡ unbounded_blocking
        → IsHolding r w held
        → IsReady r laws ctx w
        → 0 < ctx.capacity
        → ctx.capacity < max_block_capacity
        → padded_size (header_size + payloads_size args) ≤ max_block_capacity
        → header_size + payloads_size args < 256 ^ 4
        → metadata_at meta_ptr ≡ meta (init_site args site)
        → (ctx' : ThreadContext) × (w' : World r) × (w'' : World r) × (msg : List ℕ) × (b : IsBehind
            ctx.producer ctx'.producer w'.registry)
          × (log_impl r now meta_ptr logger_ptr logger_level args site ctx w
              ≡ ok (init_site args site, ctx', w'))
          × (poll_all_registered_queues r w'
              ≡ ok (
                messages_of held (b.before ++ (ctx'.producer ∷ []))
                    ++ (msg ∷ messages_of held b.after),
                w'',
              ))
          × (decode_all (msg ∷ []) ≡ ok ((call_header, msg) ∷ []))
          × (let d : Decoded = (call_header, msg) in
              (IsWanted metadata_at logger_at d
                × (dispatch floats from_unix_timestamp metadata_at logger_at none d
                    ≡ ok (map (λ (sink : ℕ). (sink, call_line)) (logger_at logger_ptr).sinks)))
              ⊎ ((¬ IsWanted metadata_at logger_at d)
                  × (dispatch floats from_unix_timestamp metadata_at logger_at none d ≡ ok [])))
    unfolding Message.new init_site meta Metadata.new
    log_impl_delivered logger_level ctx w held le ht ef hs ts few fits mode hold ready some_room
          below big small at =
        let (ctx', w', done, s) =
          log_impl_sends floats now meta_ptr logger_ptr t args h site r laws logger_level ctx w held
            le ht ef hs few fits mode hold ready some_room below big small in
        let Good = HasText floats now meta_ptr logger_ptr t args h site in
        let (b, w'', polled) = sent_polled r laws Good tt ctx ctx' w w' held s ready in
        let m = meta (init_site args site) in
        let (decoded, written) =
          dispatch-IsLogged floats from_unix_timestamp metadata_at logger_at m
            (Message.new now meta_ptr logger_ptr) (call_text t (own_texts floats args h)) s.msg
            (subst
              (λ x. IsLogged floats m (Message.new now meta_ptr logger_ptr) (call_text t x) s.msg)
              (arg_texts-own_texts floats args h site ts) s.good)
            at in
        (ctx', w', w'', s.msg, b, done, polled, decoded, written)
