-- ===== src/Macros/Logged.antt =====
-- `log_impl!`: what a call sends, and what the backend finds in it.
use rapidlog.Prelude.{
  ℕ, ◌+◌, ◌^◌, ◌≤◌, ◌<◌, ◌≡◌, refl, ◌∙◌, sym, subst, List, ◌++◌, ok, ◌>>=◌, drop, length, le→leb,
  lt→leb_false, le_or_lt, ◌⊎◌, inl, inr,
}
use rapidlog.Level.{LogLevel, as_usize}
use rapidlog.Queue.Ring.{RingBuffer, IsRingBuffer, free}
use rapidlog.Queue.Defs.{padded_size}
use rapidlog.Queue.Grow.{unbounded_blocking, bounded_dropping, max_block_capacity}
use rapidlog.Message
use rapidlog.Message.{
  ArchivedHeader, IsHeader, header_size, header_bytes, length-header_bytes, serialize_into,
  serialize_into_lem, decode, decode-append,
}
use rapidlog.Threads.Defs.{ThreadContext, World, push_encoded_impl}
use rapidlog.Threads.Held.{IsHolding}
use rapidlog.Threads.Attempt.{IsReady, IsSent}
use rapidlog.Threads.Encoded.{IsMade, sent_as, push_encoded_sends, push_encoded_bounded}
use rapidlog.Body.Defs.{FloatDisplay}
use rapidlog.Body.Template.{Template, IsTemplate, printed}
use rapidlog.Macros.Defs.{
  Argument, CallSite, meta, init_site, payloads_size, write_message, log_impl,
}
use rapidlog.Macros.Arguments
use rapidlog.Macros.Sends.{write_message-Encodes, message_lem}
use rapidlog.Macros.Bodies.{IsSite, call_text, IsLogged, body_lem}

drop-header :
    (h : ArchivedHeader) (payload : List ℕ) → drop 32 (header_bytes h ++ payload) ≡ payload
drop-header h payload = refl

module _ (floats : FloatDisplay) (now meta_ptr logger_ptr : ℕ) (t : Template) (args : List Argument)
    (h : Arguments.AreLoggable args) (site : CallSite) where
  -- What the backend makes of a message of this call.
  abbrev pub HasText : Unit {0} → List ℕ → Type 0
  HasText u msg =
      let m = meta (init_site args site) in
      IsLogged floats m (Message.new now meta_ptr logger_ptr)
        (call_text t (Arguments.arg_texts floats m 0 args h)) msg

  message-HasText :
      (msg : List ℕ)
      → IsTemplate t
      → site.format_str ≡ printed t
      → IsSite args site
      → length args < 256
      → IsHeader (Message.new now meta_ptr logger_ptr)
      → IsMade
          (header_size + payloads_size args)
          (write_message now meta_ptr logger_ptr args)
          (write_message-Encodes now meta_ptr logger_ptr args h)
          tt
          msg
      → HasText tt msg
  unfolding Message.new
  message-HasText msg ht ef hs few fits e =
      let m = meta (init_site args site) in
      let hd = Message.new now meta_ptr logger_ptr in
      let bytes = Arguments.arg_bytes args h in
      let junk = drop (length bytes) (drop 32 e.buf) in
      subst (λ x. HasText tt x) (sym (e.msg_of ∙ message_lem now meta_ptr logger_ptr args h e.buf))
        (record {
          decoded = decode-append hd (bytes ++ junk) fits;
          body = body_lem floats t args h site junk ht ef hs few;
        })

  module _ (r : RingBuffer) (laws : IsRingBuffer r) where
    log_enabled :
        (logger_level : LogLevel) (ctx : ThreadContext) (w : World r)
        → as_usize logger_level ≤ as_usize site.level
        → log_impl r now meta_ptr logger_ptr logger_level args site ctx w ≡ (
            push_encoded_impl r
              (header_size + payloads_size args)
              (write_message now meta_ptr logger_ptr args)
              ctx
              w
            >>= (λ sent. ok (init_site args site, sent.1, sent.2)))
    unfolding log_impl
    log_enabled logger_level ctx w le =
        rw (le→leb (as_usize logger_level) (as_usize site.level) le) refl

    -- A call that its logger's level lets through, with fewer than 256 arguments, whose values their
    -- encoders show, with a format string of literals and holes, with the schemas' lock empty or already
    -- filled by this call site, with a time and addresses of 64 bits, and with a size below 2^32 that the
    -- largest block can hold; on a thread in the unbounded mode, whose registered queue has a capacity
    -- above 0 and below the largest block, where all queues are of whole cache lines: one message is sent
    -- to the end of the thread's queue. The backend decodes the call's time, metadata and logger from it,
    -- and with the call site's metadata its body is the format string with the arguments' texts in the
    -- holes, in their order, or as it stands if there are no arguments.
    pub log_impl_sends :
        (logger_level : LogLevel) (ctx : ThreadContext) (w : World r) (held : ℕ → List (List ℕ))
        → as_usize logger_level ≤ as_usize site.level
        → IsTemplate t
        → site.format_str ≡ printed t
        → IsSite args site
        → length args < 256
        → IsHeader (Message.new now meta_ptr logger_ptr)
        → ctx.mode ≡ unbounded_blocking
        → IsHolding r w held
        → IsReady r laws ctx w
        → 0 < ctx.capacity
        → ctx.capacity < max_block_capacity
        → padded_size (header_size + payloads_size args) ≤ max_block_capacity
        → header_size + payloads_size args < 256 ^ 4
        → (ctx' : ThreadContext) × (w' : World r) × (log_impl r now meta_ptr logger_ptr logger_level
              args site ctx w
            ≡ ok (init_site args site, ctx', w'))
          × IsSent r laws HasText tt ctx w held ctx' w'
    log_impl_sends logger_level ctx w held le ht ef hs few fits mode hold ready some_room below big
          small =
        let n = header_size + payloads_size args in
        let encode = write_message now meta_ptr logger_ptr args in
        let e = write_message-Encodes now meta_ptr logger_ptr args h in
        let (value, ctx', w', done, s) =
          push_encoded_sends r laws n encode e ctx w held mode hold ready some_room below big
            small in
        (
          ctx',
          w',
          log_enabled logger_level ctx w le ∙ rw done refl,
          sent_as r laws (IsMade n encode e) HasText value tt ctx ctx' w w' held
              (λ msg. message-HasText msg ht ef hs few fits) s,
        )

    -- In the bounded mode, for a call with fewer than 256 arguments, whose values their encoders show, with
    -- a format string of literals and holes, with the schemas' lock empty or already filled by this call
    -- site, with a time and addresses of 64 bits and a size below 2^32, on a thread whose queue is
    -- registered, where all queues are of whole cache lines: a call below its logger's level changes
    -- nothing at all; another one sends one message, in which the backend finds the call's header and the
    -- text of its body; or, where the thread's queue has no room for it, it fills the call site's locks
    -- and changes nothing else.
    pub log_impl_bounded :
        (logger_level : LogLevel) (ctx : ThreadContext) (w : World r) (held : ℕ → List (List ℕ))
        → IsTemplate t
        → site.format_str ≡ printed t
        → IsSite args site
        → length args < 256
        → IsHeader (Message.new now meta_ptr logger_ptr)
        → ctx.mode ≡ bounded_dropping
        → IsHolding r w held
        → IsReady r laws ctx w
        → header_size + payloads_size args < 256 ^ 4
        → let call = log_impl r now meta_ptr logger_ptr logger_level args site ctx w in
          ((as_usize site.level < as_usize logger_level) × (call ≡ ok (site, ctx, w)))
          ⊎ ((as_usize logger_level ≤ as_usize site.level)
              × (((free r (w.store ctx.producer) < padded_size (header_size + payloads_size args))
                    × (call ≡ ok (init_site args site, ctx, w)))
                  ⊎ ((ctx' : ThreadContext) × (w' : World r) × (call
                        ≡ ok (init_site args site, ctx', w'))
                      × IsSent r laws HasText tt ctx w held ctx' w')))
    unfolding log_impl
    log_impl_bounded logger_level ctx w held ht ef hs few fits mode hold ready small =
        let n = header_size + payloads_size args in
        let encode = write_message now meta_ptr logger_ptr args in
        let e = write_message-Encodes now meta_ptr logger_ptr args h in
        elim (le_or_lt (as_usize logger_level) (as_usize site.level)) [
          | inr low ↦
              inl (low, rw (lt→leb_false (as_usize logger_level) (as_usize site.level) low) refl)
          | inl le ↦ inr (
            le,
            elim (push_encoded_bounded r laws n encode e ctx w held mode hold ready small) [
              | inl (full, short) ↦ inl (short, log_enabled logger_level ctx w le ∙ rw full refl)
              | inr (value, ctx', w', done, s) ↦ inr (
                ctx',
                w',
                log_enabled logger_level ctx w le ∙ rw done refl,
                sent_as r laws (IsMade n encode e) HasText value tt ctx ctx' w w' held
                    (λ msg. message-HasText msg ht ef hs few fits) s,
              )
            ],
          )
        ]
