-- ===== src/Macros/Defs.antt =====
-- src/macros.rs: `log_impl!`.
use rapidlog.Prelude.{
  ℕ, ◌+◌, ◌%◌, ◌^◌, List, [], ◌∷◌, ◌++◌, Option, none, some, Run, ok, ◌>>=◌, slice, drop, leb,
  length, if◌then◌else◌, Text,
}
use rapidlog.Level.{LogLevel, as_usize}
use rapidlog.Queue.Ring.{RingBuffer}
use rapidlog.Metadata
use rapidlog.Metadata.{Metadata}
use rapidlog.Message
use rapidlog.Message.{serialize_into, header_size}
use rapidlog.Encode.Defs.{Encode, encode_at}
use rapidlog.Threads.Defs.{ThreadContext, World, push_encoded_impl}

-- An argument of a call: a value, of whatever type, with the `Encode` of that type.
pub record Argument : Type 1 where
  pub T : Type 0
  pub encoder : Encode T
  pub value : T

-- What stands at a call site: what is known at compile time, and the two `OnceLock`s.
pub record CallSite : Type 0 where
  pub level : LogLevel
  pub format_str : Text
  pub file : Text
  pub line : ℕ
  pub module_path : Text
  pub schema_bytes : Option (List ℕ)
  pub string_tables : Option (List (List ℕ))

-- `get().map(..).unwrap_or(&[])`.
abbrev pub or_empty : {A : Type 0} → Option (List A) → List A
or_empty none = []
or_empty (some xs) = xs

-- `_META`, with `__schemas`, `__string_tables` and `__user_formatters`.
unfoldable pub meta : CallSite → Metadata
unfolding Metadata.new
meta site =
    Metadata.new site.level site.format_str site.file site.line site.module_path
      (or_empty site.schema_bytes) (or_empty site.string_tables) []

-- The schemas of the arguments, one behind another.
unfoldable pub schemas : List Argument → List ℕ
schemas [] = []
schemas (a ∷ args) = a.encoder.schema ++ schemas args

-- The string table of each argument.
unfoldable pub tables : List Argument → List (List ℕ)
tables [] = []
tables (a ∷ args) = a.encoder.string_table a.value ∷ tables args

-- The first call that passes the level fills the locks. The count of the arguments is a `u8`.
unfoldable pub init_site : List Argument → CallSite → CallSite
unfolding schemas tables
init_site args site = record site {
  schema_bytes = elim site.schema_bytes [
    | none ↦ some (length args % 2 ^ 8 ∷ schemas args)
    | some bytes ↦ some bytes
  ];
  string_tables = elim site.string_tables [ none ↦ some (tables args) | some ts ↦ some ts ];
}

-- `_payloads_size`.
unfoldable pub payloads_size : List Argument → ℕ
payloads_size [] = 0
payloads_size (a ∷ args) = a.encoder.encoded_size a.value + payloads_size args

-- The arguments, written one behind another from `pos` on.
unfoldable pub encode_args : List Argument → List ℕ → ℕ → Run (ℕ × List ℕ)
unfolding encode_at
encode_args [] buf pos = ok (pos, buf)
encode_args (a ∷ args) buf pos = do
  (pos', buf') ← encode_at a.encoder a.value buf pos
  encode_args args buf' pos'

-- The closure that `log_impl!` hands to `push_encoded`: the time, the addresses of the metadata and the
-- logger, and the arguments.
unfoldable pub write_message : ℕ → ℕ → ℕ → List Argument → List ℕ → Run (Unit {0} × List ℕ)
unfolding serialize_into encode_args
write_message now meta_ptr logger_ptr args buf = do
  front ← slice buf 0 header_size
  front' ← serialize_into (Message.new now meta_ptr logger_ptr) front
  (pos, buf') ← encode_args args (front' ++ drop header_size buf) header_size
  ok (tt, buf')

-- `log_impl!` at a call site, for a logger that stands at `logger_ptr` with the level `logger_level`.
-- The result of `push_encoded` is dropped by `.ok()`.
unfoldable pub log_impl :
    (r : RingBuffer)
    → ℕ
    → ℕ
    → ℕ
    → LogLevel
    → List Argument
    → CallSite
    → ThreadContext
    → World r
    → Run (CallSite × ThreadContext × World r)
unfolding init_site payloads_size write_message push_encoded_impl
log_impl r now meta_ptr logger_ptr logger_level args site ctx w =
    let enabled = do
      (result, ctx', w') ←
          push_encoded_impl r (header_size + payloads_size args)
            (write_message now meta_ptr logger_ptr args) ctx w
      ok (init_site args site, ctx', w')
    in if leb (as_usize logger_level) (as_usize site.level) then enabled else ok (site, ctx, w)
