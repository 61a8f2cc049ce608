-- ===== src/Sinks/Defs.antt =====
-- src/sink.rs, src/sinks/file.rs and src/sinks/null.rs. A file sink has the bytes that its file holds, and
-- those that its `BufWriter` still keeps. How many bytes a call makes the `BufWriter` hand on is an
-- input, and so is whether the call succeeds; a call that fails loses its line.
use rapidlog.Prelude.{ℕ, List, [], ◌∷◌, ◌++◌, Bool, ◌==◌, if◌then◌else◌, take, drop, Text, ascii}
use rapidlog.Backend.Defs.{Write}

-- `enum FileMode`.
pub data FileMode : Type 0 where
  append truncate : FileMode

-- `struct FileSink`.
pub record FileSink : Type 0 where
  pub on_disk : Text
  pub buffered : Text

-- `FileSink::new`, on a file that holds `existing`, where it can be opened.
unfoldable pub new : FileMode → Text → FileSink
new append existing = record { on_disk = existing; buffered = [] }
new truncate existing = record { on_disk = []; buffered = [] }

-- What the system answers in one call of `write`.
pub record Answer : Type 0 where
  pub handed_on : ℕ
  pub write_ok : Bool

-- `Sink::write` of a file sink: `writeln!`.
unfoldable pub write : Answer → Text → FileSink → FileSink
write io formatted s =
    let waiting = s.buffered ++ (formatted ++ ascii "\n") in
    if io.write_ok
    then record {
      on_disk = s.on_disk ++ take io.handed_on waiting;
      buffered = drop io.handed_on waiting;
    }
    else s

-- `Sink::flush` of a file sink.
unfoldable pub flush : FileSink → FileSink
flush s = record { on_disk = s.on_disk ++ s.buffered; buffered = [] }

-- A sink of a logger; `NullSink` drops every line.
pub data Sink : Type 0 where
  null : Sink
  file : FileSink → Sink

-- `Sink::write`.
unfoldable pub sink_write : Answer → Text → Sink → Sink
unfolding write
sink_write io formatted null = null
sink_write io formatted (file s) = file (write io formatted s)

-- `Sink::flush`.
unfoldable pub sink_flush : Sink → Sink
unfolding flush
sink_flush null = null
sink_flush (file s) = file (flush s)

-- The lines that the worker gives to the sinks, which are numbered, in their order.
unfoldable pub deliver : List (Answer × Write) → (ℕ → Sink) → ℕ → Sink
unfolding sink_write
deliver [] sinks k = sinks k
deliver ((io, (id, line)) ∷ writes) sinks k =
    deliver writes (λ j. if id == j then sink_write io line (sinks j) else sinks j) k
