-- ===== src/Lib.antt =====
-- rapidlog: a logging library whose hot path copies the arguments of a message into a queue of its
-- thread, and whose background worker reads, sorts, formats and writes the messages.
--
-- The parts, from a log call to a line of a file, and the files that model them:
--   Level        src/level.rs: the levels, `as_usize`, `from_usize`.
--   Metadata     src/metadata.rs: what a call site knows at compile time.
--   Arg          src/arg/mod.rs and src/arg/schema.rs: opcodes, `measure_schema` (Arg.Measure) and
--                `format_payload` (Arg.Format), one function for each arm of its match. Arg.Heads,
--                Arg.Delimited, Arg.Read, Arg.Pieces and Arg.Variants are about schemas that tell their
--                own length, and about the bytes that are read with them.
--   Body         src/arg/schema.rs: `get_schemas`, `decode_args`, `format_body` (Body.Defs), and the
--                format strings that are literals and holes (Body.Template).
--   Encode       src/arg/traits.rs, primitives.rs, pointer.rs, compound.rs, container.rs: each impl of `Encode`
--                (Defs, Primitives, Pointer, Compound, Container). Encode.Shown states what an encoder and the
--                formatter owe each other; the other files are about one kind of type each.
--   Queue        src/queue.rs, src/config.rs: `push`, `push_encoded`, `pop`, `pop_all`, `grow`
--                (Queue.Defs, Queue.Grow), on the ring buffer of the crate rtrb (Queue.Ring).
--   Threads      src/thread_context.rs, src/frontend.rs: the producers of the threads, their growth,
--                the registry of consumers, and `poll_all_registered_queues` (Threads.Defs).
--   Message      src/message.rs: the header in front of the arguments.
--   Formatter    src/formatter.rs: `PatternFormatter`.
--   Logger       src/filter.rs, src/logger.rs: filters, loggers and their registry.
--   Macros       src/macros.rs: `log_impl!` (Macros.Defs), the macros of the levels and the features
--                of the build (Macros.Levels).
--   Derive       rapidlog_derive/src/lib.rs: the `Encode` that is derived for structs with named fields
--                and for enums (Derive.Defs).
--   Backend      src/backend.rs: the decoding, sorting and delivery of batches, and `worker_loop`
--                (Backend.Defs). Backend.EndToEnd follows one call from its macro to its line.
--   Rotating     src/sinks/rotating.rs: the sink that rotates its file, over an abstract disk.
--   Sinks        src/sink.rs, src/sinks/file.rs, src/sinks/null.rs: file sinks with their buffers, and
--                the delivery of the worker's lines to them.
--
-- How they interact: a log macro encodes its arguments behind a header, `push_encoded` copies the message
-- into the thread's queue as a frame of whole cache lines, a poll takes the messages of all queues out
-- again, and the worker sorts a batch of them by time, asks the logger of each, and gives the line to
-- the logger's sinks.
--
-- What the code writes is stated apart from it: the line of the default format in Backend.Line, the names
-- of the levels in Level.Names, the fields of a pattern in Formatter.Render, the commas of a text in
-- Arg.Commas, the name and parentheses of a variant in Arg.Variants, and the string table of each
-- argument in Macros.Tables.
--
-- Conventions. A byte is a number, a text its UTF-8 bytes. `Run` (Prelude.Outcome) is what code comes
-- to: a value, a panic, or, in the model alone, a lack of fuel. An index out of range panics, and so
-- does a raw write outside its slice, which Rust leaves undefined. State is passed on: the queues of
-- all threads are a store numbered in the order of their creation (Threads.Defs.World), an
-- `Arc<Logger>` is a number (Logger.Defs.Loggers), and the calls of sinks are the list of their lines.
-- Words are 64 bits and little-endian, and sums of lengths are taken not to overflow them.
--
-- Code that is not in the repository is a parameter: the ring buffer with the laws of its documentation
-- (Queue.Ring.IsRingBuffer, which the concrete `cells` meets), the calendar of the crate time, the
-- `Display` of floats, and the order of equal times in `sort_unstable_by_key` (Backend.Order.IsSort,
-- which Backend.Sort meets).
--
-- Fuel: the growth of a queue gets 32 rounds, since 31 doublings take a capacity of 1 to the largest
-- block; `pop_all` one round more than there are stored bytes; the body of a message one round for
-- each byte of its format string; a schema one level for each of its bytes; the worker one round for
-- each poll.
--
-- Not modelled: the console sink, which forwards lines to a stream; the parse and the quoting of tokens in the
-- derive macro, and its bodies for tuple structs, which do not compile; the thread, the handle and the sleep of the
-- worker; the calibration of the TSC clock, an optional feature; the interleaving inside one ring
-- buffer operation, which rtrb makes atomic; pushes between the pops of one poll: `push_encoded` does not
-- take the registry's lock, so that a thread can push while a poll goes over the queues, whereas
-- `poll_all_registered_queues` is one step here. An argument of a macro is a value, so that an expression
-- that gives another value each time it is evaluated is out of scope.
pub mod Prelude
pub mod Level
pub mod Arg
pub mod Metadata
pub mod Body
pub mod Encode
pub mod Queue
pub mod Threads
pub mod Message
pub mod Formatter
pub mod Logger
pub mod Macros
pub mod Derive
pub mod Backend
pub mod Rotating
pub mod Sinks
