-- ===== src/Logger/Filter.antt =====
-- src/filter.rs: what a logger asks of a message before its sinks get it.
use rapidlog.Prelude.{ℕ, List, Bool}
use rapidlog.Level.{LogLevel, le_level}
use rapidlog.Metadata.{Metadata}

-- `trait Filter`, by its one method.
abbrev pub Filter : Type 0
Filter = Metadata → List ℕ → Bool

-- `LevelFilter::new` with `accept`.
unfoldable pub level_filter : LogLevel → Filter
unfolding le_level
level_filter level metadata args_raw = le_level level metadata.level
