-- ===== src/Backend/Line.antt =====
-- The line of a log call in the default format of src/backend.rs, told part by part.
use rapidlog.Prelude.{
  ℕ, ◌/◌, ◌%◌, ◌≡◌, refl, [], ◌∷◌, append-nil, Text, ascii, decimal, padded_decimal, concat,
}
use rapidlog.Level.{LogLevel}
use rapidlog.Level.Names.{level_name, debug_name-level_name}
use rapidlog.Metadata.{Metadata}
use rapidlog.Backend.Defs.{default_line}

-- The seconds and nine digits of nanoseconds of a time in nanoseconds, the level, the place in the
-- source, and the text: `[secs.nanos] [Level] file:line text`.
unfoldable pub line_text : ℕ → LogLevel → Text → ℕ → Text → Text
line_text time_ns level file line text = concat (
    ascii "["
    ∷ decimal (time_ns / 1000000000)
    ∷ ascii "."
    ∷ padded_decimal 9 (time_ns % 1000000000)
    ∷ ascii "] ["
    ∷ level_name level
    ∷ ascii "] "
    ∷ file
    ∷ ascii ":"
    ∷ decimal line
    ∷ ascii " "
    ∷ text
    ∷ [])

pub default_line-line_text :
    (time_ns : ℕ) (m : Metadata) (text : Text)
    → default_line (time_ns / 1000000000) (time_ns % 1000000000) m text
      ≡ line_text time_ns m.level m.file m.line text
unfolding default_line line_text
default_line-line_text time_ns m text = rw (debug_name-level_name m.level, append-nil text) refl
