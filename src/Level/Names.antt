-- ===== src/Level/Names.antt =====
-- The names of the levels, which src/level.rs derives from its constructors, told apart from it.
use rapidlog.Prelude.{◌≡◌, refl, Text, ascii}
use rapidlog.Level.{
  LogLevel, trace_l3, trace_l2, trace_l1, debug, info, warning, error, critical, debug_name,
}

-- The name of each level.
unfoldable pub level_name : LogLevel → Text
level_name critical = ascii "Critical"
level_name error = ascii "Error"
level_name warning = ascii "Warning"
level_name info = ascii "Info"
level_name debug = ascii "Debug"
level_name trace_l1 = ascii "TraceL1"
level_name trace_l2 = ascii "TraceL2"
level_name trace_l3 = ascii "TraceL3"

pub debug_name-level_name : (l : LogLevel) → debug_name l ≡ level_name l
unfolding debug_name level_name
debug_name-level_name trace_l3 = refl
debug_name-level_name _ = refl
