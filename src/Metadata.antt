-- ===== src/Metadata.antt =====
-- src/metadata.rs: what a log call site knows at compile time.
use rapidlog.Prelude.{ℕ, List, Text}
use rapidlog.Level.{LogLevel}
use rapidlog.Arg.Format.{UserFormatter}

-- `struct Metadata`. Each provider is a function of no arguments, and stands here for its result.
pub record Metadata : Type 0 where
  pub level : LogLevel
  pub format_str : Text
  pub file : Text
  pub line : ℕ
  pub module_path : Text
  pub schema_provider : List ℕ
  pub string_tables_provider : List (List ℕ)
  pub user_formatters_provider : List UserFormatter

-- `Metadata::new`.
unfoldable pub new :
    LogLevel → Text → Text → ℕ → Text → List ℕ → List (List ℕ) → List UserFormatter → Metadata
new level format_str file line module_path schemas tables formatters = record {
  level = level;
  format_str = format_str;
  file = file;
  line = line;
  module_path = module_path;
  schema_provider = schemas;
  string_tables_provider = tables;
  user_formatters_provider = formatters;
}
