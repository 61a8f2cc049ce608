-- ===== src/Logger/Defs.antt =====
-- src/logger.rs. The loggers live in a store and are numbered in the order of their creation: a number
-- is an `Arc<Logger>`. A sink is a number too.
use rapidlog.Prelude.{
  ℕ, ◌+◌, List, [], ◌∷◌, ◌++◌, Bool, true, false, ◌&&◌, ◌==◌, Option, none, some, Text,
  if◌then◌else◌,
}
use rapidlog.Level.{LogLevel, info, as_usize, from_usize}
use rapidlog.Logger.Filter.{Filter}
use rapidlog.Threads.Defs.{update}

-- `struct Logger`.
pub record Logger : Type 0 where
  pub name : Text
  pub log_level : ℕ
  pub sinks : List ℕ
  pub filters : List Filter

-- The loggers, the number of the next one, and `LOGGER_REGISTRY`.
pub record Loggers : Type 0 where
  pub store : ℕ → Logger
  pub next : ℕ
  pub registry : List (Text × ℕ)

-- `==` of two strings.
unfoldable pub same_text : Text → Text → Bool
same_text [] [] = true
same_text [] (d ∷ ds) = false
same_text (c ∷ cs) [] = false
same_text (c ∷ cs) (d ∷ ds) = (c == d) && same_text cs ds

-- `HashMap::get`.
unfoldable pub lookup : Text → List (Text × ℕ) → Option ℕ
unfolding same_text
lookup name [] = none
lookup name ((key, id) ∷ entries) = if same_text key name then some id else lookup name entries

-- `Logger::new` of a name that is not registered.
unfoldable pub create : Text → List ℕ → Loggers → ℕ × Loggers
create name sinks w = (
  w.next,
  record w {
    store =
        update w.store w.next
          (record { name = name; log_level = as_usize info; sinks = sinks; filters = [] });
    next = w.next + 1;
    registry = (name, w.next) ∷ w.registry;
  },
)

-- `Logger::new`.
unfoldable pub new : Text → List ℕ → Loggers → ℕ × Loggers
unfolding lookup create
new name sinks w = elim (lookup name w.registry) [
  | some existing ↦ (existing, w)
  | none ↦ create name sinks w
]

-- `Logger::get`.
unfoldable pub get : Text → Loggers → Option ℕ
unfolding lookup
get name w = lookup name w.registry

-- A change of the logger that a number stands for.
unfoldable pub change : ℕ → (Logger → Logger) → Loggers → Loggers
change id f w = record w { store = update w.store id (f (w.store id)) }

-- `set_log_level`. A level's number fits the `u8`.
unfoldable pub set_log_level : ℕ → LogLevel → Loggers → Loggers
unfolding change as_usize
set_log_level id level w = change id (λ l. record l { log_level = as_usize level }) w

-- `log_level`.
unfoldable pub level_of : Logger → LogLevel
unfolding from_usize
level_of l = elim (from_usize l.log_level) [ none ↦ info | some level ↦ level ]

-- `add_filter`.
unfoldable pub add_filter : ℕ → Filter → Loggers → Loggers
unfolding change
add_filter id filter w = change id (λ l. record l { filters = l.filters ++ (filter ∷ []) }) w

-- `clear_filters`.
unfoldable pub clear_filters : ℕ → Loggers → Loggers
unfolding change
clear_filters id w = change id (λ l. record l { filters = [] }) w
