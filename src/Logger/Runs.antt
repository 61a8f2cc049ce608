-- ===== src/Logger/Runs.antt =====
-- Two loggers.
use rapidlog.Prelude.{ℕ, ◌≡◌, ◌≢◌, [], ◌∷◌, some, Text, ascii}
use rapidlog.Level.{error, debug}
use rapidlog.Logger.Defs.{Logger, Loggers, new, get, set_log_level, level_of}
use rapidlog.Logger.Registry.{Step, Steps, new-IsShared, level_of-set_log_level}

abbrev no_logger : ℕ → Logger
no_logger id = record { name = []; log_level = 4; sinks = []; filters = [] }

abbrev no_loggers : Loggers
no_loggers = record { store = no_logger; next = 0; registry = [] }

abbrev app : Text
app = ascii "app"

abbrev with_app : Loggers
with_app = (new app (1 ∷ []) no_loggers).1

abbrev later : Loggers
later = (new (ascii "net") (2 ∷ []) (set_log_level 0 error with_app)).1

abbrev calls : Steps with_app later
calls =
    Steps.step (Step.level_set 0 error)
      (Steps.step (Step.created (ascii "net") (2 ∷ [])) Steps.done)

new-IsShared_example :
    (get app later ≡ some (new app (1 ∷ []) no_loggers).0)
    × (new app (9 ∷ []) later ≡ ((new app (1 ∷ []) no_loggers).0, later))
    × ((later.store (new app (1 ∷ []) no_loggers).0).name ≡ app)
new-IsShared_example = new-IsShared app (1 ∷ []) (9 ∷ []) no_loggers later tt calls

level_of-set_log_level_example :
    (level_of ((set_log_level 0 debug with_app).store 0) ≡ debug)
    × ((k : ℕ) → 0 ≢ k → (set_log_level 0 debug with_app).store k ≡ with_app.store k)
level_of-set_log_level_example = level_of-set_log_level 0 debug with_app
