-- ===== src/Arg/Commas.antt =====
-- What stands between the parts of a text, told apart from the code of src/arg/schema.rs.
use rapidlog.Prelude.{ℕ, zero, suc, ◌≡◌, refl, [], Text, ascii}
use rapidlog.Arg.Format.{separator}

-- Nothing before the first part, and a comma and a space before each other one.
abbrev pub comma : ℕ → Text
comma zero = []
comma (suc i) = ascii ", "

pub separator-comma : (i : ℕ) → separator i ≡ comma i
separator-comma zero = refl
separator-comma (suc i) = refl
