-- ===== src/Level/Runs.antt =====
-- A run of the levels.
use rapidlog.Prelude.{◌≡◌, ◌↔◌, some}
use rapidlog.Level.{error, as_usize, from_usize, from_usize-eq-some_iff}

from_usize-eq-some_iff_example : (from_usize 6 ≡ some error) ↔ (6 ≡ as_usize error)
from_usize-eq-some_iff_example = from_usize-eq-some_iff 6 error
