-- ===== src/Rotating/Runs.antt =====
-- Three lines under a limit of eight bytes: the sink rotates before the second and the third one.
use rapidlog.Prelude.{ℕ, ◌≡◌, refl, List, [], ◌∷◌, ◌++◌, true, Text, ascii}
use rapidlog.Rotating.Defs.{RotationPolicy, size_based, RotatingState, Disk, Answers, write_all}
use rapidlog.Rotating.Kept.{kept, lines, Succeeds, IsFresh, kept-write_all}

abbrev at_time : ℕ → Answers
at_time t = record { now = t; rename_ok = true; open_ok = true; write_ok = true }

abbrev policy : RotationPolicy
policy = size_based 8

abbrev start : RotatingState × Disk
start = (
  record { writer = true; bytes_written = 0; next_rotation_at = 9; rotation_index = 0 },
  record { current = []; rotated = λ i. [] },
)

abbrev messages : List (Answers × Text)
messages =
    (at_time 1, ascii "first") ∷ (at_time 2, ascii "second") ∷ (at_time 3, ascii "third line") ∷ []

at_time-Succeeds : (t : ℕ) → Succeeds (at_time t)
at_time-Succeeds t = record { renames = refl; opens = refl; writes = refl }

start-IsFresh : IsFresh start
start-IsFresh = record { writing = refl; counted = refl; free = λ i lt. refl }

rotations : (write_all policy messages start).0.rotation_index ≡ 2
unfolding write_all
rotations = refl

kept-write_all_example :
    (kept (write_all policy messages start) ≡ kept start ++ lines messages)
    × IsFresh (write_all policy messages start)
kept-write_all_example =
    kept-write_all policy messages start
      (at_time-Succeeds 1, (at_time-Succeeds 2, (at_time-Succeeds 3, tt))) start-IsFresh
