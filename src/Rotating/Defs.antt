-- ===== src/Rotating/Defs.antt =====
-- src/sinks/rotating.rs. The disk has the current file, and the rotated ones by their index; a file
-- that does not exist is empty. Whether each call of the system succeeds, and the time, are inputs. A
-- line counts as written once `writeln!` succeeds: what the writer buffers is not told apart from
-- what its file holds.
use rapidlog.Prelude.{
  ℕ, ◌+◌, ◌*◌, ◌/◌, List, [], ◌∷◌, ◌++◌, Bool, true, false, ltb, leb, if◌then◌else◌, length, Text,
  ascii,
}
use rapidlog.Threads.Defs.{update}

-- `enum TimeInterval`.
pub data TimeInterval : Type 0 where
  hourly daily : TimeInterval

-- `enum RotationPolicy`.
pub data RotationPolicy : Type 0 where
  size_based : ℕ → RotationPolicy
  time_based : TimeInterval → RotationPolicy

-- `struct RotatingState`; the writer is there or not. Times are seconds.
pub record RotatingState : Type 0 where
  pub writer : Bool
  pub bytes_written : ℕ
  pub next_rotation_at : ℕ
  pub rotation_index : ℕ

pub record Disk : Type 0 where
  pub current : Text
  pub rotated : ℕ → Text

-- What the system answers in one call of `write`.
pub record Answers : Type 0 where
  pub now : ℕ
  pub rename_ok : Bool
  pub open_ok : Bool
  pub write_ok : Bool

-- `compute_next_rotation`.
unfoldable pub compute_next_rotation : RotationPolicy → ℕ → ℕ
compute_next_rotation (size_based max_bytes) now = now + 86400 * 365 * 100
compute_next_rotation (time_based hourly) now = (now / 3600 + 1) * 3600
compute_next_rotation (time_based daily) now = (now / 86400 + 1) * 86400

-- `RotatingFileSink::new`, where the file can be opened.
unfoldable pub open_sink : RotationPolicy → ℕ → RotatingState
unfolding compute_next_rotation
open_sink policy now = record {
  writer = true;
  bytes_written = 0;
  next_rotation_at = compute_next_rotation policy now;
  rotation_index = 0;
}

-- The part of `rotate_inner` behind the rename.
unfoldable pub reopen : RotationPolicy → Answers → RotatingState → RotatingState
unfolding compute_next_rotation
reopen policy io s =
    if io.open_ok
    then record s {
      writer = true;
      bytes_written = 0;
      next_rotation_at = compute_next_rotation policy io.now;
    }
    else s

-- `rotate_inner`: the writer is closed first, and each failure leaves the rest undone.
unfoldable pub rotate_inner : RotationPolicy → Answers → RotatingState × Disk → RotatingState × Disk
unfolding reopen
rotate_inner policy io (s, disk) =
    let closed : RotatingState = record s {
      writer = false;
      rotation_index = s.rotation_index + 1;
    } in
    if io.rename_ok
    then (
      reopen policy io closed,
      record { current = []; rotated = update disk.rotated (s.rotation_index + 1) disk.current },
    )
    else (closed, disk)

-- The test at the front of `write`.
unfoldable pub would_exceed : RotationPolicy → ℕ → ℕ → RotatingState → Bool
would_exceed (size_based max_bytes) now add_bytes s = ltb max_bytes (s.bytes_written + add_bytes)
would_exceed (time_based interval) now add_bytes s = leb s.next_rotation_at now

-- A line with its end.
abbrev pub line_bytes : Text → Text
line_bytes formatted = formatted ++ ascii "\n"

-- `writeln!` on the writer, if there is one.
unfoldable pub append_line : Answers → Text → RotatingState × Disk → RotatingState × Disk
append_line io formatted (s, disk) =
    if s.writer
    then (if io.write_ok
        then (
          record s { bytes_written = s.bytes_written + (length formatted + 1) },
          record disk { current = disk.current ++ line_bytes formatted },
        )
        else (s, disk))
    else (s, disk)

-- `Sink::write` of the sink.
unfoldable pub write : RotationPolicy → Answers → Text → RotatingState × Disk → RotatingState × Disk
unfolding rotate_inner would_exceed append_line
write policy io formatted (s, disk) = append_line io formatted (
    if would_exceed policy io.now (length formatted + 1) s
    then rotate_inner policy io (s, disk)
    else (s, disk))

-- The lines of a run, each with the system's answers.
unfoldable pub write_all :
    RotationPolicy → List (Answers × Text) → RotatingState × Disk → RotatingState × Disk
unfolding write
write_all policy [] st = st
write_all policy ((io, formatted) ∷ rest) st = write_all policy rest (write policy io formatted st)
