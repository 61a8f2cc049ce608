-- ===== src/Rotating/Kept.antt =====
-- What the files hold after any sequence of lines, where no call of the system fails.
use rapidlog.Prelude.{
  ℕ, zero, suc, ◌+◌, ◌<◌, ◌≡◌, refl, subst, ap, ap₂, ◌∙◌, sym, List, [], ◌∷◌, ◌++◌, append_assoc,
  append-nil, true, Bool-cases, inl, inr, length, length-append, Text, ascii, arith, All,
}
use rapidlog.Threads.Defs.{update}
use rapidlog.Threads.Held.{update_self, update_ne}
use rapidlog.Rotating.Defs.{
  RotationPolicy, RotatingState, Disk, Answers, line_bytes, rotate_inner, reopen, would_exceed,
  append_line, write, write_all,
}

-- The rotated files up to an index, the oldest first.
unfoldable pub archive : (ℕ → Text) → ℕ → Text
archive rotated zero = []
archive rotated (suc n) = archive rotated n ++ rotated (suc n)

-- What is in the rotated files up to the sink's index and in the current one, in the order it was
-- written. Where there is no rotated file behind the index, this is all that is on the disk.
unfoldable pub kept : RotatingState × Disk → Text
unfolding archive
kept (s, disk) = archive disk.rotated s.rotation_index ++ disk.current

-- The lines, each with its end.
unfoldable pub lines : List (Answers × Text) → Text
lines [] = []
lines ((io, formatted) ∷ rest) = (formatted ++ ascii "\n") ++ lines rest

-- No call fails.
pub record Succeeds (io : Answers) : Type 0 where
  pub renames : io.rename_ok ≡ true
  pub opens : io.open_ok ≡ true
  pub writes : io.write_ok ≡ true

-- The writer is there, its count is the length of the file, and no file has a name that a later
-- rotation takes.
pub record IsFresh (st : RotatingState × Disk) : Type 0 where
  pub writing : st.0.writer ≡ true
  pub counted : st.0.bytes_written ≡ length st.1.current
  pub free : (i : ℕ) → st.0.rotation_index < i → st.1.rotated i ≡ []

archive-update :
    (rotated : ℕ → Text) (n i : ℕ) (t : Text)
    → n < i
    → archive (update rotated i t) n ≡ archive rotated n
unfolding archive
archive-update rotated zero i t h = refl
archive-update rotated (suc n) i t h =
    ap₂ ◌++◌ (archive-update rotated n i t (omega arith))
      (update_ne rotated i (suc n) t (λ e. omega arith))

archive_next :
    (rotated : ℕ → Text) (n : ℕ) → archive rotated (n + 1) ≡ archive rotated n ++ rotated (n + 1)
unfolding archive
archive_next rotated n =
    let e : suc n ≡ n + 1 = omega arith in
    subst (λ k. archive rotated k ≡ archive rotated n ++ rotated k) e refl

kept-rotate_inner :
    (policy : RotationPolicy) (io : Answers) (st : RotatingState × Disk)
    → Succeeds io
    → IsFresh st
    → (kept (rotate_inner policy io st) ≡ kept st) × IsFresh (rotate_inner policy io st)
unfolding rotate_inner reopen kept archive
kept-rotate_inner policy io (s, disk) ok c =
    let i = s.rotation_index in
    rw (ok.renames, rotate_inner, ok.opens, reopen)
      (
        append-nil (archive (update disk.rotated (i + 1) disk.current) (i + 1))
            ∙ archive_next (update disk.rotated (i + 1) disk.current) i
            ∙ ap₂ ◌++◌ (archive-update disk.rotated i (i + 1) disk.current (omega arith))
                (update_self disk.rotated (i + 1) disk.current),
        record {
          writing = refl;
          counted = refl;
          free = λ j lt.
              update_ne disk.rotated (i + 1) j disk.current (λ e. omega arith)
              ∙ c.free j (omega arith);
        },
      )

kept-append_line :
    (io : Answers) (formatted : Text) (st : RotatingState × Disk)
    → Succeeds io
    → IsFresh st
    → (kept (append_line io formatted st) ≡ kept st ++ line_bytes formatted)
      × IsFresh (append_line io formatted st)
unfolding append_line kept
kept-append_line io formatted (s, disk) ok c =
    rw (c.writing, append_line, ok.writes)
      (
        sym (
            append_assoc (archive disk.rotated s.rotation_index) disk.current
              (line_bytes formatted)),
        record {
          writing = refl;
          counted = omega (
            arith,
            c.counted,
            length-append disk.current (line_bytes formatted),
            length-append formatted (ascii "\n"),
          );
          free = c.free;
        },
      )

kept-write :
    (policy : RotationPolicy) (io : Answers) (formatted : Text) (st : RotatingState × Disk)
    → Succeeds io
    → IsFresh st
    → (kept (write policy io formatted st) ≡ kept st ++ line_bytes formatted)
      × IsFresh (write policy io formatted st)
unfolding write
kept-write policy io formatted (s, disk) ok c =
    elim (Bool-cases (would_exceed policy io.now (length formatted + 1) s)) [
      | inl e ↦
          let r = kept-rotate_inner policy io (s, disk) ok c in
          let a = kept-append_line io formatted (rotate_inner policy io (s, disk)) ok r.1 in
          rw (e, write) (a.0 ∙ ap (λ t. t ++ line_bytes formatted) r.0, a.1)
      | inr e ↦ rw (e, write) (kept-append_line io formatted (s, disk) ok c)
    ]

-- Where no call of the system fails, the sink has its writer, its count of bytes is the length of the
-- current file, and there is no file, of an earlier run say, under a name that it has yet to rotate to:
-- no line is lost, doubled or moved, whatever the policy is and however often the sink rotates. The
-- rotated files, from the first on, and then the current one hold what they held before and then the
-- lines, each with its end; and the three conditions on the sink and the disk hold again.
pub kept-write_all :
    (policy : RotationPolicy) (run : List (Answers × Text)) (st : RotatingState × Disk)
    → All (λ (x : Answers × Text). Succeeds x.0) run
    → IsFresh st
    → (kept (write_all policy run st) ≡ kept st ++ lines run) × IsFresh (write_all policy run st)
unfolding write_all lines
kept-write_all policy [] st ok c = (sym (append-nil (kept st)), c)
kept-write_all policy ((io, formatted) ∷ rest) st ok c =
    let w = kept-write policy io formatted st ok.0 c in
    let r = kept-write_all policy rest (write policy io formatted st) ok.1 w.1 in
    (
      r.0
          ∙ ap (λ t. t ++ lines rest) w.0
          ∙ append_assoc (kept st) (line_bytes formatted) (lines rest),
      r.1,
    )
