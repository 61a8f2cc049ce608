-- ===== src/Sinks/Contents.antt =====
-- What the files of the sinks hold behind the worker's lines.
use rapidlog.Prelude.{
  ℕ, ◌≡◌, refl, ap, ◌∙◌, sym, List, [], ◌∷◌, ◌++◌, append_assoc, append-nil, true, ◌==◌,
  if◌then◌else◌, take, drop, take-append-drop, Bool-cases, inl, inr, All, Text, ascii,
}
use rapidlog.Backend.Defs.{Write}
use rapidlog.Sinks.Defs.{
  FileMode, append, truncate, FileSink, new, Answer, write, flush, Sink, null, file, sink_write,
  sink_flush, deliver,
}

-- All that a file sink was given: on the disk, and behind it in the buffer.
unfoldable pub contents : Sink → Text
contents null = []
contents (file s) = s.on_disk ++ s.buffered

-- What a mode leaves of what a file held before.
unfoldable pub kept_from : FileMode → Text → Text
kept_from append existing = existing
kept_from truncate existing = []

-- The lines for a sink, in their order, each with its end.
unfoldable pub lines_for : ℕ → List (Answer × Write) → Text
lines_for k [] = []
lines_for k ((io, (id, line)) ∷ writes) =
    if id == k then line ++ (ascii "\n" ++ lines_for k writes) else lines_for k writes

contents-write :
    (io : Answer) (line : Text) (s : FileSink)
    → io.write_ok ≡ true
    → contents (file (write io line s)) ≡ contents (file s) ++ (line ++ ascii "\n")
unfolding contents write
contents-write io line s e =
    let waiting = s.buffered ++ (line ++ ascii "\n") in
    rw e (
      append_assoc s.on_disk (take io.handed_on waiting) (drop io.handed_on waiting)
      ∙ ap (λ x. s.on_disk ++ x) (take-append-drop io.handed_on waiting)
      ∙ sym (append_assoc s.on_disk s.buffered (line ++ ascii "\n")))

deliver_file :
    (writes : List (Answer × Write)) (sinks : ℕ → Sink) (k : ℕ) (s : FileSink)
    → sinks k ≡ file s
    → All (λ (w : Answer × Write). w.0.write_ok ≡ true) writes
    → (t : FileSink) × (deliver writes sinks k ≡ file t)
      × (contents (file t) ≡ contents (file s) ++ lines_for k writes)
unfolding deliver sink_write lines_for
deliver_file [] sinks k s e ok = (s, e, sym (append-nil (contents (file s))))
deliver_file ((io, (id, line)) ∷ writes) sinks k s e (o, ok) =
    let sinks' : ℕ → Sink = λ j. if id == j then sink_write io line (sinks j) else sinks j in
    elim (Bool-cases (id == k)) [
      | inl h ↦
          let here : sinks' k ≡ file (write io line s) = rw (h, e) refl in
          let (t, done, c) = deliver_file writes sinks' k (write io line s) here ok in
          (t, done, c ∙ rw (h, contents-write io line s o) (simp append_assoc))
      | inr h ↦
          let here : sinks' k ≡ file s = rw (h, e) refl in
          let (t, done, c) = deliver_file writes sinks' k s here ok in (t, done, c ∙ rw h refl)
    ]

-- A file sink that is opened, given any lines of the worker among those for other sinks, where each write
-- succeeds, and then flushed: its file holds what it held before, if it was opened for appending, or
-- nothing of that, if it was opened for truncating, and behind that exactly the sink's own lines, whole and in the order in which the worker gave them,
-- however the buffer was handed on meanwhile.
pub flush-deliver :
    (mode : FileMode) (existing : Text) (writes : List (Answer × Write)) (sinks : ℕ → Sink) (k : ℕ)
    → sinks k ≡ file (new mode existing)
    → All (λ (w : Answer × Write). w.0.write_ok ≡ true) writes
    → sink_flush (deliver writes sinks k)
      ≡ file (record { on_disk = kept_from mode existing ++ lines_for k writes; buffered = [] })
unfolding sink_flush flush contents new kept_from
flush-deliver mode existing writes sinks k e ok =
    let s = new mode existing in
    let (t, done, c) = deliver_file writes sinks k s e ok in
    rw done (
      ap (λ x. file (record { on_disk = x; buffered = [] }))
        (c ∙ ap (λ x. x ++ lines_for k writes) (start mode existing)))
  where
    start : (m : FileMode) (x : Text) → (new m x).on_disk ++ (new m x).buffered ≡ kept_from m x
    start append x = append-nil x
    start truncate x = refl
