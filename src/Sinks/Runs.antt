-- ===== src/Sinks/Runs.antt =====
-- Two sinks, of which one is a file that is appended to.
use rapidlog.Prelude.{ℕ, zero, suc, ◌≡◌, refl, List, [], ◌∷◌, ◌++◌, true, ascii}
use rapidlog.Backend.Defs.{Write}
use rapidlog.Sinks.Defs.{append, new, Answer, Sink, null, file, sink_flush, deliver}
use rapidlog.Sinks.Contents.{kept_from, lines_for, flush-deliver}

abbrev sinks : ℕ → Sink
unfolding new
sinks zero = file (new append (ascii "old\n"))
sinks (suc k) = null

abbrev writes : List (Answer × Write)
writes =
    (record { handed_on = 2; write_ok = true }, (0, ascii "one"))
    ∷ (record { handed_on = 0; write_ok = true }, (1, ascii "lost"))
    ∷ (record { handed_on = 100; write_ok = true }, (0, ascii "two"))
    ∷ []

flush-deliver_example :
    sink_flush (deliver writes sinks 0)
    ≡ file (record { on_disk = ascii "old\n" ++ lines_for 0 writes; buffered = [] })
unfolding sinks new kept_from
flush-deliver_example =
    flush-deliver append (ascii "old\n") writes sinks 0 refl (refl, (refl, (refl, tt)))
