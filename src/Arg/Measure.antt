-- ===== src/Arg/Measure.antt =====
-- src/arg/schema.rs, lines 15 to 80: the length of the schema at the front of some bytes.
use rapidlog.Prelude.{
  ℕ, zero, suc, ◌+◌, List, [], ◌∷◌, Run, ok, out_of_fuel, ◌>>=◌, slice_from, bit_and, ◌==◌,
  if◌then◌else◌, length,
}
use rapidlog.Arg.Opcode.{
  Category, seq, tuple, struct, enum, user_defined, category, size_mask, u16_at,
}

-- The loops over the parts of a compound: `skip` bytes before each part, then the part's schema.
-- The result is the position behind the last one.
unfoldable pub measure_each : (List ℕ → Run ℕ) → ℕ → ℕ → List ℕ → ℕ → Run ℕ
measure_each measure skip zero s pos = ok pos
measure_each measure skip (suc n) s pos = do
  rest ← slice_from s (pos + skip)
  len ← measure rest
  measure_each measure skip n s (pos + skip + len)

-- The number of a compound's parts, `u16` behind the opcode if `k` is 0, and the position behind it.
unfoldable pub part_count : ℕ → List ℕ → Run (ℕ × ℕ)
part_count k s = if k == 0 then (do n ← u16_at s 1; ok (n, 3)) else ok (k, 1)

-- The arms of the match, for an opcode with the low bits `k` at the front of `s`.
unfoldable pub measure_arm : (List ℕ → Run ℕ) → Category → ℕ → List ℕ → Run ℕ
unfolding measure_each part_count
measure_arm measure user_defined k s = ok 2
measure_arm measure seq k s = do rest ← slice_from s 1; len ← measure rest; ok (1 + len)
measure_arm measure tuple k s = do (n, pos) ← part_count k s; measure_each measure 0 n s pos
measure_arm measure struct k s = do (n, pos) ← part_count k s; measure_each measure 2 n s (pos + 1)
measure_arm measure enum k s = do (n, pos) ← part_count k s; measure_each measure 2 n s (pos + 2)
measure_arm measure _ k s = ok 1

-- Fuel bounds the nesting. Each nested schema starts behind an opcode, so the length suffices.
unfoldable pub measure_with : ℕ → List ℕ → Run ℕ
unfolding measure_arm
measure_with zero s = out_of_fuel
measure_with (suc fuel) [] = ok 0
measure_with (suc fuel) (op ∷ s) =
    measure_arm (measure_with fuel) (category op) (bit_and op size_mask) (op ∷ s)

-- `measure_schema`.
unfoldable pub measure_schema : List ℕ → Run ℕ
unfolding measure_with
measure_schema s = measure_with (length s + 1) s
