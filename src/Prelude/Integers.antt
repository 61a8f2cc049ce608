-- ===== src/Prelude/Integers.antt =====
-- Signed integers over the native numbers, under the library's names.
use Prim.Native.Nat.{ℕ, ◌+◌, ◌-◌, ◌^◌, ◌%◌}
use rapidlog.Prelude.Tests.{ltb, if◌then◌else◌}

-- `negsuc n` is -(n + 1).
pub data ℤ : Type 0 where
  pos : ℕ → ℤ
  negsuc : ℕ → ℤ

-- The bit pattern of `z` in `w` bits.
abbrev pub pattern_of : ℕ → ℤ → ℕ
pattern_of w (pos n) = n % 2 ^ w
pattern_of w (negsuc n) = 2 ^ w - 1 - n % 2 ^ w

-- The integer whose pattern in `w + 1` bits is `p`.
abbrev pub signed_of : ℕ → ℕ → ℤ
signed_of w p = if ltb p (2 ^ w) then pos p else negsuc (2 ^ (w + 1) - 1 - p)
