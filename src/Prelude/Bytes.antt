-- ===== src/Prelude/Bytes.antt =====
-- Machine integers as bytes. The model is of a little-endian target, where `to_ne_bytes` and
-- `from_ne_bytes` are the little-endian ones.
use Prim.Native.Nat.{ℕ, zero, suc, ◌+◌, ◌*◌, ◌/◌, ◌%◌, ◌^◌, ◌≤◌, ◌<◌}
use mathlib.Core.Path.{◌≡◌, refl, ap}
use mathlib.Core.List.{List, [], ◌∷◌}
use native.Mathlib.Omega.{arith}
use native.Mathlib.Nat.{pow-suc}
use rapidlog.Prelude.Lists.{length, take}

-- The `n` lowest bytes of `v`, the lowest first.
abbrev pub le_bytes : ℕ → ℕ → List ℕ
le_bytes zero v = []
le_bytes (suc n) v = v % 256 ∷ le_bytes n (v / 256)

-- The number that some bytes stand for.
abbrev pub from_le : List ℕ → ℕ
from_le [] = 0
from_le (b ∷ bs) = b + 256 * from_le bs

pub length-le_bytes : (n v : ℕ) → length (le_bytes n v) ≡ n
length-le_bytes zero v = refl
length-le_bytes (suc n) v = ap suc (length-le_bytes n (v / 256))

pub from_le-le_bytes : (n v : ℕ) → v < 256 ^ n → from_le (le_bytes n v) ≡ v
from_le-le_bytes zero v h = omega arith
from_le-le_bytes (suc n) v h =
    let small : v < 256 ^ n * 256 = rw pow-suc at h in
    omega (arith, from_le-le_bytes n (v / 256) (omega arith))

pub take-le_bytes : (k n v : ℕ) → k ≤ n → take k (le_bytes n v) ≡ le_bytes k v
take-le_bytes zero n v h = refl
take-le_bytes (suc k) zero v h = absurd (omega arith)
take-le_bytes (suc k) (suc n) v h =
    ap (λ bs. v % 256 ∷ bs) (take-le_bytes k n (v / 256) (omega arith))
