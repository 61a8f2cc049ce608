-- ===== src/Encode/Leaves.antt =====
-- The schemas of the types whose encoding has no parts.
use rapidlog.Prelude.{ℕ, zero, suc, ◌≤◌, refl, arith}
use rapidlog.Arg.Opcode.{
  category, op_unsigned_int, op_signed_int, op_float, op_str, op_bool, op_char, op_unit,
}
use rapidlog.Arg.Measure.{measure_arm}
use rapidlog.Arg.Delimited.{IsDelimited, leaf-IsDelimited}
use rapidlog.Encode.Primitives

pub unsigned_int-IsDelimited :
    (k : ℕ) → 1 ≤ k → k ≤ 4 → IsDelimited (Primitives.unsigned_int k).schema
unfolding measure_arm category
unsigned_int-IsDelimited zero lo hi = absurd (omega arith)
unsigned_int-IsDelimited (suc zero) lo hi =
    leaf-IsDelimited (op_unsigned_int 1) (λ measure k s. refl)
unsigned_int-IsDelimited (suc (suc zero)) lo hi =
    leaf-IsDelimited (op_unsigned_int 2) (λ measure k s. refl)
unsigned_int-IsDelimited (suc (suc (suc zero))) lo hi =
    leaf-IsDelimited (op_unsigned_int 3) (λ measure k s. refl)
unsigned_int-IsDelimited (suc (suc (suc (suc zero)))) lo hi =
    leaf-IsDelimited (op_unsigned_int 4) (λ measure k s. refl)
unsigned_int-IsDelimited (suc (suc (suc (suc (suc k))))) lo hi = absurd (omega arith)

pub signed_int-IsDelimited : (k : ℕ) → 1 ≤ k → k ≤ 4 → IsDelimited (Primitives.signed_int k).schema
unfolding measure_arm category
signed_int-IsDelimited zero lo hi = absurd (omega arith)
signed_int-IsDelimited (suc zero) lo hi = leaf-IsDelimited (op_signed_int 1) (λ measure k s. refl)
signed_int-IsDelimited (suc (suc zero)) lo hi =
    leaf-IsDelimited (op_signed_int 2) (λ measure k s. refl)
signed_int-IsDelimited (suc (suc (suc zero))) lo hi =
    leaf-IsDelimited (op_signed_int 3) (λ measure k s. refl)
signed_int-IsDelimited (suc (suc (suc (suc zero)))) lo hi =
    leaf-IsDelimited (op_signed_int 4) (λ measure k s. refl)
signed_int-IsDelimited (suc (suc (suc (suc (suc k))))) lo hi = absurd (omega arith)

pub bool-IsDelimited : IsDelimited Primitives.bool.schema
unfolding measure_arm category
bool-IsDelimited = leaf-IsDelimited op_bool (λ measure k s. refl)

pub char-IsDelimited : IsDelimited Primitives.char.schema
unfolding measure_arm category
char-IsDelimited = leaf-IsDelimited op_char (λ measure k s. refl)

pub unit-IsDelimited : IsDelimited Primitives.unit.schema
unfolding measure_arm category
unit-IsDelimited = leaf-IsDelimited op_unit (λ measure k s. refl)

-- `&str`, and every type that is shown by its `Display` or its `Debug`.
pub str-IsDelimited : IsDelimited Primitives.str.schema
unfolding measure_arm category
str-IsDelimited = leaf-IsDelimited (op_str 2) (λ measure k s. refl)

pub f32-IsDelimited : IsDelimited Primitives.f32.schema
unfolding measure_arm category
f32-IsDelimited = leaf-IsDelimited (op_float 3) (λ measure k s. refl)

pub f64-IsDelimited : IsDelimited Primitives.f64.schema
unfolding measure_arm category
f64-IsDelimited = leaf-IsDelimited (op_float 4) (λ measure k s. refl)
