-- ===== src/Arg/Opcode.antt =====
-- src/arg/mod.rs: the opcodes of the schema bytecode, and the readers of fixed-size numbers.
use rapidlog.Prelude.{
  ℕ, zero, suc, ◌+◌, ◌*◌, List, [], ◌∷◌, Run, ok, ◌>>=◌, index, slice, from_le, signed_of, ℤ, pos,
  bit_and, bit_or, ◌==◌, if◌then◌else◌,
}

abbrev pub op_unit : ℕ
op_unit = 0x00

abbrev pub op_signed_int_base : ℕ
op_signed_int_base = 0x10

abbrev pub op_unsigned_int_base : ℕ
op_unsigned_int_base = 0x20

abbrev pub op_float_base : ℕ
op_float_base = 0x30

abbrev pub op_str_base : ℕ
op_str_base = 0x40

abbrev pub op_char : ℕ
op_char = 0x50

abbrev pub op_bool : ℕ
op_bool = 0x60

abbrev pub op_seq : ℕ
op_seq = 0x80

abbrev pub op_tuple : ℕ
op_tuple = 0x90

abbrev pub op_struct : ℕ
op_struct = 0xa0

abbrev pub op_enum : ℕ
op_enum = 0xb0

abbrev pub op_user_defined : ℕ
op_user_defined = 0xf0

abbrev pub cat_mask : ℕ
cat_mask = 0xf0

abbrev pub size_mask : ℕ
size_mask = 0x0f

-- `op_signed_int(k)`, and the like for the other primitives.
abbrev pub op_signed_int : ℕ → ℕ
op_signed_int k = bit_or op_signed_int_base (bit_and k size_mask)

abbrev pub op_unsigned_int : ℕ → ℕ
op_unsigned_int k = bit_or op_unsigned_int_base (bit_and k size_mask)

abbrev pub op_float : ℕ → ℕ
op_float k = bit_or op_float_base (bit_and k size_mask)

abbrev pub op_str : ℕ → ℕ
op_str k = bit_or op_str_base (bit_and k size_mask)

-- The arms of the matches on `op & CAT_MASK`. `unknown` is the last arm, `_`.
pub data Category : Type 0 where
  unit signed_int unsigned_int float str char bool seq tuple struct enum user_defined unknown :
      Category

unfoldable pub category : ℕ → Category
category op =
    let cat = bit_and op cat_mask in
    if cat == op_unit
    then unit
    else if cat == op_signed_int_base
    then signed_int
    else if cat == op_unsigned_int_base
    then unsigned_int
    else if cat == op_float_base
    then float
    else if cat == op_str_base
    then str
    else if cat == op_char
    then char
    else if cat == op_bool
    then bool
    else if cat == op_seq
    then seq
    else if cat == op_tuple
    then tuple
    else if cat == op_struct
    then struct
    else if cat == op_enum
    then enum
    else if cat == op_user_defined
    then user_defined
    else unknown

-- `size_for_k`: the bytes of a number of size class `k`.
unfoldable pub size_for_k : ℕ → ℕ
size_for_k (suc zero) = 1
size_for_k (suc (suc zero)) = 2
size_for_k (suc (suc (suc zero))) = 4
size_for_k (suc (suc (suc (suc zero)))) = 8
size_for_k (suc (suc (suc (suc (suc zero))))) = 16
size_for_k _ = 0

-- The first `n` bytes of `buf`, each by an index that panics behind the end.
abbrev first_bytes : ℕ → List ℕ → Run (List ℕ)
first_bytes n buf = slice buf 0 n

-- The first byte, and 0 if there is none.
abbrev first_or_zero : List ℕ → ℕ
first_or_zero [] = 0
first_or_zero (b ∷ bs) = b

-- `read_unsigned_ne`. A number of 16 bytes reads as 0, by the last arm.
unfoldable pub read_unsigned_ne : List ℕ → ℕ → Run ℕ
unfolding size_for_k
read_unsigned_ne buf (suc zero) = ok (first_or_zero buf)
read_unsigned_ne buf (suc (suc zero)) = do bs ← first_bytes 2 buf; ok (from_le bs)
read_unsigned_ne buf (suc (suc (suc zero))) = do bs ← first_bytes 4 buf; ok (from_le bs)
read_unsigned_ne buf (suc (suc (suc (suc zero)))) = do bs ← first_bytes 8 buf; ok (from_le bs)
read_unsigned_ne buf _ = ok 0

-- `read_signed_ne`.
unfoldable pub read_signed_ne : List ℕ → ℕ → Run ℤ
unfolding size_for_k
read_signed_ne buf (suc zero) = ok (signed_of 7 (first_or_zero buf))
read_signed_ne buf (suc (suc zero)) = do bs ← first_bytes 2 buf; ok (signed_of 15 (from_le bs))
read_signed_ne buf (suc (suc (suc zero))) = do
  bs ← first_bytes 4 buf
  ok (signed_of 31 (from_le bs))
read_signed_ne buf (suc (suc (suc (suc zero)))) = do
  bs ← first_bytes 8 buf
  ok (signed_of 63 (from_le bs))
read_signed_ne buf _ = ok (pos 0)

-- `u16::from_ne_bytes([s[i], s[i + 1]])`.
abbrev pub u16_at : List ℕ → ℕ → Run ℕ
u16_at s i = do lo ← index s i; hi ← index s (i + 1); ok (lo + 256 * hi)
