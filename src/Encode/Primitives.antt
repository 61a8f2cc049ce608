-- ===== src/Encode/Primitives.antt =====
-- src/arg/primitives.rs and pointer.rs: numbers, characters and texts.
use rapidlog.Prelude.{
  ℕ, ◌+◌, ◌-◌, ◌^◌, List, [], ◌∷◌, Bool, Run, ok, ◌>>=◌, write_at, take, length, min, le_bytes, ℤ,
  pattern_of, Text, if◌then◌else◌,
}
use rapidlog.Arg.Opcode.{
  op_unit, op_char, op_bool, op_signed_int, op_unsigned_int, op_float, op_str, size_for_k,
}
use rapidlog.Encode.Defs.{Encode, no_table}

-- `impl_encode_signed_int!`: the value as an `i128`, and its first `size_for_k(k)` bytes.
abbrev pub signed_encode_to : ℕ → ℤ → List ℕ → Run (ℕ × List ℕ)
signed_encode_to k v buf = do
  buf' ← write_at buf 0 (take (size_for_k k) (le_bytes 16 (pattern_of 128 v)))
  ok (size_for_k k, buf')

abbrev pub signed_int : ℕ → Encode ℤ
signed_int k = record {
  schema = op_signed_int k ∷ [];
  encode_to = signed_encode_to k;
  encoded_size = λ v. size_for_k k;
  string_table = no_table;
}

-- `impl_encode_unsigned_int!`.
abbrev pub unsigned_encode_to : ℕ → ℕ → List ℕ → Run (ℕ × List ℕ)
unsigned_encode_to k v buf = do
  buf' ← write_at buf 0 (take (size_for_k k) (le_bytes 16 v))
  ok (size_for_k k, buf')

abbrev pub unsigned_int : ℕ → Encode ℕ
unsigned_int k = record {
  schema = op_unsigned_int k ∷ [];
  encode_to = unsigned_encode_to k;
  encoded_size = λ v. size_for_k k;
  string_table = no_table;
}

-- `impl Encode for usize`, on a target with 64-bit addresses.
abbrev pub usize : Encode ℕ
usize = record {
  schema = op_unsigned_int 4 ∷ [];
  encode_to = unsigned_encode_to 4;
  encoded_size = λ v. 8;
  string_table = no_table;
}

-- The bytes of a value of fixed size, written to the front.
abbrev pub fixed_encode_to : ℕ → ℕ → List ℕ → Run (ℕ × List ℕ)
fixed_encode_to size v buf = do buf' ← write_at buf 0 (le_bytes size v); ok (size, buf')

-- A float is the number of its IEEE 754 bits.
abbrev pub f32 : Encode ℕ
f32 = record {
  schema = op_float 3 ∷ [];
  encode_to = fixed_encode_to 4;
  encoded_size = λ v. 4;
  string_table = no_table;
}

abbrev pub f64 : Encode ℕ
f64 = record {
  schema = op_float 4 ∷ [];
  encode_to = fixed_encode_to 8;
  encoded_size = λ v. 8;
  string_table = no_table;
}

-- `impl Encode for bool`.
abbrev pub bool_encode_to : Bool → List ℕ → Run (ℕ × List ℕ)
bool_encode_to v buf = fixed_encode_to 1 (if v then 1 else 0) buf

abbrev pub bool : Encode Bool
bool = record {
  schema = op_bool ∷ [];
  encode_to = bool_encode_to;
  encoded_size = λ v. 1;
  string_table = no_table;
}

-- `impl Encode for char`: a character is its code.
abbrev pub char : Encode ℕ
char = record {
  schema = op_char ∷ [];
  encode_to = fixed_encode_to 4;
  encoded_size = λ v. 4;
  string_table = no_table;
}

-- `impl Encode for ()`.
abbrev pub unit : Encode (Unit {0})
unit = record {
  schema = op_unit ∷ [];
  encode_to = λ v buf. ok (0, buf);
  encoded_size = λ v. 0;
  string_table = no_table;
}

-- `impl Encode for &str`: at most `u16::MAX` bytes, behind their number.
abbrev pub str_encode_to : Text → List ℕ → Run (ℕ × List ℕ)
str_encode_to s buf =
    let len = min (length s) (2 ^ 16 - 1) in
    do
      buf₁ ← write_at buf 0 (le_bytes 2 len)
      buf₂ ← write_at buf₁ 2 (take len s)
      ok (2 + len, buf₂)

-- `impl Encode for &str` and for `String`.
abbrev pub str : Encode Text
str = record {
  schema = op_str 2 ∷ [];
  encode_to = str_encode_to;
  encoded_size = λ s. 2 + length s;
  string_table = no_table;
}

-- `DisplayArg`, `DebugArg`, `Box`, `Arc` and `Rc`: the text of the value by its `Display` or `Debug`.
abbrev pub displayed : {T : Type 0} → (T → Text) → Encode T
displayed display = record {
  schema = op_str 2 ∷ [];
  encode_to = λ v. str_encode_to (display v);
  encoded_size = λ v. 512;
  string_table = no_table;
}
