-- ===== src/Encode/Compound.antt =====
-- src/arg/compound.rs: tuples, arrays, `Option` and `Result`.
use rapidlog.Prelude.{
  ℕ, suc, ◌+◌, ◌*◌, ◌%◌, ◌^◌, List, [], ◌∷◌, ◌++◌, Option, none, some, Run, ok, ◌>>=◌, write_at,
  le_bytes, bit_or, ascii, if◌then◌else◌, ◌==◌, ◌⊎◌, inl, inr,
}
use rapidlog.Arg.Opcode.{op_unit, op_seq, op_tuple, op_enum}
use rapidlog.Encode.Defs.{Encode, no_table, encode_at, encode_items}

-- The components of a tuple type: what the repetitions of `impl_tuple_encode_one!` make of them.
pub record Components (T : Type 0) : Type 0 where
  pub count : ℕ
  pub schemas : List ℕ
  pub encode_from : T → List ℕ → ℕ → Run (ℕ × List ℕ)
  pub size : T → ℕ

-- One component, and one before others.
abbrev pub last : {A : Type 0} → Encode A → Components A
last e = record { count = 1; schemas = e.schema; encode_from = encode_at e; size = e.encoded_size }

abbrev pub before_encode_from :
    {A B : Type 0} → Encode A → Components B → A × B → List ℕ → ℕ → Run (ℕ × List ℕ)
before_encode_from e c (a, b) buf pos = do
  (pos', buf') ← encode_at e a buf pos
  c.encode_from b buf' pos'

abbrev pub before : {A B : Type 0} → Encode A → Components B → Components (A × B)
before e c = record {
  count = suc c.count;
  schemas = e.schema ++ c.schemas;
  encode_from = before_encode_from e c;
  size = λ v. e.encoded_size v.0 + c.size v.1;
}

-- `impl Encode for (T0, ..)`.
abbrev pub tuple : {T : Type 0} → Components T → Encode T
tuple c = record {
  schema = bit_or op_tuple c.count ∷ c.schemas;
  encode_to = λ v buf. c.encode_from v buf 0;
  encoded_size = c.size;
  string_table = no_table;
}

-- The size of the first element, on which an array's `encoded_size` rests.
abbrev pub first_size : {T : Type 0} → Encode T → List T → ℕ
first_size e [] = 0
first_size e (v ∷ vs) = e.encoded_size v

-- `impl Encode for [T; n]`: a value is a list of `n` elements.
abbrev pub array_encode_to : {T : Type 0} → ℕ → Encode T → List T → List ℕ → Run (ℕ × List ℕ)
array_encode_to n e vs buf = do
  buf' ← write_at buf 0 (le_bytes 2 (n % 2 ^ 16))
  encode_items e vs buf' 2

abbrev pub array : {T : Type 0} → ℕ → Encode T → Encode (List T)
array n e = record {
  schema = bit_or op_seq 2 ∷ e.schema;
  encode_to = array_encode_to n e;
  encoded_size = λ vs. if n == 0 then 2 else 2 + n * first_size e vs;
  string_table = no_table;
}

-- A variant: its number in one byte, and its payload behind it.
abbrev pub variant_encode_to : {T : Type 0} → Encode T → ℕ → T → List ℕ → Run (ℕ × List ℕ)
variant_encode_to e number v buf = do buf' ← write_at buf 0 (number ∷ []); encode_at e v buf' 1

-- `impl Encode for Option<T>`.
abbrev pub option_encode_to : {T : Type 0} → Encode T → Option T → List ℕ → Run (ℕ × List ℕ)
option_encode_to e none buf = do buf' ← write_at buf 0 (0 ∷ []); ok (1, buf')
option_encode_to e (some v) buf = variant_encode_to e 1 v buf

abbrev pub option_size : {T : Type 0} → Encode T → Option T → ℕ
option_size e none = 1
option_size e (some v) = 1 + e.encoded_size v

-- `None\0Some\0`.
abbrev pub option_table : List ℕ
option_table = ascii "None" ++ (0 ∷ (ascii "Some" ++ (0 ∷ [])))

abbrev pub option : {T : Type 0} → Encode T → Encode (Option T)
option e = record {
  schema = (bit_or op_enum 2 ∷ 1 ∷ 0 ∷ 0 ∷ 0 ∷ op_unit ∷ 5 ∷ 0 ∷ []) ++ e.schema;
  encode_to = option_encode_to e;
  encoded_size = option_size e;
  string_table = λ v. option_table;
}

-- `impl Encode for Result<T, E>`: `inl` is `Ok`.
abbrev pub result_encode_to :
    {T E : Type 0} → Encode T → Encode E → T ⊎ E → List ℕ → Run (ℕ × List ℕ)
result_encode_to t e (inl v) buf = variant_encode_to t 0 v buf
result_encode_to t e (inr v) buf = variant_encode_to e 1 v buf

abbrev pub result_size : {T E : Type 0} → Encode T → Encode E → T ⊎ E → ℕ
result_size t e (inl v) = 1 + t.encoded_size v
result_size t e (inr v) = 1 + e.encoded_size v

-- `Ok\0Err\0`.
abbrev pub result_table : List ℕ
result_table = ascii "Ok" ++ (0 ∷ (ascii "Err" ++ (0 ∷ [])))

abbrev pub result : {T E : Type 0} → Encode T → Encode E → Encode (T ⊎ E)
result t e = record {
  schema = (bit_or op_enum 2 ∷ 1 ∷ 0 ∷ 0 ∷ 0 ∷ []) ++ (t.schema ++ (3 ∷ 0 ∷ e.schema));
  encode_to = result_encode_to t e;
  encoded_size = result_size t e;
  string_table = λ v. result_table;
}
