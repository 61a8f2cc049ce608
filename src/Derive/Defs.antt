-- ===== src/Derive/Defs.antt =====
-- rapidlog_derive/src/lib.rs: the schema, the string table and the `Encode` of a derived type. A
-- function of the macro that extends the string table while it makes the schema is two functions here.
use rapidlog.Prelude.{
  ℕ, ◌+◌, ◌/◌, ◌%◌, ◌^◌, List, [], ◌∷◌, ◌++◌, Run, ◌>>=◌, write_at, leb, length, if◌then◌else◌,
  le_bytes, bit_or, Text, ◌⊎◌, inl, inr,
}
use rapidlog.Arg.Opcode.{op_unit, op_tuple, op_struct, op_enum}
use rapidlog.Encode.Defs.{Encode}
use rapidlog.Macros.Defs.{Argument, payloads_size, encode_args}

-- A field of a type `S`: its name, its type with its `Encode`, and the access to it.
pub record Field (S : Type 0) : Type 1 where
  pub name : Text
  pub T : Type 0
  pub encoder : Encode T
  pub get : S → T

-- The fields' values, with their encoders.
abbrev pub values : {S : Type 0} → List (Field S) → S → List Argument
values [] v = []
values (f ∷ fs) v = record { T = f.T; encoder = f.encoder; value = f.get v } ∷ values fs v

-- The opcode, with the count in its low bits or in two bytes behind it.
unfoldable pub count_head : ℕ → ℕ → List ℕ
count_head base n =
    if leb n 15 then bit_or base (n % 2 ^ 8) ∷ [] else base ∷ n % 256 ∷ n / 256 % 256 ∷ []

-- The string table behind a name, which a NUL ends.
abbrev pub with_name : List ℕ → Text → List ℕ
with_name table name = table ++ (name ++ (0 ∷ []))

-- The offset of the next name, as a `u16`.
abbrev pub next_offset : List ℕ → ℕ
next_offset table = length table % 2 ^ 16

-- The loop of `struct_schema_named`, from a string table on: the fields' bytes, and the table.
unfoldable pub named_schema : {S : Type 0} → List (Field S) → List ℕ → List ℕ
named_schema [] table = []
named_schema (f ∷ fs) table =
    le_bytes 2 (next_offset table) ++ (f.encoder.schema ++ named_schema fs (with_name table f.name))

unfoldable pub named_table : {S : Type 0} → List (Field S) → List ℕ → List ℕ
named_table [] table = table
named_table (f ∷ fs) table = named_table fs (with_name table f.name)

-- `struct_schema_named`; its names are in the table numbered 0.
unfoldable pub struct_schema_named : {S : Type 0} → List (Field S) → List ℕ → List ℕ
unfolding count_head named_schema
struct_schema_named fs table = count_head op_struct (length fs) ++ (0 ∷ named_schema fs table)

unfoldable pub unnamed_schema : {S : Type 0} → List (Field S) → List ℕ
unnamed_schema [] = []
unnamed_schema (f ∷ fs) = f.encoder.schema ++ unnamed_schema fs

-- `struct_schema_unnamed`.
unfoldable pub struct_schema_unnamed : {S : Type 0} → List (Field S) → List ℕ
unfolding count_head unnamed_schema
struct_schema_unnamed fs = count_head op_tuple (length fs) ++ unnamed_schema fs

-- `derive_encode` for a struct with named fields.
unfoldable pub derive_struct : {S : Type 0} → List (Field S) → Encode S
unfolding struct_schema_named named_table payloads_size encode_args
derive_struct fs = record {
  schema = struct_schema_named fs [];
  encode_to = λ v buf. encode_args (values fs v) buf 0;
  encoded_size = λ v. payloads_size (values fs v);
  string_table = λ v. named_table fs [];
}

-- `syn::Fields` of a variant.
pub data Fields (P : Type 0) : Type 1 where
  unit : Fields P
  unnamed : List (Field P) → Fields P
  named : List (Field P) → Fields P

-- A variant, with the type of what it holds.
pub record Variant : Type 1 where
  pub name : Text
  pub P : Type 0
  pub fields : Fields P

-- A value of the enum: of one of its variants.
abbrev pub Value : List Variant → Type 0
Value [] = ⊥
Value (v ∷ vs) = v.P ⊎ Value vs

-- `variant_sub_schema`.
unfoldable pub variant_sub_schema : {P : Type 0} → Fields P → List ℕ → List ℕ
unfolding struct_schema_unnamed struct_schema_named
variant_sub_schema unit table = op_unit ∷ []
variant_sub_schema {P = P} (unnamed []) table = struct_schema_unnamed {S = P} []
variant_sub_schema (unnamed (f ∷ [])) table = f.encoder.schema
variant_sub_schema (unnamed (f ∷ g ∷ fs)) table = struct_schema_unnamed (f ∷ g ∷ fs)
variant_sub_schema (named fs) table = struct_schema_named fs table

unfoldable pub variant_table : {P : Type 0} → Fields P → List ℕ → List ℕ
unfolding named_table
variant_table unit table = table
variant_table (unnamed fs) table = table
variant_table (named fs) table = named_table fs table

-- The loop of `enum_schema`: the variants' bytes, and the string table.
unfoldable pub variants_schema : List Variant → List ℕ → List ℕ
unfolding variant_sub_schema variant_table
variants_schema [] table = []
variants_schema (v ∷ vs) table =
    let table' = with_name table v.name in
    le_bytes 2 (next_offset table)
    ++ (variant_sub_schema v.fields table' ++ variants_schema vs (variant_table v.fields table'))

unfoldable pub variants_table : List Variant → List ℕ → List ℕ
unfolding variant_table
variants_table [] table = table
variants_table (v ∷ vs) table = variants_table vs (variant_table v.fields (with_name table v.name))

-- The bytes of a variant's number: one, or two for more than 255 variants.
abbrev pub number_size : ℕ → ℕ
number_size count = if leb count 255 then 1 else 2

-- `enum_schema`.
unfoldable pub enum_schema : List Variant → List ℕ
unfolding count_head variants_schema
enum_schema vs =
    count_head op_enum (length vs) ++ (number_size (length vs) ∷ 0 ∷ variants_schema vs [])

-- The values of a variant's fields.
abbrev pub fields_values : {P : Type 0} → Fields P → P → List Argument
fields_values unit p = []
fields_values (unnamed fs) p = values fs p
fields_values (named fs) p = values fs p

-- `enum_encode_body`, from the variant numbered `idx` on: the arm of the value's variant.
unfoldable pub enum_encode_to : ℕ → ℕ → (vs : List Variant) → Value vs → List ℕ → Run (ℕ × List ℕ)
unfolding encode_args
enum_encode_to size idx [] v buf = absurd v
enum_encode_to size idx (v ∷ vs) (inl p) buf = do
  buf' ← write_at buf 0 (le_bytes size idx)
  encode_args (fields_values v.fields p) buf' size
enum_encode_to size idx (v ∷ vs) (inr more) buf = enum_encode_to size (idx + 1) vs more buf

-- `enum_max_size_body`.
unfoldable pub enum_encoded_size : ℕ → (vs : List Variant) → Value vs → ℕ
unfolding payloads_size
enum_encoded_size size [] v = absurd v
enum_encoded_size size (v ∷ vs) (inl p) = size + payloads_size (fields_values v.fields p)
enum_encoded_size size (v ∷ vs) (inr more) = enum_encoded_size size vs more

-- `derive_encode` for an enum.
unfoldable pub derive_enum : (vs : List Variant) → Encode (Value vs)
unfolding enum_schema variants_table enum_encode_to enum_encoded_size
derive_enum vs = record {
  schema = enum_schema vs;
  encode_to = enum_encode_to (number_size (length vs)) 0 vs;
  encoded_size = enum_encoded_size (number_size (length vs)) vs;
  string_table = λ v. variants_table vs [];
}
