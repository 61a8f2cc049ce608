-- ===== src/Derive/Enums.antt =====
-- Derived enums: what is written for a value, and what the backend makes of it.
use rapidlog.Prelude.{
  ℕ, ◌+◌, ◌^◌, ◌≤◌, ◌<◌, ◌≡◌, refl, ap, ap₂, ◌∙◌, sym, subst, List, [], ◌∷◌, ◌++◌, append_assoc, ok,
  length, length-append, length-le_bytes, All, arith, le_bytes, split, le_or_lt, le→leb,
  lt→leb_false, inl, inr,
}
use rapidlog.Arg.Opcode.{enum, size_for_k}
use rapidlog.Arg.Format.{Context}
use rapidlog.Arg.Heads.{IsHead}
use rapidlog.Arg.Delimited.{layout}
use rapidlog.Arg.Read.{IsRead, IsRead-as}
use rapidlog.Arg.Search.{variants, IsVariant}
use rapidlog.Arg.Variants.{enum-IsRead}
use rapidlog.Encode.Enums.{bare_nil}
use rapidlog.Encode.Shown.{IsShown, write_front}
use rapidlog.Macros.Arguments.{arg_bytes, arg_bytes-le, encode_args_lem}
use rapidlog.Derive.Defs.{
  Variant, Value, with_name, next_offset, number_size, variant_sub_schema, variant_table,
  fields_values, enum_schema, enum_encode_to, enum_encoded_size, derive_enum,
}
use rapidlog.Derive.Fields.{enum_head}
use rapidlog.Derive.Variants.{
  cells, layout-cells, length-cells, VariantsTexts, cells-AreVariants, IsShownValue,
  fields-AreLoggable, sub_schema-IsDelimited, sub_schema-IsRead, number_of, value_bytes, value_text,
}

number_of-lt : (idx : ℕ) (vs : List Variant) (v : Value vs) → number_of idx vs v < idx + length vs
unfolding number_of
number_of-lt idx [] v = absurd v
number_of-lt idx (x ∷ vs) (inl p) = omega arith
number_of-lt idx (x ∷ vs) (inr more) = omega (arith, number_of-lt (idx + 1) vs more)

-- The schema read from the variant that stands behind `before` on.
value-IsRead :
    (c : Context) (op k idx : ℕ) (tail : List ℕ) (before : List (ℕ × List ℕ)) (vs : List Variant)
    (ts : VariantsTexts vs) (table : List ℕ) (v : Value vs) (h : IsShownValue vs ts v)
    → length before ≡ idx
    → 1 ≤ k
    → k ≤ 4
    → number_of idx vs v < 256 ^ size_for_k k
    → All IsVariant (before ++ cells vs table)
    → IsHead enum (length (before ++ cells vs table)) op tail
    → IsRead c
        (op ∷ (tail ++ (k ∷ 0 ∷ layout (variants (before ++ cells vs table)))))
        (le_bytes (size_for_k k) (number_of idx vs v) ++ value_bytes vs ts v h)
        (value_text c vs ts table v)
unfolding number_of value_bytes value_text cells
value-IsRead c op k idx tail before [] ts table v h at lo hi few all head = absurd v
value-IsRead c op k idx tail before (x ∷ vs) (t, ts) table (inl p) h at lo hi few all head =
    let table' = with_name table x.name in
    let s = variant_sub_schema x.fields table' in
    let r = sub_schema-IsRead c x.fields t table' p h in
    enum-IsRead c op k 0 idx (next_offset table) tail s
      (arg_bytes (fields_values x.fields p) (fields-AreLoggable x.fields t p h)) _ before
      (cells vs (variant_table x.fields table')) head at lo hi few all r
      (bare_nil c s (arg_bytes (fields_values x.fields p) (fields-AreLoggable x.fields t p h)) _
        (sub_schema-IsDelimited x.fields table' t) r)
value-IsRead c op k idx tail before (x ∷ vs) (t, ts) table (inr more) h at lo hi few all head =
    let table' = with_name table x.name in
    let cell : ℕ × List ℕ = (next_offset table, variant_sub_schema x.fields table') in
    let rest = cells vs (variant_table x.fields table') in
    let e : (before ++ (cell ∷ [])) ++ rest ≡ before ++ (cell ∷ rest) =
      append_assoc before (cell ∷ []) rest in
    subst
      (λ all.
        IsRead c (op ∷ (tail ++ (k ∷ 0 ∷ layout (variants all))))
          (le_bytes (size_for_k k) (number_of (idx + 1) vs more) ++ value_bytes vs ts more h)
          (value_text c vs ts (variant_table x.fields table') more))
      e
      (value-IsRead c op k (idx + 1) tail (before ++ (cell ∷ [])) vs ts
        (variant_table x.fields table') more h (omega (arith, length-append before (cell ∷ []))) lo
        hi few (subst (λ xs. All IsVariant xs) (sym e) all)
        (subst (λ xs. IsHead enum (length xs) op tail) (sym e) head))

value_fits :
    (size idx : ℕ) (vs : List Variant) (ts : VariantsTexts vs) (v : Value vs)
    (h : IsShownValue vs ts v)
    → length (le_bytes size (number_of idx vs v) ++ value_bytes vs ts v h)
      ≤ enum_encoded_size size vs v
unfolding number_of value_bytes enum_encoded_size
value_fits size idx [] ts v h = absurd v
value_fits size idx (x ∷ vs) (t, ts) (inl p) h =
    let args = fields-AreLoggable x.fields t p h in
    let bytes = arg_bytes (fields_values x.fields p) args in
    omega (
      arith,
      length-append (le_bytes size idx) bytes,
      length-le_bytes size idx,
      arg_bytes-le (fields_values x.fields p) args,
    )
value_fits size idx (x ∷ vs) (t, ts) (inr more) h = value_fits size (idx + 1) vs ts more h

value_written :
    (size idx : ℕ) (vs : List Variant) (ts : VariantsTexts vs) (v : Value vs)
    (h : IsShownValue vs ts v) (old rest : List ℕ)
    → let bytes = le_bytes size (number_of idx vs v) ++ value_bytes vs ts v h in
      length old ≡ length bytes
      → enum_encode_to size idx vs v (old ++ rest) ≡ ok (length bytes, bytes ++ rest)
unfolding number_of value_bytes enum_encode_to
value_written size idx [] ts v h old rest e = absurd v
value_written size idx (x ∷ vs) (t, ts) (inl p) h old rest e =
    let args = fields-AreLoggable x.fields t p h in
    let bytes = arg_bytes (fields_values x.fields p) args in
    let number = le_bytes size idx in
    let wide = length-le_bytes size idx in
    let total = length-append number bytes in
    let o = split old size (omega arith) in
    let cut : old ++ rest ≡ o.front ++ (o.back ++ rest) =
      ap (λ y. y ++ rest) o.joined ∙ append_assoc o.front o.back rest in
    rw
      (
        cut,
        write_front number o.front (o.back ++ rest) (omega (arith, o.front_length)),
        encode_args_lem (fields_values x.fields p) args size number o.back rest (sym wide)
            (omega (arith, o.back_length)),
      )
      (ap₂ (λ n y. ok (n, y)) (omega arith) (sym (append_assoc number bytes rest)))
value_written size idx (x ∷ vs) (t, ts) (inr more) h old rest e =
    value_written size (idx + 1) vs ts more h old rest e

number_size-cases :
    (n : ℕ)
    → n < 65536
    → (1 ≤ number_size n)
      × (number_size n ≤ 4)
      × (size_for_k (number_size n) ≡ number_size n)
      × (n ≤ 256 ^ number_size n)
unfolding size_for_k
number_size-cases n few = elim (le_or_lt n 255) [
  | inl le ↦ rw (le→leb n 255 le) (omega arith, omega arith, refl, omega arith)
  | inr lt ↦ rw (lt→leb_false n 255 lt) (omega arith, omega arith, refl, omega arith)
]

-- A derived enum of fewer than 65536 variants, each of which is a unit variant or has at least one field
-- and fewer than 65536 of them (`V {}` and `V()` are left out), whose schemas tell their own length, for
-- a value whose fields are written and read back as their texts: `encode_to` writes the number of the
-- value's variant and its fields, no more than `encoded_size` tells, and leaves what follows; the
-- formatter, with the derived schema, finds that variant, and writes the name that stands at its offset
-- in the first string table, with its fields behind it in parentheses: the text of one unnamed field,
-- or no parentheses if that field's schema is the unit's; the texts of more unnamed fields in a further
-- pair of parentheses; and named fields in braces, each behind its name, as in `Name({field: text})`.
pub derive_enum-IsShown :
    (vs : List Variant) (ts : VariantsTexts vs) (v : Value vs)
    → length vs < 65536
    → IsShownValue vs ts v
    → IsShown (derive_enum vs) (λ c. value_text c vs ts []) v
unfolding derive_enum enum_schema
derive_enum-IsShown [] ts v few h = absurd v
derive_enum-IsShown (x ∷ xs) ts v few h =
    let vs = x ∷ xs in
    let n = length vs in
    let size = number_size n in
    let (lo, hi, size_eq, wide) = number_size-cases n few in
    let k = enum_head n (omega arith) few in
    let number = number_of 0 vs v in
    record {
      bytes = le_bytes size number ++ value_bytes vs ts v h;
      fits = value_fits size 0 vs ts v h;
      written = λ old rest e. value_written size 0 vs ts v h old rest e;
      read = λ c.
          IsRead-as c (k.op ∷ (k.tail ++ (size ∷ 0 ∷ layout (variants (cells vs [])))))
            (enum_schema vs) (le_bytes (size_for_k size) number ++ value_bytes vs ts v h)
            (le_bytes size number ++ value_bytes vs ts v h) (value_text c vs ts [] v)
            (value_text c vs ts [] v)
            (ap₂ (λ a b. a ++ (size ∷ 0 ∷ b)) (sym k.bytes) (layout-cells vs []))
            (ap (λ m. le_bytes m number ++ value_bytes vs ts v h) size_eq) refl
            (value-IsRead c k.op size 0 k.tail [] vs ts [] v h refl lo hi
              (subst (λ m. number < 256 ^ m) (sym size_eq)
                (omega (arith, wide, number_of-lt 0 vs v)))
              (cells-AreVariants vs [] ts)
              (subst (λ m. IsHead enum m k.op k.tail) (sym (length-cells vs [])) k.head));
    }
