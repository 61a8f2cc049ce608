-- ===== src/Derive/Variants.antt =====
-- The variants of a derived enum: their schemas, and what the backend makes of their fields.
use rapidlog.Prelude.{
  ℕ, suc, ◌+◌, ◌≤◌, ◌<◌, ◌≡◌, refl, ap, sym, List, [], ◌∷◌, ◌++◌, append-nil, length, All, arith,
  Text, ascii, le_bytes, inl, inr,
}
use rapidlog.Arg.Format.{Context, read_str_from_table}
use rapidlog.Arg.Delimited.{IsDelimited, layout}
use rapidlog.Arg.Read.{IsRead, IsRead-as}
use rapidlog.Arg.Search.{variants, IsVariant}
use rapidlog.Arg.Variants.{variant_text}
use rapidlog.Encode.Leaves.{unit-IsDelimited}
use rapidlog.Encode.Texts.{unit-IsRead}
use rapidlog.Macros.Arguments.{AreLoggable, arg_bytes}
use rapidlog.Derive.Defs.{
  Fields, unit, unnamed, named, Variant, Value, with_name, next_offset, variant_sub_schema,
  variant_table, variants_schema, fields_values,
}
use rapidlog.Derive.Fields
use rapidlog.Derive.Structs

-- The fields' texts are known; a variant with fields has at least one, and fewer than 65536.
abbrev pub FieldsTexts : {P : Type 0} → Fields P → Type 0
FieldsTexts unit = Unit
FieldsTexts (unnamed fs) = (1 ≤ length fs) × (length fs < 65536) × Fields.HaveTexts fs
FieldsTexts (named fs) = (1 ≤ length fs) × (length fs < 65536) × Fields.HaveTexts fs

abbrev pub FieldsShown : {P : Type 0} → (fields : Fields P) → FieldsTexts fields → P → Type 0
FieldsShown unit ts p = Unit
FieldsShown (unnamed fs) ts p = Fields.AreShownFields fs ts.2 p
FieldsShown (named fs) ts p = Fields.AreShownFields fs ts.2 p

pub fields-AreLoggable :
    {P : Type 0} (fields : Fields P) (ts : FieldsTexts fields) (p : P)
    → FieldsShown fields ts p
    → AreLoggable (fields_values fields p)
fields-AreLoggable unit ts p h = tt
fields-AreLoggable (unnamed fs) ts p h = Fields.values-AreLoggable fs ts.2 p h
fields-AreLoggable (named fs) ts p h = Fields.values-AreLoggable fs ts.2 p h

-- What a variant holds, as the formatter writes it: a single field stands alone.
unfoldable pub fields_text :
    {P : Type 0} → Context → (fields : Fields P) → FieldsTexts fields → List ℕ → P → Text
fields_text c unit ts table p = ascii "()"
fields_text c (unnamed []) ts table p = []
fields_text c (unnamed (f ∷ [])) (lo, hi, (t, ts)) table p = t.shown c (f.get p)
fields_text c (unnamed (f ∷ g ∷ fs)) ts table p =
    ascii "(" ++ (Fields.unnamed_text c (f ∷ g ∷ fs) ts.2 0 p ++ ascii ")")
fields_text c (named fs) ts table p =
    ascii "{" ++ (Fields.named_text c fs ts.2 0 table p ++ ascii "}")

pub sub_schema-IsDelimited :
    {P : Type 0} (fields : Fields P) (table : List ℕ)
    → FieldsTexts fields
    → IsDelimited (variant_sub_schema fields table)
unfolding variant_sub_schema
sub_schema-IsDelimited unit table ts = unit-IsDelimited
sub_schema-IsDelimited (unnamed []) table (lo, hi, ts) = absurd (omega arith)
sub_schema-IsDelimited (unnamed (f ∷ [])) table (lo, hi, (t, ts)) = t.delimited
sub_schema-IsDelimited (unnamed (f ∷ g ∷ fs)) table (lo, hi, ts) =
    Structs.struct_schema_unnamed-IsDelimited (f ∷ g ∷ fs) ts lo hi
sub_schema-IsDelimited (named fs) table (lo, hi, ts) =
    Structs.struct_schema_named-IsDelimited fs ts table lo hi

pub sub_schema-IsRead :
    {P : Type 0} (c : Context) (fields : Fields P) (ts : FieldsTexts fields) (table : List ℕ)
    (p : P) (h : FieldsShown fields ts p)
    → IsRead c
        (variant_sub_schema fields table)
        (arg_bytes (fields_values fields p) (fields-AreLoggable fields ts p h))
        (fields_text c fields ts table p)
unfolding variant_sub_schema fields_text fields-AreLoggable Fields.values-AreLoggable
sub_schema-IsRead c unit ts table p h = unit-IsRead c
sub_schema-IsRead c (unnamed []) (lo, hi, ts) table p h = absurd (omega arith)
sub_schema-IsRead c (unnamed (f ∷ [])) (lo, hi, (t, ts)) table p (s, h) =
    IsRead-as c f.encoder.schema f.encoder.schema s.bytes (s.bytes ++ []) (t.shown c (f.get p))
      (t.shown c (f.get p)) refl (sym (append-nil s.bytes)) refl (s.read c)
sub_schema-IsRead c (unnamed (f ∷ g ∷ fs)) (lo, hi, ts) table p h =
    Structs.struct_schema_unnamed-IsRead (f ∷ g ∷ fs) ts c p h lo hi
sub_schema-IsRead c (named fs) (lo, hi, ts) table p h =
    Structs.struct_schema_named-IsRead fs ts c p h table lo hi

-- The variants as the schema has them: the offset of the name, and the schema.
unfoldable pub cells : List Variant → List ℕ → List (ℕ × List ℕ)
unfolding variant_sub_schema variant_table
cells [] table = []
cells (v ∷ vs) table =
    let table' = with_name table v.name in
    (next_offset table, variant_sub_schema v.fields table')
    ∷ cells vs (variant_table v.fields table')

pub layout-cells :
    (vs : List Variant) (table : List ℕ)
    → layout (variants (cells vs table)) ≡ variants_schema vs table
unfolding variants_schema cells
layout-cells [] table = refl
layout-cells (v ∷ vs) table =
    let table' = with_name table v.name in
    ap (λ x. le_bytes 2 (next_offset table) ++ (variant_sub_schema v.fields table' ++ x))
      (layout-cells vs (variant_table v.fields table'))

pub length-cells : (vs : List Variant) (table : List ℕ) → length (cells vs table) ≡ length vs
unfolding cells
length-cells [] table = refl
length-cells (v ∷ vs) table =
    ap suc (length-cells vs (variant_table v.fields (with_name table v.name)))

abbrev pub VariantsTexts : List Variant → Type 0
VariantsTexts = All (λ (v : Variant). FieldsTexts v.fields)

pub cells-AreVariants :
    (vs : List Variant) (table : List ℕ) → VariantsTexts vs → All IsVariant (cells vs table)
unfolding cells
cells-AreVariants [] table ts = tt
cells-AreVariants (v ∷ vs) table (t, ts) =
    let table' = with_name table v.name in
    (
      (omega arith, sub_schema-IsDelimited v.fields table' t),
      cells-AreVariants vs (variant_table v.fields table') ts,
    )

-- A value's fields are written and read back as their texts.
abbrev pub IsShownValue : (vs : List Variant) → VariantsTexts vs → Value vs → Type 0
IsShownValue [] ts v = ⊥
IsShownValue (x ∷ vs) (t, ts) (inl p) = FieldsShown x.fields t p
IsShownValue (x ∷ vs) (t, ts) (inr more) = IsShownValue vs ts more

-- The number of a value's variant, counted from `idx` on, and the bytes of its fields.
unfoldable pub number_of : ℕ → (vs : List Variant) → Value vs → ℕ
number_of idx [] v = absurd v
number_of idx (x ∷ vs) (inl p) = idx
number_of idx (x ∷ vs) (inr more) = number_of (idx + 1) vs more

unfoldable pub value_bytes :
    (vs : List Variant) (ts : VariantsTexts vs) (v : Value vs) → IsShownValue vs ts v → List ℕ
unfolding fields-AreLoggable
value_bytes [] ts v h = []
value_bytes (x ∷ vs) (t, ts) (inl p) h =
    arg_bytes (fields_values x.fields p) (fields-AreLoggable x.fields t p h)
value_bytes (x ∷ vs) (t, ts) (inr more) h = value_bytes vs ts more h

-- The name of the value's variant, and behind it what it holds.
unfoldable pub value_text :
    Context → (vs : List Variant) → VariantsTexts vs → List ℕ → Value vs → Text
unfolding fields_text variant_sub_schema variant_table
value_text c [] ts table v = []
value_text c (x ∷ vs) (t, ts) table (inl p) =
    let table' = with_name table x.name in
    variant_text (variant_sub_schema x.fields table')
      (read_str_from_table 0 (next_offset table) c.string_tables)
      (fields_text c x.fields t table' p)
value_text c (x ∷ vs) (t, ts) table (inr more) =
    value_text c vs ts (variant_table x.fields (with_name table x.name)) more
