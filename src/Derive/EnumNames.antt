-- ===== src/Derive/EnumNames.antt =====
-- The names of a derived enum's variants and of their fields, where the context has its string table.
use rapidlog.Prelude.{
  ℕ, ◌≤◌, ◌<◌, ◌≡◌, refl, ap, ◌∙◌, sym, List, [], ◌∷◌, ◌++◌, append_assoc, append-nil, length,
  length-append, All, arith, Text, ascii, le_or_lt, le→leb, lt→leb_false, inl, inr,
}
use rapidlog.Arg.Opcode.{op_tuple, op_struct}
use rapidlog.Arg.Format.{Context, read_str_from_table}
use rapidlog.Arg.Variants.{variant_text}
use rapidlog.Derive.Defs.{
  Field, Fields, unit, unnamed, named, Variant, Value, with_name, next_offset, count_head,
  unnamed_schema, named_schema, struct_schema_unnamed, struct_schema_named, variant_sub_schema,
  variant_table, variants_table, derive_enum,
}
use rapidlog.Derive.Fields
use rapidlog.Derive.Names.{
  IsName, HaveNames, read_name, names_bytes, named_table-append, own_text, named_text-own_text,
}
use rapidlog.Derive.Variants.{FieldsTexts, VariantsTexts, fields_text, value_text}

abbrev fields_names : {P : Type 0} → Fields P → List ℕ
fields_names unit = []
fields_names (unnamed fs) = []
fields_names (named fs) = names_bytes fs

abbrev variants_names : List Variant → List ℕ
variants_names [] = []
variants_names (v ∷ vs) = v.name ++ (0 ∷ (fields_names v.fields ++ variants_names vs))

variant_table-append :
    {P : Type 0} (fields : Fields P) (table : List ℕ)
    → variant_table fields table ≡ table ++ fields_names fields
unfolding variant_table
variant_table-append unit table = sym (append-nil table)
variant_table-append (unnamed fs) table = sym (append-nil table)
variant_table-append (named fs) table = named_table-append fs table

variants_table-append :
    (vs : List Variant) (table : List ℕ) → variants_table vs table ≡ table ++ variants_names vs
unfolding variants_table
variants_table-append [] table = sym (append-nil table)
variants_table-append (v ∷ vs) table =
    variants_table-append vs (variant_table v.fields (with_name table v.name))
    ∙ ap (λ t. t ++ variants_names vs) (variant_table-append v.fields (with_name table v.name))
    ∙ simp append_assoc

abbrev pub FieldsNames : {P : Type 0} → Fields P → Type 0
FieldsNames unit = Unit
FieldsNames (unnamed fs) = Unit
FieldsNames (named fs) = HaveNames fs

abbrev pub VariantsNames : List Variant → Type 0
VariantsNames = All (λ (v : Variant). IsName v.name × FieldsNames v.fields)

-- A variant by its own name: alone, or with what it holds in parentheses. A single field decides by its
-- schema, for it may hold nothing.
unfoldable pub own_variant :
    {P : Type 0} → Context → Text → (fields : Fields P) → FieldsTexts fields → P → Text
own_variant c name unit ts p = name
own_variant c name (unnamed []) ts p = name
own_variant c name (unnamed (f ∷ [])) (lo, hi, (t, ts)) p =
    variant_text f.encoder.schema name (t.shown c (f.get p))
own_variant c name (unnamed (f ∷ g ∷ fs)) ts p =
    name
    ++ (ascii "("
        ++ ((ascii "(" ++ (Fields.unnamed_text c (f ∷ g ∷ fs) ts.2 0 p ++ ascii ")")) ++ ascii ")"))
own_variant c name (named fs) ts p =
    name ++ (ascii "(" ++ ((ascii "{" ++ (own_text c fs ts.2 0 p ++ ascii "}")) ++ ascii ")"))

unfoldable pub own_value : Context → (vs : List Variant) → VariantsTexts vs → Value vs → Text
unfolding own_variant
own_value c [] ts v = []
own_value c (x ∷ vs) (t, ts) (inl p) = own_variant c x.name x.fields t p
own_value c (x ∷ vs) (t, ts) (inr more) = own_value c vs ts more

length-count_head : (base n : ℕ) → 1 ≤ length (count_head base n)
unfolding count_head
length-count_head base n = elim (le_or_lt n 15) [
  | inl le ↦ rw (le→leb n 15 le) (omega arith)
  | inr lt ↦ rw (lt→leb_false n 15 lt) (omega arith)
]

in_parentheses :
    (s : List ℕ) (name text : Text)
    → 2 ≤ length s
    → variant_text s name text ≡ name ++ (ascii "(" ++ (text ++ ascii ")"))
unfolding variant_text
in_parentheses [] name text h = absurd (omega arith)
in_parentheses (op ∷ []) name text h = absurd (omega arith)
in_parentheses (op ∷ b ∷ s) name text h = refl

unnamed_wide :
    {P : Type 0} (f g : Field P) (fs : List (Field P))
    → Fields.HaveTexts (f ∷ g ∷ fs)
    → 2 ≤ length (struct_schema_unnamed (f ∷ g ∷ fs))
unfolding struct_schema_unnamed unnamed_schema
unnamed_wide f g fs (t, ts) =
    let n = length (f ∷ g ∷ fs) in
    omega (
      arith,
      length-count_head op_tuple n,
      t.delimited.some_byte,
      length-append (count_head op_tuple n) (unnamed_schema (f ∷ g ∷ fs)),
      length-append f.encoder.schema (unnamed_schema (g ∷ fs)),
    )

named_wide :
    {P : Type 0} (fs : List (Field P)) (table : List ℕ) → 2 ≤ length (struct_schema_named fs table)
unfolding struct_schema_named
named_wide fs table = omega (
  arith,
  length-count_head op_struct (length fs),
  length-append (count_head op_struct (length fs)) (0 ∷ named_schema fs table),
)

variant_own :
    {P : Type 0} (c : Context) (name : Text) (fields : Fields P) (ts : FieldsTexts fields)
    (whole table more : List ℕ) (tables : List (List ℕ)) (p : P)
    → c.string_tables ≡ whole ∷ tables
    → whole ≡ table ++ (fields_names fields ++ more)
    → length whole < 65536
    → FieldsNames fields
    → variant_text (variant_sub_schema fields table) name (fields_text c fields ts table p)
      ≡ own_variant c name fields ts p
unfolding variant_sub_schema fields_text own_variant variant_text
variant_own c name unit ts whole table more tables p ec e few h = refl
variant_own c name (unnamed []) (lo, hi, ts) whole table more tables p ec e few h =
    absurd (omega arith)
variant_own c name (unnamed (f ∷ [])) (lo, hi, (t, ts)) whole table more tables p ec e few h = refl
variant_own c name (unnamed (f ∷ g ∷ fs)) (lo, hi, ts) whole table more tables p ec e few h =
    in_parentheses (struct_schema_unnamed (f ∷ g ∷ fs)) name
      (ascii "(" ++ (Fields.unnamed_text c (f ∷ g ∷ fs) ts 0 p ++ ascii ")"))
      (unnamed_wide f g fs ts)
variant_own c name (named fs) (lo, hi, ts) whole table more tables p ec e few h =
    in_parentheses (struct_schema_named fs table) name
      (ascii "{" ++ (Fields.named_text c fs ts 0 table p ++ ascii "}")) (named_wide fs table)
    ∙ ap (λ x. name ++ (ascii "(" ++ ((ascii "{" ++ (x ++ ascii "}")) ++ ascii ")")))
        (named_text-own_text c fs ts 0 whole table more tables p ec e few h)

value_own :
    (c : Context) (vs : List Variant) (ts : VariantsTexts vs) (whole table : List ℕ)
    (tables : List (List ℕ)) (v : Value vs)
    → c.string_tables ≡ whole ∷ tables
    → whole ≡ table ++ variants_names vs
    → length whole < 65536
    → VariantsNames vs
    → value_text c vs ts table v ≡ own_value c vs ts v
unfolding value_text own_value
value_own c [] ts whole table tables v ec e few h = absurd v
value_own c (x ∷ vs) (t, ts) whole table tables (inl p) ec e few ((n, m), h) =
    let table' = with_name table x.name in
    ap
      (λ y. variant_text (variant_sub_schema x.fields table') y (fields_text c x.fields t table' p))
      (ap (λ ts. read_str_from_table 0 (next_offset table) ts) ec
        ∙ read_name whole table x.name (fields_names x.fields ++ variants_names vs) tables e few n)
    ∙ variant_own c x.name x.fields t whole table' (variants_names vs) tables p ec
        (e ∙ simp append_assoc) few m
value_own c (x ∷ vs) (t, ts) whole table tables (inr more) ec e few ((n, m), h) =
    let table' = with_name table x.name in
    let regroup : table ++ variants_names (x ∷ vs)
        ≡ (table' ++ fields_names x.fields) ++ variants_names vs =
      simp append_assoc in
    let behind = ap (λ y. y ++ variants_names vs) (sym (variant_table-append x.fields table')) in
    value_own c vs ts whole (variant_table x.fields table') tables more ec (e ∙ regroup ∙ behind)
      few h

-- With the derived string table as the first of the context, as an argument of a log call has it, where
-- all names are UTF-8 without NULs, the table has fewer than 65536 bytes, and each variant is a unit
-- variant or has at least one field and fewer than 65536 of them, whose schemas tell their own length: a
-- derived enum's text is its variant's own name alone for a unit variant; with one unnamed field
-- `Name(text)`, or the name alone if that field's schema is the unit's; with more unnamed fields
-- `Name((text, text))`; and with named fields `Name({field: text, field: text})`.
pub value_text-own_value :
    (c : Context) (vs : List Variant) (ts : VariantsTexts vs) (tables : List (List ℕ))
    (v : Value vs)
    → c.string_tables ≡ (derive_enum vs).string_table v ∷ tables
    → length ((derive_enum vs).string_table v) < 65536
    → VariantsNames vs
    → value_text c vs ts [] v ≡ own_value c vs ts v
unfolding derive_enum
value_text-own_value c vs ts tables v ec few h =
    value_own c vs ts (variants_table vs []) [] tables v ec (variants_table-append vs []) few h
