-- ===== src/Encode/Results.antt =====
-- `Result`: what is written, and what the backend makes of it.
use rapidlog.Prelude.{
  ◌≡◌, ap, ◌∙◌, subst, ◌∷◌, ◌++◌, ◌⊎◌, inl, inr, ok, append-nil, arith, Text, bit_or, ℕ, List, [],
  refl, sym, ascii, is_utf8, utf8_or_empty, ◌≢◌,
}
use rapidlog.Arg.Opcode.{op_enum, op_unit}
use rapidlog.Arg.Format.{Context, read_str_from_table, until_nul}
use rapidlog.Arg.Delimited.{IsDelimited}
use rapidlog.Arg.Read.{IsRead}
use rapidlog.Arg.Variants.{variant_text}
use rapidlog.Encode.Defs.{Encode}
use rapidlog.Encode.Compound.{result}
use rapidlog.Encode.Shown.{IsShown}
use rapidlog.Encode.Enums.{
  two_schema, two-IsDelimited, first-IsRead, second-IsRead, variant_written, variant_text-cases,
}

result_schema :
    {T E : Type 0} (t : Encode T) (e : Encode E)
    → two_schema 0 3 t.schema e.schema ≡ (result t e).schema
result_schema t e =
    ap (λ x. bit_or op_enum 2 ∷ 1 ∷ 0 ∷ 0 ∷ 0 ∷ (t.schema ++ (3 ∷ 0 ∷ x))) (append-nil e.schema)

pub result-IsDelimited :
    {T E : Type 0} (t : Encode T) (e : Encode E)
    → IsDelimited t.schema
    → IsDelimited e.schema
    → IsDelimited (result t e).schema
result-IsDelimited t e dt de =
    subst (λ s. IsDelimited s) (result_schema t e) (two-IsDelimited 0 3 t.schema e.schema dt de)

unfoldable pub result_text :
    {T E : Type 0}
    → Encode T
    → Encode E
    → (Context → T → Text)
    → (Context → E → Text)
    → Context
    → T ⊎ E
    → Text
result_text t e shown shown' c (inl v) =
    variant_text t.schema (read_str_from_table 0 0 c.string_tables) (shown c v)
result_text t e shown shown' c (inr v) =
    variant_text e.schema (read_str_from_table 0 3 c.string_tables) (shown' c v)

module _ {T E : Type 0} (t : Encode T) (e : Encode E) (shown : Context → T → Text)
    (shown' : Context → E → Text) where
  pub inl-IsShown :
      (v : T)
      → IsDelimited t.schema
      → IsDelimited e.schema
      → IsShown t shown v
      → IsShown (result t e) (result_text t e shown shown') (inl v)
  unfolding result_text
  inl-IsShown v dt de s = record {
    bytes = 0 ∷ s.bytes;
    fits = omega (arith, s.fits);
    written = λ old rest size.
        variant_written t shown 0 v s old rest (omega (arith, size))
        ∙ ap (λ n. ok (n, 0 ∷ (s.bytes ++ rest))) (omega arith);
    read = λ c.
        subst (λ x. IsRead c x (0 ∷ s.bytes) (result_text t e shown shown' c (inl v)))
          (result_schema t e)
          (first-IsRead c 0 3 t.schema e.schema s.bytes (shown c v) (omega arith) (omega arith) dt
            de (s.read c));
  }

  pub inr-IsShown :
      (v : E)
      → IsDelimited t.schema
      → IsDelimited e.schema
      → IsShown e shown' v
      → IsShown (result t e) (result_text t e shown shown') (inr v)
  unfolding result_text
  inr-IsShown v dt de s = record {
    bytes = 1 ∷ s.bytes;
    fits = omega (arith, s.fits);
    written = λ old rest size.
        variant_written e shown' 1 v s old rest (omega (arith, size))
        ∙ ap (λ n. ok (n, 1 ∷ (s.bytes ++ rest))) (omega arith);
    read = λ c.
        subst (λ x. IsRead c x (1 ∷ s.bytes) (result_text t e shown shown' c (inr v)))
          (result_schema t e)
          (second-IsRead c 0 3 t.schema e.schema s.bytes (shown' c v) (omega arith) (omega arith) dt
            de (s.read c));
  }

-- The first two names of a context whose first table is the result's.
result_names :
    {T E : Type 0} (t : Encode T) (e : Encode E) (o : T ⊎ E) (tables : List (List ℕ))
    → (read_str_from_table 0 0 ((result t e).string_table o ∷ tables) ≡ ascii "Ok")
      × (read_str_from_table 0 3 ((result t e).string_table o ∷ tables) ≡ ascii "Err")
unfolding read_str_from_table until_nul utf8_or_empty is_utf8
result_names t e o tables = (refl, refl)

-- A name, with a text in parentheses unless the schema is the unit's.
abbrev pub IsNamedText : List ℕ → Text → Text → Text → Type 0
IsNamedText s name shown text =
    ((s ≡ op_unit ∷ []) × (text ≡ name))
    ⊎ ((s ≢ op_unit ∷ []) × (text ≡ name ++ (ascii "(" ++ (shown ++ ascii ")"))))

named_text :
    (s : List ℕ) (name own shown : Text)
    → IsDelimited s
    → name ≡ own
    → IsNamedText s own shown (variant_text s name shown)
named_text s name own shown d e =
    subst (λ n. IsNamedText s own shown (variant_text s n shown)) (sym e)
      (variant_text-cases s own shown d)

module _ {T E : Type 0} (t : Encode T) (e : Encode E) (shown : Context → T → Text)
    (shown' : Context → E → Text) where
  -- What a result holds is written and read back as its text.
  abbrev pub IsShownEither : T ⊎ E → Type 0
  IsShownEither (inl v) = IsShown t shown v
  IsShownEither (inr v) = IsShown e shown' v

  -- The text of a result: `Ok` or `Err`, with the text of what it holds.
  abbrev pub IsResultText : Context → T ⊎ E → Text → Type 0
  IsResultText c (inl v) text = IsNamedText t.schema (ascii "Ok") (shown c v) text
  IsResultText c (inr v) text = IsNamedText e.schema (ascii "Err") (shown' c v) text

  -- A result of a value that is written and read back as its text, where the schemas of both types each
  -- tell their own length: `encode_to` writes the variant's number and the value, no more than
  -- `encoded_size` bytes, and leaves what follows. The formatter, with the result's schema and with the
  -- result's string table as the first of its context, as an argument of a log call has it, writes `Ok`
  -- or `Err`, with the value's text in parentheses, or alone for a value whose schema is the unit's.
  pub result-IsShown :
      (o : T ⊎ E) (c : Context) (tables : List (List ℕ))
      → IsDelimited t.schema
      → IsDelimited e.schema
      → IsShownEither o
      → c.string_tables ≡ (result t e).string_table o ∷ tables
      → (x : IsShown (result t e) (result_text t e shown shown') o) × (text : Text) × IsRead c
          (result t e).schema
          x.bytes
          text
        × IsResultText c o text
  unfolding result_text
  result-IsShown (inl v) c tables dt de s at =
      let x = inl-IsShown t e shown shown' v dt de s in
      let name = ap (read_str_from_table 0 0) at ∙ (result_names t e (inl v) tables).0 in
      (
        x,
        result_text t e shown shown' c (inl v),
        x.read c,
        named_text t.schema (read_str_from_table 0 0 c.string_tables) (ascii "Ok") (shown c v) dt
            name,
      )
  result-IsShown (inr v) c tables dt de s at =
      let x = inr-IsShown t e shown shown' v dt de s in
      let name = ap (read_str_from_table 0 3) at ∙ (result_names t e (inr v) tables).1 in
      (
        x,
        result_text t e shown shown' c (inr v),
        x.read c,
        named_text e.schema (read_str_from_table 0 3 c.string_tables) (ascii "Err") (shown' c v) de
            name,
      )
