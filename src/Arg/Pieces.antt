-- ===== src/Arg/Pieces.antt =====
-- Tuples and structs: what `format_payload` reads from the bytes of their parts.
use rapidlog.Prelude.{
  ℕ, zero, suc, ◌+◌, ◌<◌, ◌≡◌, refl, ap, ap₂, ◌∙◌, List, [], ◌∷◌, ◌++◌, append_assoc, ok,
  slice_from_at, slice_at, length, length-append, le_bytes, All, arith, Text, ascii, bit_and,
  index_at,
}
use rapidlog.Arg.Opcode.{tuple, struct, size_mask}
use rapidlog.Arg.Commas.{comma, separator-comma}
use rapidlog.Arg.Format.{
  Context, read_str_from_table, format_parts, format_tuple, format_fields, format_struct,
  format_arm, format_with,
}
use rapidlog.Arg.Heads.{IsHead, u16_at_lem}
use rapidlog.Arg.Delimited.{IsDelimited, AreDelimited, measure_schema_lem, layout}
use rapidlog.Arg.Read.{IsRead}

-- A part of a tuple, a struct or an enum: the offset of its name, its schema, its bytes, its text.
pub record Piece : Type 0 where
  pub offset : ℕ
  pub schema : List ℕ
  pub bytes : List ℕ
  pub text : Text

abbrev pub plain : List Piece → List (List ℕ × List ℕ)
plain [] = []
plain (p ∷ ps) = ([], p.schema) ∷ plain ps

abbrev pub named : List Piece → List (List ℕ × List ℕ)
named [] = []
named (p ∷ ps) = (le_bytes 2 p.offset, p.schema) ∷ named ps

abbrev pub piece_bytes : List Piece → List ℕ
piece_bytes [] = []
piece_bytes (p ∷ ps) = p.bytes ++ piece_bytes ps

abbrev pub tuple_text : ℕ → List Piece → Text
tuple_text i [] = []
tuple_text i (p ∷ ps) = comma i ++ (p.text ++ tuple_text (i + 1) ps)

module _ (c : Context) where
  pub record IsPiece (p : Piece) : Type 0 where
    pub small : p.offset < 65536
    pub delimited : IsDelimited p.schema
    pub read : IsRead c p.schema p.bytes p.text

  abbrev pub struct_text : ℕ → ℕ → List Piece → Text
  struct_text st_idx i [] = []
  struct_text st_idx i (p ∷ ps) =
      comma i
      ++ (read_str_from_table st_idx p.offset c.string_tables
          ++ (ascii ": " ++ (p.text ++ struct_text st_idx (i + 1) ps)))

  format_parts_lem :
      (fuel i spos pos : ℕ) (schema spre payload pre rest : List ℕ) (ps : List Piece)
      → schema ≡ spre ++ layout (plain ps)
      → spos ≡ length spre
      → payload ≡ pre ++ (piece_bytes ps ++ rest)
      → pos ≡ length pre
      → length (layout (plain ps)) < fuel
      → All IsPiece ps
      → format_parts (format_with fuel c) (length ps) i schema spos payload pos
        ≡ ok (pos + length (piece_bytes ps), tuple_text i ps)
  unfolding format_parts
  format_parts_lem fuel i spos pos schema spre payload pre rest [] es es' ep e lt h =
      ap (λ n. ok (n, [])) (omega arith)
  format_parts_lem fuel i spos pos schema spre payload pre rest (p ∷ ps) es es' ep e lt (q, h) =
      let size = length-append p.schema (layout (plain ps)) in
      let inside =
        format_parts_lem fuel (i + 1) (spos + length p.schema) (pos + length p.bytes) schema
          (spre ++ p.schema) payload (pre ++ p.bytes) rest ps (es ∙ simp append_assoc)
          (omega (arith, length-append spre p.schema)) (ep ∙ simp append_assoc)
          (omega (arith, length-append pre p.bytes)) (omega arith) h in
      rw
        (
          slice_from_at schema spre (p.schema ++ layout (plain ps)) spos es es',
          measure_schema_lem p.schema (layout (plain ps)) q.delimited,
          slice_at schema spre p.schema (layout (plain ps)) spos (spos + length p.schema) es es'
              refl,
          slice_from_at payload pre (p.bytes ++ (piece_bytes ps ++ rest)) pos
              (ep ∙ simp append_assoc) e,
          q.read fuel (piece_bytes ps ++ rest) (omega arith),
          inside,
        )
        (ap₂ (λ n t. ok (n, t ++ (p.text ++ tuple_text (i + 1) ps)))
          (omega (arith, length-append p.bytes (piece_bytes ps))) (separator-comma i))

  format_tuple_lem :
      (fuel op : ℕ) (tail rest : List ℕ) (ps : List Piece)
      → IsHead tuple (length ps) op tail
      → length (layout (plain ps)) < fuel
      → All IsPiece ps
      → format_tuple
          (format_with fuel c)
          (bit_and op size_mask)
          (op ∷ (tail ++ layout (plain ps)))
          (piece_bytes ps ++ rest)
        ≡ ok (length (piece_bytes ps), ascii "(" ++ (tuple_text 0 ps ++ ascii ")"))
  unfolding format_tuple
  format_tuple_lem fuel op tail rest ps head lt h =
      let schema = op ∷ (tail ++ layout (plain ps)) in
      rw
        (
          head.counts schema (layout (plain ps)) refl,
          format_parts_lem fuel 0 (1 + length tail) 0 schema (op ∷ tail) (piece_bytes ps ++ rest) []
              rest ps refl (omega arith) refl refl lt h,
        )
        (ap (λ n. ok (n, ascii "(" ++ (tuple_text 0 ps ++ ascii ")"))) (omega arith))

  -- A tuple of parts.
  pub tuple-IsRead :
      (op : ℕ) (tail : List ℕ) (ps : List Piece)
      → IsHead tuple (length ps) op tail
      → All IsPiece ps
      → IsRead c
          (op ∷ (tail ++ layout (plain ps)))
          (piece_bytes ps)
          (ascii "(" ++ (tuple_text 0 ps ++ ascii ")"))
  unfolding format_with format_arm
  tuple-IsRead op tail ps head h zero rest lt = absurd (omega arith)
  tuple-IsRead op tail ps head h (suc fuel) rest lt =
      let size = length-append tail (layout (plain ps)) in
      rw (head.is_cat, format_arm) (format_tuple_lem fuel op tail rest ps head (omega arith) h)

  format_fields_lem :
      (fuel st_idx i spos pos : ℕ) (schema spre payload pre rest : List ℕ) (ps : List Piece)
      → schema ≡ spre ++ layout (named ps)
      → spos ≡ length spre
      → payload ≡ pre ++ (piece_bytes ps ++ rest)
      → pos ≡ length pre
      → length (layout (named ps)) < fuel
      → All IsPiece ps
      → format_fields
          (format_with fuel c)
          c.string_tables
          st_idx
          (length ps)
          i
          schema
          spos
          payload
          pos
        ≡ ok (pos + length (piece_bytes ps), struct_text st_idx i ps)
  unfolding format_fields
  format_fields_lem fuel st_idx i spos pos schema spre payload pre rest [] es es' ep e lt h =
      ap (λ n. ok (n, [])) (omega arith)
  format_fields_lem fuel st_idx i spos pos schema spre payload pre rest (p ∷ ps) es es' ep e lt
        (q, h) =
      let off = le_bytes 2 p.offset in
      let more = layout (named ps) in
      let size = length-append p.schema more in
      let es₁ : schema ≡ (spre ++ off) ++ (p.schema ++ more) = es ∙ simp append_assoc in
      let at₁ : spos + 2 ≡ length (spre ++ off) = omega (arith, length-append spre off) in
      let inside =
        format_fields_lem fuel st_idx (i + 1) (spos + 2 + length p.schema) (pos + length p.bytes)
          schema (spre ++ (off ++ p.schema)) payload (pre ++ p.bytes) rest ps
          (es ∙ simp append_assoc) (omega (arith, length-append spre (off ++ p.schema)))
          (ep ∙ simp append_assoc) (omega (arith, length-append pre p.bytes)) (omega arith) h in
      rw
        (
          u16_at_lem schema spre (p.schema ++ more) spos p.offset es es' q.small,
          slice_from_at schema (spre ++ off) (p.schema ++ more) (spos + 2) es₁ at₁,
          measure_schema_lem p.schema more q.delimited,
          slice_at schema (spre ++ off) p.schema more (spos + 2) (spos + 2 + length p.schema) es₁
              at₁ refl,
          slice_from_at payload pre (p.bytes ++ (piece_bytes ps ++ rest)) pos
              (ep ∙ simp append_assoc) e,
          q.read fuel (piece_bytes ps ++ rest) (omega arith),
          inside,
        )
        (ap₂
          (λ n t. ok (
            n,
            t
                ++ (read_str_from_table st_idx p.offset c.string_tables
                    ++ (ascii ": " ++ (p.text ++ struct_text st_idx (i + 1) ps))),
          ))
          (omega (arith, length-append p.bytes (piece_bytes ps))) (separator-comma i))

  format_struct_lem :
      (fuel op st_idx : ℕ) (tail rest : List ℕ) (ps : List Piece)
      → IsHead struct (length ps) op tail
      → length (layout (named ps)) < fuel
      → All IsPiece ps
      → format_struct
          (format_with fuel c)
          c.string_tables
          (bit_and op size_mask)
          (op ∷ (tail ++ (st_idx ∷ layout (named ps))))
          (piece_bytes ps ++ rest)
        ≡ ok (length (piece_bytes ps), ascii "{" ++ (struct_text st_idx 0 ps ++ ascii "}"))
  unfolding format_struct
  format_struct_lem fuel op st_idx tail rest ps head lt h =
      let schema = op ∷ (tail ++ (st_idx ∷ layout (named ps))) in
      rw
        (
          head.counts schema (st_idx ∷ layout (named ps)) refl,
          index_at schema (op ∷ tail) st_idx (layout (named ps)) (1 + length tail) refl
              (omega arith),
          format_fields_lem fuel st_idx 0 (1 + length tail + 1) 0 schema
              (op ∷ (tail ++ (st_idx ∷ []))) (piece_bytes ps ++ rest) [] rest ps (simp append_assoc)
              (omega (arith, length-append tail (st_idx ∷ []))) refl refl lt h,
        )
        (ap (λ n. ok (n, ascii "{" ++ (struct_text st_idx 0 ps ++ ascii "}"))) (omega arith))

  -- A struct, with its names in the table numbered `st_idx`.
  pub struct-IsRead :
      (op st_idx : ℕ) (tail : List ℕ) (ps : List Piece)
      → IsHead struct (length ps) op tail
      → All IsPiece ps
      → IsRead c
          (op ∷ (tail ++ (st_idx ∷ layout (named ps))))
          (piece_bytes ps)
          (ascii "{" ++ (struct_text st_idx 0 ps ++ ascii "}"))
  unfolding format_with format_arm
  struct-IsRead op st_idx tail ps head h zero rest lt = absurd (omega arith)
  struct-IsRead op st_idx tail ps head h (suc fuel) rest lt =
      let size = length-append tail (st_idx ∷ layout (named ps)) in
      rw (head.is_cat, format_arm)
        (format_struct_lem fuel op st_idx tail rest ps head (omega arith) h)

pub length-plain : (ps : List Piece) → length (plain ps) ≡ length ps
length-plain [] = refl
length-plain (p ∷ ps) = ap suc (length-plain ps)

pub length-named : (ps : List Piece) → length (named ps) ≡ length ps
length-named [] = refl
length-named (p ∷ ps) = ap suc (length-named ps)

-- The parts' schemas, for their measure.
pub plain-AreDelimited :
    (c : Context) (ps : List Piece) → All (IsPiece c) ps → AreDelimited 0 (plain ps)
plain-AreDelimited c [] h = tt
plain-AreDelimited c (p ∷ ps) (q, h) = ((refl, q.delimited), plain-AreDelimited c ps h)

pub named-AreDelimited :
    (c : Context) (ps : List Piece) → All (IsPiece c) ps → AreDelimited 2 (named ps)
named-AreDelimited c [] h = tt
named-AreDelimited c (p ∷ ps) (q, h) = ((refl, q.delimited), named-AreDelimited c ps h)
