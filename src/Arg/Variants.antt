-- ===== src/Arg/Variants.antt =====
-- Enums: what `format_payload` reads from the number of a variant and its payload.
use rapidlog.Prelude.{
  ℕ, zero, suc, ◌+◌, ◌^◌, ◌≤◌, ◌<◌, ◌≡◌, refl, ap, ◌∙◌, sym, List, [], ◌∷◌, ◌++◌, append_assoc,
  true, ok, slice_from_at, slice_at, length, length-append, length-le_bytes, le_bytes, All, arith,
  Text, ascii, bit_and, index_at, Bool-cases, inl, inr, lt→ltb, le→ltb_false, if◌then◌else◌, ◌==◌,
}
use rapidlog.Arg.Opcode.{enum, op_unit, size_mask, size_for_k, read_unsigned_ne}
use rapidlog.Arg.Format.{
  Context, read_str_from_table, is_bare, variant_schema, format_variant, format_chosen, format_enum,
  format_arm, format_with,
}
use rapidlog.Arg.Heads.{IsHead}
use rapidlog.Arg.Delimited.{IsDelimited, layout}
use rapidlog.Arg.Numbers.{read_unsigned_ne_lem}
use rapidlog.Arg.Read.{IsRead}
use rapidlog.Arg.Search.{Variant, variants, IsVariant, found_at, find_variant_lem}

layout-variants :
    (before : List Variant) (off : ℕ) (s : List ℕ) (after : List Variant)
    → layout (variants (before ++ ((off, s) ∷ after)))
      ≡ layout (variants before) ++ (le_bytes 2 off ++ (s ++ layout (variants after)))
layout-variants [] off s after = refl
layout-variants ((o, t) ∷ before) off s after =
    ap (λ x. le_bytes 2 o ++ (t ++ x)) (layout-variants before off s after) ∙ simp append_assoc

chosen-le :
    (before : List Variant) (off : ℕ) (s : List ℕ) (after : List Variant)
    → length s ≤ length (layout (variants (before ++ ((off, s) ∷ after))))
chosen-le [] off s after = omega (arith, length-append s (layout (variants after)))
chosen-le ((o, t) ∷ before) off s after = omega (
  arith,
  chosen-le before off s after,
  length-append t (layout (variants (before ++ ((off, s) ∷ after)))),
)

chosen :
    (before : List Variant) (off : ℕ) (s : List ℕ) (after : List Variant)
    → All IsVariant (before ++ ((off, s) ∷ after))
    → IsVariant (off, s)
chosen [] off s after h = h.0
chosen (v ∷ before) off s after h = chosen before off s after h.1

-- The text of a variant: the name, and what it holds, unless its schema is the unit's.
unfoldable pub variant_text : List ℕ → Text → Text → Text
variant_text [] name text = name
variant_text (op ∷ []) name text =
    if op == op_unit then name else name ++ (ascii "(" ++ (text ++ ascii ")"))
variant_text (op ∷ b ∷ s) name text = name ++ (ascii "(" ++ (text ++ ascii ")"))

variant_text_lem :
    (s : List ℕ) (name text : Text)
    → variant_text s name text
      ≡ (if is_bare s then name else name ++ (ascii "(" ++ (text ++ ascii ")")))
unfolding variant_text is_bare
variant_text_lem [] name text = refl
variant_text_lem (op ∷ []) name text = refl
variant_text_lem (op ∷ b ∷ s) name text = refl

module _ (c : Context) where
  -- The payload of the chosen variant.
  format_variant_lem :
      (fuel pos : ℕ) (name : Text) (s payload pre bytes rest : List ℕ) (text : Text)
      → payload ≡ pre ++ (bytes ++ rest)
      → pos ≡ length pre
      → length s < fuel
      → IsRead c s bytes text
      → (is_bare s ≡ true → bytes ≡ [])
      → format_variant (format_with fuel c) name s pos payload
        ≡ ok (pos + length bytes, variant_text s name text)
  unfolding format_variant
  format_variant_lem fuel pos name s payload pre bytes rest text e at lt r bare =
      elim (Bool-cases (is_bare s)) [
        | inl b ↦
            rw (variant_text_lem s name text, b)
              (ap (λ n. ok (n, name)) (omega (arith, ap (λ (x : List ℕ). length x) (bare b))))
        | inr b ↦
            rw (variant_text_lem s name text, b)
              (rw (slice_from_at payload pre (bytes ++ rest) pos e at, r fuel rest lt) refl)
      ]

  variant_schema_lem :
      (schema pre s more : List ℕ) (name : Text) (start : ℕ)
      → schema ≡ pre ++ (s ++ more)
      → start ≡ length pre
      → 1 ≤ length s
      → variant_schema schema (found_at name start (length s)) ≡ ok s
  unfolding variant_schema
  variant_schema_lem schema pre s more name start e at some_byte =
      rw
        (
          lt→ltb start (start + length s) (omega arith),
          slice_at schema pre s more start (start + length s) e at refl,
        )
        refl

  format_chosen_lem :
      (fuel vdx_k st_idx idx off spos : ℕ) (s schema spre bytes rest : List ℕ) (text : Text)
      (before after : List Variant)
      → schema ≡ spre ++ layout (variants (before ++ ((off, s) ∷ after)))
      → spos ≡ length spre
      → length before ≡ idx
      → 1 ≤ vdx_k
      → vdx_k ≤ 4
      → idx < 256 ^ size_for_k vdx_k
      → All IsVariant (before ++ ((off, s) ∷ after))
      → length s < fuel
      → IsRead c s bytes text
      → IsDelimited s
      → (is_bare s ≡ true → bytes ≡ [])
      → format_chosen
          (format_with fuel c)
          c.string_tables
          vdx_k
          st_idx
          (length (before ++ ((off, s) ∷ after)))
          schema
          spos
          ((le_bytes (size_for_k vdx_k) idx ++ bytes) ++ rest)
        ≡ ok (
          length (le_bytes (size_for_k vdx_k) idx ++ bytes),
          variant_text s (read_str_from_table st_idx off c.string_tables) text,
        )
  unfolding format_chosen
  format_chosen_lem fuel vdx_k st_idx idx off spos s schema spre bytes rest text before after es at
        here lo hi small vs lt r d bare =
      let n = size_for_k vdx_k in
      let number = le_bytes n idx in
      let name = read_str_from_table st_idx off c.string_tables in
      let e : (number ++ bytes) ++ rest ≡ number ++ (bytes ++ rest) =
        append_assoc number bytes rest in
      let front = spre ++ (layout (variants before) ++ le_bytes 2 off) in
      let start = spos + length (layout (variants before)) + 2 in
      rw
        (
          ap (λ p. read_unsigned_ne p vdx_k) e
              ∙ read_unsigned_ne_lem vdx_k idx (bytes ++ rest) lo hi small,
          find_variant_lem c st_idx idx 0 spos off s schema spre before after _ es at (omega arith)
              vs,
          variant_schema_lem schema front s (layout (variants after)) name start
              (es ∙ ap (λ x. spre ++ x) (layout-variants before off s after) ∙ simp append_assoc)
              (omega (
                arith,
                length-append spre (layout (variants before) ++ le_bytes 2 off),
                length-append (layout (variants before)) (le_bytes 2 off),
              ))
              d.some_byte,
          format_variant_lem fuel n name s ((number ++ bytes) ++ rest) number bytes rest text e
              (sym (length-le_bytes n idx)) lt r bare,
        )
        (ap (λ m. ok (m, variant_text s name text))
          (omega (arith, length-append number bytes, length-le_bytes n idx)))

  format_enum_lem :
      (fuel op vdx_k st_idx idx off : ℕ) (tail s bytes rest : List ℕ) (text : Text)
      (before after : List Variant)
      → IsHead enum (length (before ++ ((off, s) ∷ after))) op tail
      → length before ≡ idx
      → 1 ≤ vdx_k
      → vdx_k ≤ 4
      → idx < 256 ^ size_for_k vdx_k
      → All IsVariant (before ++ ((off, s) ∷ after))
      → length s < fuel
      → IsRead c s bytes text
      → IsDelimited s
      → (is_bare s ≡ true → bytes ≡ [])
      → format_enum
          (format_with fuel c)
          c.string_tables
          (bit_and op size_mask)
          (op ∷ (tail ++ (vdx_k ∷ st_idx ∷ layout (variants (before ++ ((off, s) ∷ after))))))
          ((le_bytes (size_for_k vdx_k) idx ++ bytes) ++ rest)
        ≡ ok (
          length (le_bytes (size_for_k vdx_k) idx ++ bytes),
          variant_text s (read_str_from_table st_idx off c.string_tables) text,
        )
  unfolding format_enum
  format_enum_lem fuel op vdx_k st_idx idx off tail s bytes rest text before after head here lo hi
        small vs lt r d bare =
      let all = layout (variants (before ++ ((off, s) ∷ after))) in
      let schema = op ∷ (tail ++ (vdx_k ∷ st_idx ∷ all)) in
      let n = size_for_k vdx_k in
      let number = le_bytes n idx in
      rw
        (
          head.counts schema (vdx_k ∷ st_idx ∷ all) refl,
          index_at schema (op ∷ tail) vdx_k (st_idx ∷ all) (1 + length tail) refl (omega arith),
          index_at schema (op ∷ (tail ++ (vdx_k ∷ []))) st_idx all (1 + length tail + 1)
              (simp append_assoc) (omega (arith, length-append tail (vdx_k ∷ []))),
          le→ltb_false (length ((number ++ bytes) ++ rest)) n (
              omega (
                arith,
                length-append (number ++ bytes) rest,
                length-append number bytes,
                length-le_bytes n idx,
              )),
        )
        (format_chosen_lem fuel vdx_k st_idx idx off (1 + length tail + 2) s schema
          (op ∷ (tail ++ (vdx_k ∷ st_idx ∷ []))) bytes rest text before after (simp append_assoc)
          (omega (arith, length-append tail (vdx_k ∷ st_idx ∷ []))) here lo hi small vs lt r d bare)

  -- The variant numbered `idx`, with its number in `size_for_k vdx_k` bytes.
  pub enum-IsRead :
      (op vdx_k st_idx idx off : ℕ) (tail s bytes : List ℕ) (text : Text)
      (before after : List Variant)
      → IsHead enum (length (before ++ ((off, s) ∷ after))) op tail
      → length before ≡ idx
      → 1 ≤ vdx_k
      → vdx_k ≤ 4
      → idx < 256 ^ size_for_k vdx_k
      → All IsVariant (before ++ ((off, s) ∷ after))
      → IsRead c s bytes text
      → (is_bare s ≡ true → bytes ≡ [])
      → IsRead c
          (op ∷ (tail ++ (vdx_k ∷ st_idx ∷ layout (variants (before ++ ((off, s) ∷ after))))))
          (le_bytes (size_for_k vdx_k) idx ++ bytes)
          (variant_text s (read_str_from_table st_idx off c.string_tables) text)
  unfolding format_with format_arm
  enum-IsRead op vdx_k st_idx idx off tail s bytes text before after head here lo hi small vs r bare
        zero rest lt =
      absurd (omega arith)
  enum-IsRead op vdx_k st_idx idx off tail s bytes text before after head here lo hi small vs r bare
        (suc fuel) rest lt =
      let all = layout (variants (before ++ ((off, s) ∷ after))) in
      rw (head.is_cat, format_arm)
        (format_enum_lem fuel op vdx_k st_idx idx off tail s bytes rest text before after head here
          lo hi small vs
          (omega (arith, length-append tail (vdx_k ∷ st_idx ∷ all), chosen-le before off s after)) r
          (chosen before off s after vs).1 bare)
