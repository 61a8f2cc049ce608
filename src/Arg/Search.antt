-- ===== src/Arg/Search.antt =====
-- The search of `format_payload` for the variant that a number chooses.
use rapidlog.Prelude.{
  ℕ, suc, ◌+◌, ◌<◌, ◌≡◌, refl, ap, ◌∙◌, List, [], ◌∷◌, ◌++◌, append_assoc, true, false, ok,
  slice_from_at, length, length-append, le_bytes, All, arith, Text, ◌==◌, if◌then◌else◌,
}
use rapidlog.Arg.Format.{Context, Found, read_str_from_table, find_variant}
use rapidlog.Arg.Heads.{u16_at_lem}
use rapidlog.Arg.Delimited.{IsDelimited, measure_schema_lem, layout}

-- The offset of a variant's name, and its schema.
abbrev pub Variant : Type 0
Variant = ℕ × List ℕ

abbrev pub variants : List Variant → List (List ℕ × List ℕ)
variants [] = []
variants ((off, s) ∷ vs) = (le_bytes 2 off, s) ∷ variants vs

abbrev pub IsVariant : Variant → Type 0
IsVariant v = (v.0 < 65536) × IsDelimited v.1

-- A variant's schema that starts at `start`.
abbrev pub found_at : Text → ℕ → ℕ → Found
found_at name start len = record { name = name; schema_start = start; schema_end = start + len }

step_ne : (i idx : ℕ) → i < idx → (i == idx) ≡ false
step_ne i idx h = ground arith

step_past : (i idx : ℕ) → idx < i → (i == idx) ≡ false
step_past i idx h = ground arith

step_eq : (i idx : ℕ) → i ≡ idx → (i == idx) ≡ true
step_eq i idx h = ground arith

module _ (c : Context) (st_idx idx : ℕ) where
  -- The loop reads a variant's head, and goes on behind its schema.
  find_step :
      (n i spos off : ℕ) (s schema pre more : List ℕ) (found : Found)
      → schema ≡ pre ++ (le_bytes 2 off ++ (s ++ more))
      → spos ≡ length pre
      → off < 65536
      → IsDelimited s
      → find_variant c.string_tables st_idx idx (suc n) i schema spos found
        ≡ find_variant c.string_tables st_idx idx n (i + 1) schema (spos + 2 + length s) (
            if i == idx
            then record {
              name = read_str_from_table st_idx off c.string_tables;
              schema_start = spos + 2;
              schema_end = spos + 2 + length s;
            }
            else found)
  unfolding find_variant
  find_step n i spos off s schema pre more found e at small d =
      rw
        (
          u16_at_lem schema pre (s ++ more) spos off e at small,
          slice_from_at schema (pre ++ le_bytes 2 off) (s ++ more) (spos + 2)
              (e ∙ simp append_assoc) (omega (arith, length-append pre (le_bytes 2 off))),
          measure_schema_lem s more d,
        )
        refl

  find_after :
      (i spos : ℕ) (schema pre : List ℕ) (vs : List Variant) (found : Found)
      → schema ≡ pre ++ layout (variants vs)
      → spos ≡ length pre
      → idx < i
      → All IsVariant vs
      → find_variant c.string_tables st_idx idx (length vs) i schema spos found ≡ ok found
  unfolding find_variant
  find_after i spos schema pre [] found e at lt h = refl
  find_after i spos schema pre ((off, s) ∷ vs) found e at lt (v, h) =
      find_step (length vs) i spos off s schema pre (layout (variants vs)) found e at v.0 v.1
      ∙ rw (step_past i idx lt) (
          find_after (i + 1) (spos + 2 + length s) schema (pre ++ (le_bytes 2 off ++ s)) vs found
            (e ∙ simp append_assoc) (omega (arith, length-append pre (le_bytes 2 off ++ s)))
            (omega arith) h)

  pub find_variant_lem :
      (i spos off : ℕ) (s schema pre : List ℕ) (before after : List Variant) (found : Found)
      → schema ≡ pre ++ layout (variants (before ++ ((off, s) ∷ after)))
      → spos ≡ length pre
      → i + length before ≡ idx
      → All IsVariant (before ++ ((off, s) ∷ after))
      → find_variant c.string_tables st_idx idx
          (length (before ++ ((off, s) ∷ after)))
          i
          schema
          spos
          found
        ≡ ok (
            found_at
              (read_str_from_table st_idx off c.string_tables)
              (spos + length (layout (variants before)) + 2)
              (length s))
  find_variant_lem i spos off s schema pre [] after found e at here (v, h) =
      find_step (length after) i spos off s schema pre (layout (variants after)) found e at v.0 v.1
      ∙ rw (step_eq i idx (omega arith)) (
          find_after (i + 1) (spos + 2 + length s) schema (pre ++ (le_bytes 2 off ++ s)) after _
            (e ∙ simp append_assoc) (omega (arith, length-append pre (le_bytes 2 off ++ s)))
            (omega arith) h
          ∙ ap (λ n. ok (found_at (read_str_from_table st_idx off c.string_tables) n (length s)))
              (omega arith))
  find_variant_lem i spos off s schema pre ((off', s') ∷ before) after found e at here (v, h) =
      let more = layout (variants (before ++ ((off, s) ∷ after))) in
      find_step (length (before ++ ((off, s) ∷ after))) i spos off' s' schema pre more found e at
        v.0 v.1
      ∙ rw (step_ne i idx (omega arith)) (
          find_variant_lem (i + 1) (spos + 2 + length s') off s schema
            (pre ++ (le_bytes 2 off' ++ s')) before after found (e ∙ simp append_assoc)
            (omega (arith, length-append pre (le_bytes 2 off' ++ s'))) (omega arith) h
          ∙ ap (λ n. ok (found_at (read_str_from_table st_idx off c.string_tables) n (length s)))
              (omega (
                arith,
                length-append (le_bytes 2 off') (s' ++ layout (variants before)),
                length-append s' (layout (variants before)),
              )))
