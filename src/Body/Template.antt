-- ===== src/Body/Template.antt =====
-- `format_body` on a format string that is made of literals and holes.
use rapidlog.Prelude.{
  ℕ, zero, suc, ◌+◌, ◌≤◌, ◌<◌, ◌≡◌, refl, ap, ◌∙◌, List, [], ◌∷◌, ◌++◌, append_assoc, true, false,
  none, some, ok, slice_from_at, slice_at, length, length-append, All, arith, Text, ◌==◌,
  lt→leb_false,
}
use rapidlog.Arg.Format.{Context}
use rapidlog.Arg.Delimited.{IsDelimited, measure_schema_lem}
use rapidlog.Arg.Read.{IsRead, format_payload_lem}
use rapidlog.Metadata.{Metadata}
use rapidlog.Body.Defs.{
  FloatDisplay, SchemaInfo, offsets_from, parse_schema_offsets, get_schemas, arg_string_tables,
  split_at, format_arg, format_next, body_loop, format_body,
}

-- The text ends, or a literal, a hole with what stands between its braces, and more follow.
pub data Template : Type 0 where
  end : Text → Template
  hole : Text → Text → Template → Template

-- The format string.
unfoldable pub printed : Template → Text
printed (end t) = t
printed (hole literal spec more) = literal ++ (b'{' ∷ (spec ++ (b'}' ∷ printed more)))

-- Each hole is filled by the next text, or by nothing when all are used.
unfoldable pub filled : Template → List Text → Text
filled (end t) texts = t
filled (hole literal spec more) [] = literal ++ filled more []
filled (hole literal spec more) (t ∷ texts) = literal ++ (t ++ filled more texts)

abbrev pub Lacks : ℕ → Text → Type 0
Lacks c = All (λ (b : ℕ). (b == c) ≡ false)

-- No literal has an opening brace, and nothing between braces has a closing one.
abbrev pub IsTemplate : Template → Type 0
IsTemplate (end t) = Lacks b'{' t
IsTemplate (hole literal spec more) = Lacks b'{' literal × Lacks b'}' spec × IsTemplate more

-- An argument: its schema, its bytes, and its text.
pub record Shape : Type 0 where
  pub schema : List ℕ
  pub bytes : List ℕ
  pub text : Text

abbrev pub schemas_of : List Shape → List ℕ
schemas_of [] = []
schemas_of (a ∷ args) = a.schema ++ schemas_of args

abbrev pub payload_of : List Shape → List ℕ
payload_of [] = []
payload_of (a ∷ args) = a.bytes ++ payload_of args

abbrev pub texts_of : List Shape → List Text
texts_of [] = []
texts_of (a ∷ args) = a.text ∷ texts_of args

offsets_of : ℕ → List Shape → List (ℕ × ℕ)
offsets_of pos [] = []
offsets_of pos (a ∷ args) = (pos, length a.schema) ∷ offsets_of (pos + length a.schema) args

-- The context of the argument numbered `idx`.
abbrev pub arg_context : FloatDisplay → Metadata → ℕ → Context
arg_context floats m idx = record {
  string_tables = arg_string_tables idx m.string_tables_provider;
  user_formatters = m.user_formatters_provider;
  display_f32 = floats.display_f32;
  display_f64 = floats.display_f64;
}

-- The arguments from the one numbered `idx` on.
abbrev pub AreShapes : FloatDisplay → Metadata → ℕ → List Shape → Type 0
AreShapes floats m idx [] = Unit
AreShapes floats m idx (a ∷ args) =
    (IsDelimited a.schema × IsRead (arg_context floats m idx) a.schema a.bytes a.text)
    × AreShapes floats m (idx + 1) args

offsets_from_lem :
    (floats : FloatDisplay) (m : Metadata) (idx pos : ℕ) (raw pre : List ℕ) (args : List Shape)
    → raw ≡ pre ++ schemas_of args
    → pos ≡ length pre
    → AreShapes floats m idx args
    → offsets_from (length args) pos raw ≡ ok (offsets_of pos args)
unfolding offsets_from offsets_of
offsets_from_lem floats m idx pos raw pre [] e at h = refl
offsets_from_lem floats m idx pos raw pre (a ∷ args) e at ((d, r), h) =
    let more = schemas_of args in
    let whole : length raw ≡ length pre + (length a.schema + length more) =
      ap (λ (x : List ℕ). length x) e
      ∙ omega (arith, length-append pre (a.schema ++ more), length-append a.schema more) in
    rw
      (
        lt→leb_false (length raw) pos (omega (arith, d.some_byte)),
        slice_from_at raw pre (a.schema ++ more) pos e at,
        measure_schema_lem a.schema more d,
        offsets_from_lem floats m (idx + 1) (pos + length a.schema) raw (pre ++ a.schema) args
            (e ∙ simp append_assoc) (omega (arith, length-append pre a.schema)) h,
      )
      refl

same : (c : ℕ) → (c == c) ≡ true
same c = ground arith

split_at-append :
    (c : ℕ) (t rest : Text) → Lacks c t → split_at c (t ++ (c ∷ rest)) ≡ some (t, rest)
unfolding split_at
split_at-append c [] rest h = rw (same c) refl
split_at-append c (b ∷ t) rest (e, h) = rw (e, split_at-append c t rest h) refl

split_at-none : (c : ℕ) (t : Text) → Lacks c t → split_at c t ≡ none
unfolding split_at
split_at-none c [] h = refl
split_at-none c (b ∷ t) (e, h) = rw (e, split_at-none c t h) refl

holes : Template → ℕ
holes (end t) = 0
holes (hole literal spec more) = 1 + holes more

holes-le : (t : Template) → holes t ≤ length (printed t)
unfolding holes printed
holes-le (end t) = omega arith
holes-le (hole literal spec more) =
    let tail = b'}' ∷ printed more in
    omega
      (arith, holes-le more, length-append literal (b'{' ∷ (spec ++ tail)), length-append spec tail)

module _ (floats : FloatDisplay) (m : Metadata) where
  format_next_lem :
      (idx start pos : ℕ) (info : SchemaInfo) (pre ppre payload rest : List ℕ) (a : Shape)
      (args : List Shape)
      → info.raw ≡ pre ++ (a.schema ++ schemas_of args)
      → start ≡ length pre
      → payload ≡ ppre ++ (a.bytes ++ rest)
      → pos ≡ length ppre
      → AreShapes floats m idx (a ∷ args)
      → format_next floats m info idx (offsets_of start (a ∷ args)) payload pos
        ≡ ok (length a.bytes, a.text)
  unfolding format_next format_arg offsets_of
  format_next_lem idx start pos info pre ppre payload rest a args e at ep atp ((d, r), h) =
      rw
        (
          slice_at info.raw pre a.schema (schemas_of args) start (start + length a.schema) e at
              refl,
          slice_from_at payload ppre (a.bytes ++ rest) pos ep atp,
          format_payload_lem (arg_context floats m idx) a.schema a.bytes rest a.text r,
        )
        refl

  body_loop_lem :
      (fuel idx start pos : ℕ) (info : SchemaInfo) (pre ppre payload rest : List ℕ) (t : Template)
      (args : List Shape)
      → holes t < fuel
      → IsTemplate t
      → info.raw ≡ pre ++ schemas_of args
      → start ≡ length pre
      → payload ≡ ppre ++ (payload_of args ++ rest)
      → pos ≡ length ppre
      → AreShapes floats m idx args
      → body_loop floats fuel m info idx (offsets_of start args) payload pos (printed t)
        ≡ ok (filled t (texts_of args))
  unfolding body_loop offsets_of holes printed filled
  body_loop_lem zero idx start pos info pre ppre payload rest t args lt ht e at ep atp h =
      absurd (omega arith)
  body_loop_lem (suc fuel) idx start pos info pre ppre payload rest (end t) args lt ht e at ep atp
        h =
      rw (split_at-none b'{' t ht, body_loop) refl
  body_loop_lem (suc fuel) idx start pos info pre ppre payload rest (hole literal spec t) [] lt
        (hl, hs, ht) e at ep atp h =
      rw
        (
          split_at-append b'{' literal (spec ++ (b'}' ∷ printed t)) hl,
          body_loop,
          split_at-append b'}' spec (printed t) hs,
          body_loop_lem fuel (idx + 1) start (pos + 0) info pre ppre payload rest t [] (omega arith)
              ht e at ep (omega arith) tt,
        )
        refl
  body_loop_lem (suc fuel) idx start pos info pre ppre payload rest (hole literal spec t) (a ∷ args)
        lt (hl, hs, ht) e at ep atp h =
      rw
        (
          split_at-append b'{' literal (spec ++ (b'}' ∷ printed t)) hl,
          body_loop,
          split_at-append b'}' spec (printed t) hs,
          format_next_lem idx start pos info pre ppre payload (payload_of args ++ rest) a args e at
              (ep ∙ simp append_assoc) atp h,
          body_loop_lem fuel (idx + 1) (start + length a.schema) (pos + length a.bytes) info
              (pre ++ a.schema) (ppre ++ a.bytes) payload rest t args (omega arith) ht
              (e ∙ simp append_assoc) (omega (arith, length-append pre a.schema))
              (ep ∙ simp append_assoc) (omega (arith, length-append ppre a.bytes)) h.1,
        )
        refl

  -- The format string is made of literals without `{` and of holes `{...}` without a `}` within, so that
  -- every `{` is closed. The metadata's schemas are the count of the arguments, at least one, and their
  -- schemas, each of which tells its own length and with it, in the argument's own context, the
  -- argument's bytes are read as its text. The payload is the arguments' bytes alone, with anything
  -- behind them: `format_body` gives the format string with the arguments' texts in its holes, in their
  -- order; holes without an argument become empty, and arguments without a hole are left out.
  pub format_body_lem :
      (t : Template) (args : List Shape) (rest : List ℕ)
      → 1 ≤ length args
      → IsTemplate t
      → m.format_str ≡ printed t
      → m.schema_provider ≡ length args ∷ schemas_of args
      → AreShapes floats m 0 args
      → format_body floats m (payload_of args ++ rest) ≡ ok (filled t (texts_of args))
  unfolding format_body get_schemas parse_schema_offsets
  format_body_lem t args rest some_arg ht ef es h =
      let raw = length args ∷ schemas_of args in
      let found : get_schemas m ≡ ok (some (record { raw = raw; offsets = offsets_of 1 args })) =
        rw
          (
            es,
            get_schemas,
            not_zero (length args) some_arg,
            offsets_from_lem floats m 0 1 raw (length args ∷ []) args refl refl h,
          )
          refl in
      let info : SchemaInfo = record { raw = raw; offsets = offsets_of 1 args } in
      rw found (
        ap
          (λ x.
            body_loop floats (length x + 1) m info 0 (offsets_of 1 args) (payload_of args ++ rest) 0
              x)
          ef
        ∙ body_loop_lem (length (printed t) + 1) 0 1 0 info (length args ∷ []) []
            (payload_of args ++ rest) rest t args (omega (arith, holes-le t)) ht refl refl refl refl
            h)
    where
      not_zero : (n : ℕ) → 1 ≤ n → (n == 0) ≡ false
      not_zero n h = ground arith

  -- Without arguments the format string is the text, its braces included.
  pub format_body-no_args :
      (payload : List ℕ)
      → m.schema_provider ≡ 0 ∷ []
      → format_body floats m payload ≡ ok m.format_str
  unfolding format_body get_schemas
  format_body-no_args payload e = rw (e, get_schemas) refl
