-- ===== src/Body/Defs.antt =====
-- src/arg/schema.rs, lines 347 to 476.
use rapidlog.Prelude.{
  ℕ, zero, suc, ◌+◌, List, [], ◌∷◌, ◌++◌, Option, none, some, Run, ok, out_of_fuel, ◌>>=◌, slice,
  slice_from, leb, ◌==◌, if◌then◌else◌, length, get_elem?, Text,
}
use rapidlog.Arg.Measure.{measure_schema}
use rapidlog.Arg.Format.{Context, Formatted, format_payload}
use rapidlog.Metadata.{Metadata}

-- The `Display` of floats, from their bits: the standard library's.
pub record FloatDisplay : Type 0 where
  pub display_f32 : ℕ → Text
  pub display_f64 : ℕ → Text

-- The loop of `parse_schema_offsets`, with `n` arguments to come: the start and the length of each
-- schema. It stops where the bytes end.
unfoldable pub offsets_from : ℕ → ℕ → List ℕ → Run (List (ℕ × ℕ))
offsets_from zero pos schemas = ok []
offsets_from (suc n) pos schemas =
    let rest = do
      tail ← slice_from schemas pos
      len ← measure_schema tail
      more ← offsets_from n (pos + len) schemas
      ok ((pos, len) ∷ more)
    in if leb (length schemas) pos then ok [] else rest

-- `parse_schema_offsets(raw, arg_count, true)`: the count byte is skipped.
unfoldable pub parse_schema_offsets : List ℕ → ℕ → Run (List (ℕ × ℕ))
unfolding offsets_from
parse_schema_offsets schemas arg_count = offsets_from arg_count 1 schemas

-- `struct SchemaInfo`.
pub record SchemaInfo : Type 0 where
  pub raw : List ℕ
  pub offsets : List (ℕ × ℕ)

-- `get_schemas`. The cache of offsets by the address of the static bytes changes no result.
unfoldable pub get_schemas : Metadata → Run (Option SchemaInfo)
unfolding parse_schema_offsets
get_schemas m = go m.schema_provider
  where
    go : List ℕ → Run (Option SchemaInfo)
    go [] = ok none
    go (count ∷ raw) = if count == 0 then ok none else do
      offsets ← parse_schema_offsets (count ∷ raw) count
      ok (some (record { raw = count ∷ raw; offsets = offsets }))

-- An argument gets its own string table alone, if it has one.
unfoldable pub arg_string_tables : ℕ → List (List ℕ) → List (List ℕ)
arg_string_tables idx tables = elim (get_elem? tables idx) [ some t ↦ t ∷ [] | none ↦ [] ]

module _ (floats : FloatDisplay) where
  -- The call of `format_payload` for the argument numbered `idx`, whose schema is the `len` bytes
  -- from `start` on, with its payload at `pos`.
  unfoldable pub format_arg : Metadata → SchemaInfo → ℕ → ℕ → ℕ → List ℕ → ℕ → Run Formatted
  unfolding arg_string_tables
  format_arg m info idx start len payload pos = do
    schema ← slice info.raw start (start + len)
    rest ← slice_from payload pos
    let c : Context = record {
      string_tables = arg_string_tables idx m.string_tables_provider;
      user_formatters = m.user_formatters_provider;
      display_f32 = floats.display_f32;
      display_f64 = floats.display_f64;
    }
    format_payload c schema rest

  -- The loop of `decode_args` over the offsets that are left.
  unfoldable pub decode_from :
      Metadata → SchemaInfo → ℕ → List (ℕ × ℕ) → List ℕ → ℕ → Run (List Text)
  unfolding format_arg
  decode_from m info idx [] payload pos = ok []
  decode_from m info idx ((start, len) ∷ offsets) payload pos = do
    (used, t) ← format_arg m info idx start len payload pos
    more ← decode_from m info (idx + 1) offsets payload (pos + used)
    ok (t ∷ more)

  -- `decode_args`.
  unfoldable pub decode_args : Metadata → List ℕ → Run (List Text)
  unfolding get_schemas decode_from
  decode_args m payload = do
    found ← get_schemas m
    elim found [ none ↦ ok [] | some info ↦ decode_from m info 0 info.offsets payload 0 ]

-- `text.find(c)`, as the text before `c` and the text behind it.
unfoldable pub split_at : ℕ → Text → Option (Text × Text)
split_at c [] = none
split_at c (b ∷ bs) =
    if b == c
    then some ([], bs)
    else elim (split_at c bs) [ none ↦ none | some (before, after) ↦ some (b ∷ before, after) ]

module _ (floats : FloatDisplay) where
  -- The call for the next argument in `format_body`, if an argument is left: the bytes it used, the
  -- text it wrote and the offsets behind it.
  unfoldable pub format_next : Metadata → SchemaInfo → ℕ → List (ℕ × ℕ) → List ℕ → ℕ → Run Formatted
  unfolding format_arg
  format_next m info idx [] payload pos = ok (0, [])
  format_next m info idx ((start, len) ∷ offsets) payload pos =
      format_arg floats m info idx start len payload pos

  abbrev rest_of : List (ℕ × ℕ) → List (ℕ × ℕ)
  rest_of [] = []
  rest_of (o ∷ os) = os

  -- The loop of `format_body`, and the `push_str(remaining)` behind it. `offsets` are those not yet
  -- used. Where no `}` follows, the text before the `{` is pushed, and then all that remained.
  unfoldable pub body_loop :
      ℕ → Metadata → SchemaInfo → ℕ → List (ℕ × ℕ) → List ℕ → ℕ → Text → Run Text
  unfolding split_at format_next
  body_loop zero m info idx offsets payload pos remaining = out_of_fuel
  body_loop (suc fuel) m info idx offsets payload pos remaining = elim (split_at b'{' remaining) [
    | none ↦ ok remaining
    | some (before, after_brace) ↦ elim (split_at b'}' after_brace) [
      | none ↦ ok (before ++ remaining)
      | some (spec, after) ↦ do
        (used, t) ← format_next m info idx offsets payload pos
        more ← body_loop fuel m info (idx + 1) (rest_of offsets) payload (pos + used) after
        ok (before ++ (t ++ more))
    ]
  ]

  -- `format_body`. Each round takes a `{` off the format string.
  unfoldable pub format_body : Metadata → List ℕ → Run Text
  unfolding get_schemas body_loop
  format_body m payload = do
    found ← get_schemas m
    elim found [
      | none ↦ ok m.format_str
      | some info ↦ body_loop (length m.format_str + 1) m info 0 info.offsets payload 0 m.format_str
    ]
