-- ===== src/Arg/Format.antt =====
-- src/arg/schema.rs, lines 83 to 343: the text of a payload under its schema.
use rapidlog.Prelude.{
  ℕ, zero, suc, ◌+◌, ◌%◌, ◌^◌, List, [], ◌∷◌, ◌++◌, none, some, Bool, true, false, Run, ok,
  out_of_fuel, ◌>>=◌, index, slice, slice_from, bit_and, ltb, leb, ◌==◌, if◌then◌else◌, length,
  take, drop, get_elem?, from_le, Text, ascii, decimal, decimal_signed, utf8_or_empty, char_text,
}
use rapidlog.Arg.Opcode.{
  Category, unit, signed_int, unsigned_int, float, str, char, bool, seq, tuple, struct, enum,
  user_defined, unknown, category, size_mask, size_for_k, read_unsigned_ne, read_signed_ne, u16_at,
  op_unit,
}
use rapidlog.Arg.Measure.{part_count, measure_schema}

-- `struct UserFormatter`: a function of the program that logs. It takes the payload, and returns the
-- bytes it used and the text it wrote. (Its `fmt::Result` is dropped by the caller.)
abbrev pub UserFormatter : Type 0
UserFormatter = List ℕ → ℕ × Text

-- What formatting needs besides schema and payload: the string tables, the user's formatters, and
-- the standard library's `Display` of floats, given their bits.
pub record Context : Type 0 where
  pub string_tables : List (List ℕ)
  pub user_formatters : List UserFormatter
  pub display_f32 : ℕ → Text
  pub display_f64 : ℕ → Text

-- The bytes up to the first 0, or to the end.
unfoldable pub until_nul : List ℕ → List ℕ
until_nul [] = []
until_nul (b ∷ bs) = if b == 0 then [] else b ∷ until_nul bs

abbrev table_at : List (List ℕ) → ℕ → List ℕ
table_at tables i = elim (get_elem? tables i) [ none ↦ [] | some t ↦ t ]

-- `read_str_from_table`. A start behind the table's end gives no bytes, as the early return does.
unfoldable pub read_str_from_table : ℕ → ℕ → List (List ℕ) → Text
unfolding until_nul
read_str_from_table st_idx st_off tables =
    let table = table_at tables st_idx in
    if leb (length table) st_off then [] else utf8_or_empty (until_nul (drop st_off table))

-- What `format_payload` returns beside the text that it writes.
abbrev pub Formatted : Type 0
Formatted = ℕ × Text

abbrev pub Formatter : Type 0
Formatter = List ℕ → List ℕ → Run Formatted

-- `if i > 0 { write!(w, ", ") }`.
abbrev pub separator : ℕ → Text
separator zero = []
separator (suc i) = ascii ", "

-- Lines 116 to 133: the arms of the integers. A short payload is left alone.
unfoldable pub format_signed : ℕ → List ℕ → Run Formatted
format_signed k payload =
    let size = size_for_k k in
    if ltb (length payload) size
    then ok (0, [])
    else (do v ← read_signed_ne payload k; ok (size, decimal_signed v))

unfoldable pub format_unsigned : ℕ → List ℕ → Run Formatted
format_unsigned k payload =
    let size = size_for_k k in
    if ltb (length payload) size
    then ok (0, [])
    else (do v ← read_unsigned_ne payload k; ok (size, decimal v))

-- Lines 134 to 154: the arm of the floats. Any other size writes nothing.
unfoldable pub float_text : Context → ℕ → List ℕ → Text
float_text c (suc (suc (suc zero))) payload = c.display_f32 (from_le (take 4 payload))
float_text c (suc (suc (suc (suc zero)))) payload = c.display_f64 (from_le (take 8 payload))
float_text c _ payload = []

unfoldable pub format_float : Context → ℕ → List ℕ → Run Formatted
unfolding float_text
format_float c k payload =
    let size = size_for_k k in
    if ltb (length payload) size then ok (0, []) else ok (size, float_text c k payload)

-- Lines 155 to 167. `count_size + len` is a `usize` sum.
unfoldable pub format_str : ℕ → List ℕ → Run Formatted
format_str k payload =
    let count_size = size_for_k k in
    if ltb (length payload) count_size then ok (0, []) else do
      len ← read_unsigned_ne payload k
      let end = (count_size + len) % 2 ^ 64
      if ltb (length payload) end
          then ok (count_size, [])
          else (do s ← slice payload count_size end; ok (end, utf8_or_empty s))

-- Lines 168 to 177.
unfoldable pub format_char : List ℕ → Run Formatted
format_char payload =
    if ltb (length payload) 4
    then ok (0, [])
    else ok (4, (elim (char_text (from_le (take 4 payload))) [ none ↦ [] | some t ↦ t ]))

-- Lines 178 to 184.
unfoldable pub format_bool : List ℕ → Run Formatted
format_bool [] = ok (0, [])
format_bool (b ∷ bs) = ok (1, if b == 0 then ascii "false" else ascii "true")

-- The loop of lines 195 to 207 from the element `i` on, with `n` elements to come: the position
-- behind the last one, and the text.
unfoldable pub format_items : Formatter → List ℕ → ℕ → ℕ → List ℕ → ℕ → Run Formatted
format_items format elem zero i payload pos = ok (pos, [])
format_items format elem (suc n) i payload pos = do
  rest ← slice_from payload pos
  (used, t) ← format elem rest
  (end, more) ← format_items format elem n (i + 1) payload (pos + used)
  ok (end, separator i ++ (t ++ more))

-- Lines 185 to 210.
unfoldable pub format_seq : Formatter → ℕ → List ℕ → List ℕ → Run Formatted
unfolding format_items
format_seq format k schema payload =
    let count_size = size_for_k k in
    if ltb (length payload) count_size then ok (0, []) else do
      count ← read_unsigned_ne payload k
      inner ← slice_from schema 1
      len ← measure_schema inner
      elem ← slice schema 1 (1 + len)
      (pos, t) ← format_items format elem count 0 payload count_size
      ok (pos, ascii "[" ++ (t ++ ascii "]"))

-- The loop of lines 221 to 235.
unfoldable pub format_parts : Formatter → ℕ → ℕ → List ℕ → ℕ → List ℕ → ℕ → Run Formatted
format_parts format zero i schema spos payload pos = ok (pos, [])
format_parts format (suc n) i schema spos payload pos = do
  inner ← slice_from schema spos
  len ← measure_schema inner
  part ← slice schema spos (spos + len)
  rest ← slice_from payload pos
  (used, t) ← format part rest
  (end, more) ← format_parts format n (i + 1) schema (spos + len) payload (pos + used)
  ok (end, separator i ++ (t ++ more))

-- Lines 211 to 238.
unfoldable pub format_tuple : Formatter → ℕ → List ℕ → List ℕ → Run Formatted
unfolding format_parts
format_tuple format k schema payload = do
  (n, start) ← part_count k schema
  (pos, t) ← format_parts format n 0 schema start payload 0
  ok (pos, ascii "(" ++ (t ++ ascii ")"))

-- The loop of lines 250 to 268.
unfoldable pub format_fields :
    Formatter → List (List ℕ) → ℕ → ℕ → ℕ → List ℕ → ℕ → List ℕ → ℕ → Run Formatted
format_fields format tables st_idx zero i schema spos payload pos = ok (pos, [])
format_fields format tables st_idx (suc n) i schema spos payload pos = do
  st_off ← u16_at schema spos
  inner ← slice_from schema (spos + 2)
  len ← measure_schema inner
  part ← slice schema (spos + 2) (spos + 2 + len)
  rest ← slice_from payload pos
  (used, t) ← format part rest
  (end, more) ←
      format_fields format tables st_idx n (i + 1) schema (spos + 2 + len) payload (pos + used)
  ok (end, separator i ++ (read_str_from_table st_idx st_off tables ++ (ascii ": " ++ (t ++ more))))

-- Lines 239 to 271.
unfoldable pub format_struct : Formatter → List (List ℕ) → ℕ → List ℕ → List ℕ → Run Formatted
unfolding format_fields
format_struct format tables k schema payload = do
  (n, start) ← part_count k schema
  st_idx ← index schema start
  (pos, t) ← format_fields format tables st_idx n 0 schema (start + 1) payload 0
  ok (pos, ascii "{" ++ (t ++ ascii "}"))

-- The chosen variant: its name, and where its schema starts and ends.
pub record Found : Type 0 where
  pub name : Text
  pub schema_start : ℕ
  pub schema_end : ℕ

-- The loop of lines 293 to 302: it goes over all variants and keeps the one numbered `var_idx`.
unfoldable pub find_variant : List (List ℕ) → ℕ → ℕ → ℕ → ℕ → List ℕ → ℕ → Found → Run Found
find_variant tables st_idx var_idx zero i schema spos found = ok found
find_variant tables st_idx var_idx (suc n) i schema spos found = do
  st_off ← u16_at schema spos
  inner ← slice_from schema (spos + 2)
  len ← measure_schema inner
  let here : Found = record {
    name = read_str_from_table st_idx st_off tables;
    schema_start = spos + 2;
    schema_end = spos + 2 + len;
  }
  find_variant tables st_idx var_idx n (i + 1) schema (spos + 2 + len)
      (if i == var_idx then here else found)

-- A variant whose schema is empty or the unit is written as its name alone.
unfoldable pub is_bare : List ℕ → Bool
is_bare [] = true
is_bare (op ∷ []) = op == op_unit
is_bare (op ∷ b ∷ s) = false

-- Lines 304 to 308: the schema of the chosen variant, empty if there is none.
unfoldable pub variant_schema : List ℕ → Found → Run (List ℕ)
variant_schema schema found =
    if ltb found.schema_start found.schema_end
    then slice schema found.schema_start found.schema_end
    else ok []

-- Lines 310 to 326: the variant's name, and its payload in parentheses if it has one.
unfoldable pub format_variant : Formatter → Text → List ℕ → ℕ → List ℕ → Run Formatted
unfolding is_bare
format_variant format name var_schema pos payload =
    if is_bare var_schema then ok (pos, name) else do
      rest ← slice_from payload pos
      (used, t) ← format var_schema rest
      ok (pos + used, name ++ (ascii "(" ++ (t ++ ascii ")")))

-- Lines 284 to 326, behind the check of the payload's length.
unfoldable pub format_chosen :
    Formatter → List (List ℕ) → ℕ → ℕ → ℕ → List ℕ → ℕ → List ℕ → Run Formatted
unfolding find_variant variant_schema format_variant
format_chosen format tables vdx_k st_idx n schema spos payload = do
  var_idx ← read_unsigned_ne payload vdx_k
  found ←
      find_variant tables st_idx var_idx n 0 schema spos
        (record { name = []; schema_start = 0; schema_end = 0 })
  var_schema ← variant_schema schema found
  format_variant format found.name var_schema (size_for_k vdx_k) payload

-- Lines 272 to 327.
unfoldable pub format_enum : Formatter → List (List ℕ) → ℕ → List ℕ → List ℕ → Run Formatted
unfolding format_chosen
format_enum format tables k schema payload = do
  (n, start) ← part_count k schema
  vdx_k ← index schema start
  st_idx ← index schema (start + 1)
  let rest = format_chosen format tables vdx_k st_idx n schema (start + 2) payload
  if ltb (length payload) (size_for_k vdx_k) then ok (0, []) else rest

-- Lines 328 to 340.
unfoldable pub format_user : List UserFormatter → List ℕ → List ℕ → Run Formatted
format_user formatters schema payload = if ltb (length schema) 2 then ok (0, []) else do
  idx ← index schema 1
  elim (get_elem? formatters idx) [ some f ↦ ok (f payload) | none ↦ ok (0, []) ]

-- The arms of the match.
unfoldable pub format_arm : Context → Formatter → Category → ℕ → Formatter
unfolding format_signed format_unsigned format_float format_str format_char format_bool format_seq
    format_tuple format_struct format_enum format_user
format_arm c format unit k schema payload = ok (0, ascii "()")
format_arm c format signed_int k schema payload = format_signed k payload
format_arm c format unsigned_int k schema payload = format_unsigned k payload
format_arm c format float k schema payload = format_float c k payload
format_arm c format str k schema payload = format_str k payload
format_arm c format char k schema payload = format_char payload
format_arm c format bool k schema payload = format_bool payload
format_arm c format seq k schema payload = format_seq format k schema payload
format_arm c format tuple k schema payload = format_tuple format k schema payload
format_arm c format struct k schema payload = format_struct format c.string_tables k schema payload
format_arm c format enum k schema payload = format_enum format c.string_tables k schema payload
format_arm c format user_defined k schema payload = format_user c.user_formatters schema payload
format_arm c format unknown k schema payload = ok (0, [])

-- Fuel bounds the nesting of schemas.
unfoldable pub format_with : ℕ → Context → Formatter
unfolding format_arm
format_with zero c schema payload = out_of_fuel
format_with (suc fuel) c [] payload = ok (0, [])
format_with (suc fuel) c (op ∷ s) payload =
    format_arm c (format_with fuel c) (category op) (bit_and op size_mask) (op ∷ s) payload

-- `format_payload`. A nested schema is shorter than the one around it, so the length suffices.
unfoldable pub format_payload : Context → Formatter
unfolding format_with
format_payload c schema payload = format_with (length schema + 1) c schema payload
