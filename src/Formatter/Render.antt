-- ===== src/Formatter/Render.antt =====
-- A pattern against the direct reading of it.
use rapidlog.Prelude.{
  ℕ, ◌+◌, ◌≡◌, refl, sym, ap, ◌∙◌, List, [], ◌∷◌, ◌++◌, Option, none, some, Bool, true, false, ◌==◌,
  if◌then◌else◌, Bool-cases, inl, inr, ◌⊎◌, Text, ascii, decimal, padded_decimal, ℤ, pos, negsuc,
  append_assoc, append-nil,
}
use rapidlog.Level.Names.{level_name, debug_name-level_name}
use rapidlog.Formatter.Defs.{
  Segment, year, month, day, hour, minute, second, whole_secs, frac_sec, level, file, line, body,
  specifier, flush, parse_from, new, FormattedRecord, DateTime, padded_year, two_digits,
  segment_text, segments_text, format,
}

-- A number of the date in its width, with `?` for its digits where the time stands for no date.
unfoldable dated : Text → (DateTime → Text) → Option DateTime → Text
dated unknown shown none = unknown
dated unknown shown (some d) = shown d

-- A year with at least four characters, the sign of one before 0 among them.
unfoldable year_text : ℤ → Text
year_text (pos n) = padded_decimal 4 n
year_text (negsuc n) = ascii "-" ++ padded_decimal 3 (n + 1)

-- The text of a character in a table.
unfoldable find_field : ℕ → List (ℕ × Text) → Option Text
find_field c [] = none
find_field c ((key, text) ∷ more) = if c == key then some text else find_field c more

module _ (odt : Option DateTime) (r : FormattedRecord) where
  -- The character of each specifier, with the text of its field.
  unfoldable fields : List (ℕ × Text)
  unfolding dated year_text level_name
  fields =
      (b'Y', dated (ascii "????") (λ d. year_text d.year_of) odt)
      ∷ (b'm', dated (ascii "??") (λ d. padded_decimal 2 d.month_of) odt)
      ∷ (b'd', dated (ascii "??") (λ d. padded_decimal 2 d.day_of) odt)
      ∷ (b'H', dated (ascii "??") (λ d. padded_decimal 2 d.hour_of) odt)
      ∷ (b'M', dated (ascii "??") (λ d. padded_decimal 2 d.minute_of) odt)
      ∷ (b'S', dated (ascii "??") (λ d. padded_decimal 2 d.second_of) odt)
      ∷ (b's', decimal r.timestamp_secs)
      ∷ (b'f', padded_decimal 9 r.timestamp_nanos)
      ∷ (b'l', level_name r.level_of)
      ∷ (b'F', r.file_of)
      ∷ (b'L', decimal r.line_of)
      ∷ (b'v', r.body_of)
      ∷ []

  -- The reading: a specifier gives the text of its field, everything else itself.
  unfoldable pub render : List ℕ → Text
  unfolding fields find_field
  render [] = []
  render (c ∷ []) = c ∷ []
  render (c ∷ d ∷ cs) = elim (c == b'%') [
    | true ↦ elim (find_field d fields) [
      | some text ↦ text ++ render cs
      | none ↦ b'%' ∷ d ∷ render cs
    ]
    | false ↦ c ∷ render (d ∷ cs)
  ]

  flush_text :
      (lit : Text) (ss : List Segment)
      → segments_text odt r (flush lit ss) ≡ lit ++ segments_text odt r ss
  unfolding segments_text segment_text
  flush_text [] ss = refl
  flush_text (c ∷ cs) ss = refl

  snoc_render : (lit : Text) (c : ℕ) (rest : Text) → (lit ++ (c ∷ [])) ++ rest ≡ lit ++ (c ∷ rest)
  snoc_render lit c rest = append_assoc lit (c ∷ []) rest

  specifier-cases : (d : ℕ) → (specifier d ≡ none) ⊎ ((s : Segment) × (specifier d ≡ some s))
  specifier-cases d = go (specifier d)
    where
      go : (o : Option Segment) → (o ≡ none) ⊎ ((s : Segment) × (o ≡ some s))
      go none = inl refl
      go (some s) = inr (s, refl)

  year_text_lem : (y : ℤ) → padded_year y ≡ year_text y
  unfolding padded_year year_text
  year_text_lem (pos n) = refl
  year_text_lem (negsuc n) = refl

  dated_year :
      (o : Option DateTime)
      → segment_text o r year ≡ dated (ascii "????") (λ d. year_text d.year_of) o
  unfolding segment_text dated
  dated_year none = refl
  dated_year (some d) = year_text_lem d.year_of

  dated_part :
      (part : DateTime → ℕ) (o : Option DateTime)
      → two_digits part o ≡ dated (ascii "??") (λ d. padded_decimal 2 (part d)) o
  unfolding dated
  dated_part part none = refl
  dated_part part (some d) = refl

  abbrev shown_as : Option Segment → Option Text
  shown_as none = none
  shown_as (some s) = some (segment_text odt r s)

  in_table :
      (b : Bool) (s : Segment) (text : Text) (o : Option Segment) (found : Option Text)
      → segment_text odt r s ≡ text
      → shown_as o ≡ found
      → shown_as (if b then some s else o) ≡ (if b then some text else found)
  in_table true s text o found e rest = ap some e
  in_table false s text o found e rest = rest

  -- The arms of the parse and of the formatting, taken together, are the table.
  specifier-find_field : (c : ℕ) → shown_as (specifier c) ≡ find_field c fields
  unfolding specifier segment_text find_field fields
  specifier-find_field c = in_table (c == b'Y') year _ _ _ (dated_year odt) (
      in_table (c == b'm') month _ _ _ (dated_part (λ d. d.month_of) odt) (
        in_table (c == b'd') day _ _ _ (dated_part (λ d. d.day_of) odt) (
          in_table (c == b'H') hour _ _ _ (dated_part (λ d. d.hour_of) odt) (
            in_table (c == b'M') minute _ _ _ (dated_part (λ d. d.minute_of) odt) (
              in_table (c == b'S') second _ _ _ (dated_part (λ d. d.second_of) odt) (
                in_table (c == b's') whole_secs _ _ _ refl (
                  in_table (c == b'f') frac_sec _ _ _ refl (
                    in_table (c == b'l') level _ _ _ (debug_name-level_name r.level_of) (
                      in_table (c == b'F') file _ _ _ refl (
                        in_table (c == b'L') line _ _ _ refl
                          (in_table (c == b'v') body _ _ _ refl refl)))))))))))

  after_specifier :
      (s : Segment) (lit : Text) (ss : List Segment) (t : Text)
      → segments_text odt r ss ≡ t
      → segments_text odt r (flush lit (s ∷ ss)) ≡ lit ++ (segment_text odt r s ++ t)
  unfolding segments_text
  after_specifier s lit ss t e =
      flush_text lit (s ∷ ss) ∙ ap (λ u. lit ++ (segment_text odt r s ++ u)) e

  unknown : (c : ℕ) → specifier c ≡ none → find_field c fields ≡ none
  unknown c u = sym (specifier-find_field c) ∙ ap (shown_as) u

  known :
      (c : ℕ) (s : Segment)
      → specifier c ≡ some s
      → find_field c fields ≡ some (segment_text odt r s)
  known c s u = sym (specifier-find_field c) ∙ ap (shown_as) u

  parse_from_lem :
      (cs : List ℕ) (lit : Text) → segments_text odt r (parse_from cs lit) ≡ lit ++ render cs
  unfolding parse_from render segments_text
  parse_from_lem [] lit = flush_text lit []
  parse_from_lem (c ∷ []) lit = flush_text (lit ++ (c ∷ [])) [] ∙ append-nil (lit ++ (c ∷ []))
  parse_from_lem (c ∷ d ∷ cs) lit = elim (Bool-cases (c == b'%')) [
    | inl e ↦ elim (specifier-cases d) [
      | inl u ↦
          rw (e, parse_from, render)
            (rw (u, unknown d u)
              (flush_text lit (parse_from cs (b'%' ∷ d ∷ []))
                ∙ ap (λ t. lit ++ t) (parse_from_lem cs (b'%' ∷ d ∷ []))))
      | inr (s, u) ↦
          rw (e, parse_from, render)
            (rw (u, known d s u)
              (after_specifier s lit (parse_from cs []) (render cs) (parse_from_lem cs [])))
    ]
    | inr e ↦
        rw (e, parse_from, render)
          (parse_from_lem (d ∷ cs) (lit ++ (c ∷ [])) ∙ snoc_render lit c (render (d ∷ cs)))
  ]

-- Formatting with a parsed pattern gives the direct reading of the pattern: `%Y`, `%m`, `%d`, `%H`, `%M`
-- and `%S` are replaced by the year, month, day, hour, minute and second of the date in at least four and
-- two digits, or by `????` and `??` where the time stands for no date; `%s` by the seconds, `%f` by nine
-- digits of nanoseconds, `%l` by the level's name, `%F` and `%L` by the file and line, `%v` by the body;
-- and all other text, unknown specifiers and a last `%` too, stays.
pub format-new :
    (from_unix_timestamp : ℕ → Option DateTime) (pattern : Text) (r : FormattedRecord)
    → format from_unix_timestamp (new pattern) r
      ≡ render (from_unix_timestamp r.timestamp_secs) r pattern
unfolding format new
format-new from_unix_timestamp pattern r =
    parse_from_lem (from_unix_timestamp r.timestamp_secs) r pattern []
