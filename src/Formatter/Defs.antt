-- ===== src/Formatter/Defs.antt =====
-- src/formatter.rs: the parse of a pattern into segments, and the line that they make of a record.
-- A text is its UTF-8 bytes. No byte of a character of several bytes is an ASCII one, so that a walk
-- over the bytes finds the same specifiers as one over the characters.
use rapidlog.Prelude.{
  ℕ, ◌+◌, List, [], ◌∷◌, ◌++◌, Option, none, some, true, false, ◌==◌, if◌then◌else◌, Text, ascii,
  decimal, padded_decimal, ℤ, pos, negsuc,
}
use rapidlog.Level.{LogLevel, debug_name}

-- `enum Segment`.
pub data Segment : Type 0 where
  literal : Text → Segment
  year month day hour minute second whole_secs frac_sec level file line body : Segment

-- The arms of the match on the character behind `%`.
unfoldable pub specifier : ℕ → Option Segment
specifier c =
    if c == b'Y'
    then some year
    else if c == b'm'
    then some month
    else if c == b'd'
    then some day
    else if c == b'H'
    then some hour
    else if c == b'M'
    then some minute
    else if c == b'S'
    then some second
    else if c == b's'
    then some whole_secs
    else if c == b'f'
    then some frac_sec
    else if c == b'l'
    then some level
    else if c == b'F'
    then some file
    else if c == b'L'
    then some line
    else if c == b'v'
    then some body
    else none

-- `if !literal.is_empty() { segments.push(Literal(literal)) }`, before the segments that follow.
abbrev pub flush : Text → List Segment → List Segment
flush [] segments = segments
flush (c ∷ cs) segments = literal (c ∷ cs) ∷ segments

-- The loop of `PatternFormatter::new`, with the literal that is not yet a segment.
unfoldable pub parse_from : List ℕ → Text → List Segment
unfolding specifier
parse_from [] lit = flush lit []
parse_from (c ∷ []) lit = flush (lit ++ (c ∷ [])) []
parse_from (c ∷ d ∷ cs) lit = elim (c == b'%') [
  | true ↦ elim (specifier d) [
    | some s ↦ flush lit (s ∷ parse_from cs [])
    | none ↦ flush lit (parse_from cs (b'%' ∷ d ∷ []))
  ]
  | false ↦ parse_from (d ∷ cs) (lit ++ (c ∷ []))
]

-- `PatternFormatter::new`: the segments of the formatter.
unfoldable pub new : Text → List Segment
unfolding parse_from
new pattern = parse_from pattern []

-- `struct FormattedRecord`.
pub record FormattedRecord : Type 0 where
  pub timestamp_secs : ℕ
  pub timestamp_nanos : ℕ
  pub level_of : LogLevel
  pub file_of : Text
  pub line_of : ℕ
  pub body_of : Text

-- What `time::OffsetDateTime` tells; its year is signed.
pub record DateTime : Type 0 where
  pub year_of : ℤ
  pub month_of : ℕ
  pub day_of : ℕ
  pub hour_of : ℕ
  pub minute_of : ℕ
  pub second_of : ℕ

-- `{:04}` of a year: the sign counts.
unfoldable pub padded_year : ℤ → Text
padded_year (pos n) = padded_decimal 4 n
padded_year (negsuc n) = b'-' ∷ padded_decimal 3 (n + 1)

-- A field of the date, two digits wide; `??` where the time stands for no date.
abbrev pub two_digits : (DateTime → ℕ) → Option DateTime → Text
two_digits field none = ascii "??"
two_digits field (some d) = padded_decimal 2 (field d)

abbrev pub four_digits : Option DateTime → Text
four_digits none = ascii "????"
four_digits (some d) = padded_year d.year_of

-- The arms of the match in `format`.
unfoldable pub segment_text : Option DateTime → FormattedRecord → Segment → Text
segment_text odt r (literal s) = s
segment_text odt r year = four_digits odt
segment_text odt r month = two_digits (λ d. d.month_of) odt
segment_text odt r day = two_digits (λ d. d.day_of) odt
segment_text odt r hour = two_digits (λ d. d.hour_of) odt
segment_text odt r minute = two_digits (λ d. d.minute_of) odt
segment_text odt r second = two_digits (λ d. d.second_of) odt
segment_text odt r whole_secs = decimal r.timestamp_secs
segment_text odt r frac_sec = padded_decimal 9 r.timestamp_nanos
segment_text odt r level = debug_name r.level_of
segment_text odt r file = r.file_of
segment_text odt r line = decimal r.line_of
segment_text odt r body = r.body_of

unfoldable pub segments_text : Option DateTime → FormattedRecord → List Segment → Text
unfolding segment_text
segments_text odt r [] = []
segments_text odt r (s ∷ ss) = segment_text odt r s ++ segments_text odt r ss

-- `PatternFormatter::format`. The date of a time is `OffsetDateTime::from_unix_timestamp`'s.
unfoldable pub format : (ℕ → Option DateTime) → List Segment → FormattedRecord → Text
unfolding segments_text
format from_unix_timestamp segments r =
    segments_text (from_unix_timestamp r.timestamp_secs) r segments
