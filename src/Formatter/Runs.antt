-- ===== src/Formatter/Runs.antt =====
-- A pattern with known specifiers, an unknown one, and a `%` at its end.
use rapidlog.Prelude.{
  ℕ, ◌≡◌, refl, Option, none, some, Text, ascii, padded_decimal, pos, if◌then◌else◌, ◌==◌,
}
use rapidlog.Level.{warning}
use rapidlog.Formatter.Defs.{FormattedRecord, DateTime, new, format}
use rapidlog.Formatter.Render.{render, format-new}

abbrev dates : ℕ → Option DateTime
dates secs =
    if secs == 86400
    then some (record {
      year_of = pos 1970;
      month_of = 1;
      day_of = 2;
      hour_of = 0;
      minute_of = 0;
      second_of = 0;
    })
    else none

abbrev one_record : FormattedRecord
one_record = record {
  timestamp_secs = 86400;
  timestamp_nanos = 5;
  level_of = warning;
  file_of = ascii "a.rs";
  line_of = 12;
  body_of = ascii "hi";
}

abbrev pattern : Text
pattern = ascii "%Y-%m-%d %l %q %F:%L %v %"

rendered : render (dates 86400) one_record pattern ≡ ascii "1970-01-02 Warning %q a.rs:12 hi %"
unfolding render padded_decimal
rendered = refl

format-new_example : format dates (new pattern) one_record ≡ render (dates 86400) one_record pattern
format-new_example = format-new dates pattern one_record
