-- ===== src/Encode/Texts.antt =====
-- Booleans, characters, floats, `()` and texts: what is written, and what the backend makes of it.
use rapidlog.Prelude.{
  ℕ, ◌+◌, ◌-◌, ◌^◌, ◌%◌, ◌≤◌, ◌<◌, ◌≡◌, refl, ap, ◌∙◌, sym, List, [], ◌∷◌, ◌++◌, Bool, true, false,
  none, some, ok, slice-append, write_at-append, length, length-append, length-le_bytes, le_bytes,
  from_le-le_bytes, take-all, eq-nil_of_length, min, split, append_assoc, is_utf8, utf8_or_empty,
  char_text, le→ltb_false, Text, ascii, arith,
}
use rapidlog.Arg.Opcode.{
  category, op_float, op_str, op_bool, op_char, op_unit, size_for_k, read_unsigned_ne,
}
use rapidlog.Arg.Numbers.{read_wide}
use rapidlog.Arg.Format.{
  Context, format_arm, format_bool, format_str, format_char, format_float, float_text,
}
use rapidlog.Arg.Read.{IsRead, leaf-IsRead}
use rapidlog.Encode.Primitives
use rapidlog.Encode.Shown.{IsShown, write_front}

unfoldable pub bool_text : Bool → Text
bool_text true = ascii "true"
bool_text false = ascii "false"

fixed_written :
    (n v : ℕ) (old rest : List ℕ)
    → length old ≡ length (le_bytes n v)
    → Primitives.fixed_encode_to n v (old ++ rest)
      ≡ ok (length (le_bytes n v), le_bytes n v ++ rest)
fixed_written n v old rest e =
    rw (write_front (le_bytes n v) old rest e)
      (ap (λ m. ok (m, le_bytes n v ++ rest)) (sym (length-le_bytes n v)))

-- A Boolean: `encode_to` writes one byte and leaves what follows, and the formatter, with the Boolean's
-- schema, reads that byte back as `true` or `false`.
pub bool-IsShown :
    (b : Bool) → (s : IsShown Primitives.bool (λ c. bool_text) b) × (length s.bytes ≡ 1)
unfolding format_arm category format_bool bool_text
bool-IsShown true = (
  record {
    bytes = le_bytes 1 1;
    fits = omega arith;
    written = λ old rest e. fixed_written 1 1 old rest e;
    read = λ c. leaf-IsRead c op_bool (le_bytes 1 1) (ascii "true") (λ format rest. refl);
  },
  refl,
)
bool-IsShown false = (
  record {
    bytes = le_bytes 1 0;
    fits = omega arith;
    written = λ old rest e. fixed_written 1 0 old rest e;
    read = λ c. leaf-IsRead c op_bool (le_bytes 1 0) (ascii "false") (λ format rest. refl);
  },
  refl,
)

pub unit-IsRead : (c : Context) → IsRead c (op_unit ∷ []) [] (ascii "()")
unfolding format_arm category
unit-IsRead c = leaf-IsRead c op_unit [] (ascii "()") (λ format rest. refl)

pub unit-IsShown : IsShown Primitives.unit (λ c u. ascii "()") tt
unit-IsShown = record {
  bytes = [];
  fits = omega arith;
  written = λ old rest e. rw (eq-nil_of_length old e) (λ i. ok (0, rest));
  read = unit-IsRead;
}

str_written :
    (s old rest : List ℕ)
    → length s < 65536
    → length old ≡ 2 + length s
    → Primitives.str_encode_to s (old ++ rest)
      ≡ ok (2 + length s, (le_bytes 2 (length s) ++ s) ++ rest)
str_written s old rest small e =
    let o = split old 2 (omega arith) in
    let len : min (length s) (2 ^ 16 - 1) ≡ length s = omega arith in
    let header = le_bytes 2 (length s) in
    let grouped : old ++ rest ≡ o.front ++ (o.back ++ rest) =
      ap (λ x. x ++ rest) o.joined ∙ append_assoc o.front o.back rest in
    rw
      (
        len,
        grouped,
        write_front header o.front (o.back ++ rest) o.front_length,
        take-all (length s) s (omega arith),
        write_at-append header o.back rest s 2 refl (omega (arith, o.back_length)),
      )
      (ap (λ x. ok (2 + length s, x)) (sym (append_assoc header s rest)))

str_read :
    (s rest : List ℕ)
    → length s < 65536
    → is_utf8 s ≡ true
    → format_str 2 ((le_bytes 2 (length s) ++ s) ++ rest) ≡ ok (2 + length s, s)
unfolding format_str utf8_or_empty size_for_k read_unsigned_ne
str_read s rest small valid =
    let h = le_bytes 2 (length s) in
    let p = h ++ (s ++ rest) in
    let whole : length p ≡ 2 + length s + length rest =
      omega
        (arith, length-append h (s ++ rest), length-append s rest, length-le_bytes 2 (length s)) in
    let end : (2 + length s) % 2 ^ 64 ≡ 2 + length s = omega arith in
    rw
      (
        append_assoc h s rest,
        le→ltb_false (length p) 2 (omega (arith, whole)),
        read_wide 2 (length s) (s ++ rest) small,
        end,
        le→ltb_false (length p) (2 + length s) (omega (arith, whole)),
        slice-append h s rest 2 (2 + length s) refl refl,
        valid,
      )
      refl

str_size : (s : List ℕ) → length (le_bytes 2 (length s) ++ s) ≡ 2 + length s
str_size s = omega (arith, length-append (le_bytes 2 (length s)) s, length-le_bytes 2 (length s))

-- A text of fewer than 65536 bytes, in UTF-8: `encode_to` writes exactly `encoded_size` bytes over
-- whatever stood there and leaves what follows, and the formatter, with the text's schema, on these bytes
-- and any behind them, uses exactly these and writes the text as it was.
pub str-IsShown :
    (t : Text)
    → length t < 65536
    → is_utf8 t ≡ true
    → (s : IsShown Primitives.str (λ c x. x) t) × (length s.bytes ≡ 2 + length t)
unfolding format_arm category
str-IsShown t small valid =
    let bytes = le_bytes 2 (length t) ++ t in
    let size = str_size t in
    (
      record {
        bytes = bytes;
        fits = omega arith;
        written = λ old rest e.
            str_written t old rest small (e ∙ size) ∙ ap (λ m. ok (m, bytes ++ rest)) (sym size);
        read = λ c.
            leaf-IsRead c (op_str 2) bytes t
              (λ format rest. str_read t rest small valid ∙ ap (λ m. ok (m, t)) (sym size));
      },
      size,
    )

-- A value shown by its `Display` or `Debug`: with a text of at most 510 bytes, in UTF-8, it is written
-- within the 512 bytes that `encoded_size` tells, and shown as that text.
pub displayed-IsShown :
    {T : Type 0} (display : T → Text) (v : T)
    → length (display v) ≤ 510
    → is_utf8 (display v) ≡ true
    → IsShown (Primitives.displayed display) (λ c. display) v
displayed-IsShown display v small valid =
    let (s, size) = str-IsShown (display v) (omega arith) valid in
    record { bytes = s.bytes; fits = omega arith; written = s.written; read = s.read }

unfoldable pub char_shown : ℕ → Text
char_shown code = elim (char_text code) [ none ↦ [] | some t ↦ t ]

char_read :
    (code : ℕ) (rest : List ℕ)
    → code < 256 ^ 4
    → format_char (le_bytes 4 code ++ rest) ≡ ok (4, char_shown code)
unfolding format_char char_shown
char_read code rest small =
    rw
      (le→ltb_false (length (le_bytes 4 code ++ rest)) 4
        (omega (arith, length-append (le_bytes 4 code) rest, length-le_bytes 4 code)))
      (ap (λ n. ok (4, char_shown n)) (from_le-le_bytes 4 code small))

-- A character, by its code: `encode_to` writes exactly `encoded_size` bytes, and the formatter writes the
-- character in UTF-8.
pub char-IsShown :
    (code : ℕ)
    → code < 256 ^ 4
    → (s : IsShown Primitives.char (λ c. char_shown) code) × (length s.bytes ≡ 4)
unfolding format_arm category
char-IsShown code small = (
  record {
    bytes = le_bytes 4 code;
    fits = omega arith;
    written = λ old rest e. fixed_written 4 code old rest e;
    read = λ c.
        leaf-IsRead c op_char (le_bytes 4 code) (char_shown code)
          (λ format rest. char_read code rest small);
  },
  refl,
)

f32_read :
    (c : Context) (v : ℕ) (rest : List ℕ)
    → v < 256 ^ 4
    → format_float c 3 (le_bytes 4 v ++ rest) ≡ ok (4, c.display_f32 v)
unfolding format_float float_text size_for_k
f32_read c v rest small =
    rw
      (le→ltb_false (length (le_bytes 4 v ++ rest)) 4
        (omega (arith, length-append (le_bytes 4 v) rest, length-le_bytes 4 v)))
      (ap (λ n. ok (4, c.display_f32 n)) (from_le-le_bytes 4 v small))

f64_read :
    (c : Context) (v : ℕ) (rest : List ℕ)
    → v < 256 ^ 8
    → format_float c 4 (le_bytes 8 v ++ rest) ≡ ok (8, c.display_f64 v)
unfolding format_float float_text size_for_k
f64_read c v rest small =
    rw
      (le→ltb_false (length (le_bytes 8 v ++ rest)) 8
        (omega (arith, length-append (le_bytes 8 v) rest, length-le_bytes 8 v)))
      (ap (λ n. ok (8, c.display_f64 n)) (from_le-le_bytes 8 v small))

-- A float is shown by the standard library's `Display`.
pub f32-IsShown : (v : ℕ) → v < 256 ^ 4 → IsShown Primitives.f32 (λ c. c.display_f32) v
unfolding format_arm category
f32-IsShown v small = record {
  bytes = le_bytes 4 v;
  fits = omega arith;
  written = λ old rest e. fixed_written 4 v old rest e;
  read = λ c.
      leaf-IsRead c (op_float 3) (le_bytes 4 v) (c.display_f32 v)
        (λ format rest. f32_read c v rest small);
}

pub f64-IsShown : (v : ℕ) → v < 256 ^ 8 → IsShown Primitives.f64 (λ c. c.display_f64) v
unfolding format_arm category
f64-IsShown v small = record {
  bytes = le_bytes 8 v;
  fits = omega arith;
  written = λ old rest e. fixed_written 8 v old rest e;
  read = λ c.
      leaf-IsRead c (op_float 4) (le_bytes 8 v) (c.display_f64 v)
        (λ format rest. f64_read c v rest small);
}
