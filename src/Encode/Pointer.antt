-- ===== src/Encode/Pointer.antt =====
-- src/arg/pointer.rs: `Box`, `Arc` and `Rc` of a type with a `Display`.
use rapidlog.Prelude.{◌≤◌, ◌≡◌, true, length, is_utf8, Text}
use rapidlog.Encode.Defs.{Encode, no_table}
use rapidlog.Encode.Primitives.{str}
use rapidlog.Encode.Shown.{IsShown}
use rapidlog.Encode.Texts.{displayed-IsShown}

-- The impls of the three are the same. `display` is the `to_string` of what is pointed to.
abbrev pub boxed : {T : Type 0} → (T → Text) → Encode T
boxed display = record {
  schema = str.schema;
  encode_to = λ v. str.encode_to (display v);
  encoded_size = λ v. 512;
  string_table = no_table;
}

-- With a text of at most 510 bytes, in UTF-8.
pub boxed-IsShown :
    {T : Type 0} (display : T → Text) (v : T)
    → length (display v) ≤ 510
    → is_utf8 (display v) ≡ true
    → IsShown (boxed display) (λ c. display) v
boxed-IsShown display v small valid =
    let s = displayed-IsShown display v small valid in
    record { bytes = s.bytes; fits = s.fits; written = s.written; read = s.read }
