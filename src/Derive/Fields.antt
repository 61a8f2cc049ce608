-- ===== src/Derive/Fields.antt =====
-- The fields of a derived type: what is written for them, and what the backend makes of it.
use rapidlog.Prelude.{
  ℕ, suc, ◌+◌, ◌≤◌, ◌<◌, ◌≡◌, refl, ap, List, [], ◌∷◌, ◌++◌, length, All, arith, Text, ascii,
  le_bytes, le→leb, lt→leb_false, le_or_lt, inl, inr, bit_or,
}
use rapidlog.Arg.Opcode.{Category, tuple, struct, enum, op_tuple, op_struct, op_enum}
use rapidlog.Arg.Commas.{comma}
use rapidlog.Arg.Format.{Context, read_str_from_table}
use rapidlog.Arg.Heads.{
  IsHead, tuple-IsHead, struct-IsHead, enum-IsHead, long_tuple-IsHead, long_struct-IsHead,
  long_enum-IsHead,
}
use rapidlog.Arg.Delimited.{IsDelimited, layout}
use rapidlog.Arg.Pieces.{Piece, IsPiece, plain, named, piece_bytes, tuple_text, struct_text}
use rapidlog.Encode.Shown.{IsShown}
use rapidlog.Macros.Arguments.{AreLoggable, arg_bytes}
use rapidlog.Derive.Defs.{
  Field, values, count_head, with_name, next_offset, named_schema, unnamed_schema,
}

-- A type's text is known, and its schema tells its own length.
pub record HasText {S : Type 0} (f : Field S) : Type 0 where
  pub shown : Context → f.T → Text
  pub delimited : IsDelimited f.encoder.schema

abbrev pub HaveTexts : {S : Type 0} → List (Field S) → Type 0
HaveTexts {S = S} = All (HasText {S = S})

-- Each field's value is written and read back as its text.
abbrev pub AreShownFields : {S : Type 0} → (fs : List (Field S)) → HaveTexts fs → S → Type 0
AreShownFields [] ts v = Unit
AreShownFields (f ∷ fs) (t, ts) v = IsShown f.encoder t.shown (f.get v) × AreShownFields fs ts v

unfoldable pub values-AreLoggable :
    {S : Type 0} (fs : List (Field S)) (ts : HaveTexts fs) (v : S)
    → AreShownFields fs ts v
    → AreLoggable (values fs v)
values-AreLoggable [] ts v h = tt
values-AreLoggable (f ∷ fs) (t, ts) v (s, h) = (
  record { shown = t.shown; is_shown = s; delimited = t.delimited },
  values-AreLoggable fs ts v h,
)

module _ {S : Type 0} (c : Context) where
  abbrev pub pieces :
      (fs : List (Field S)) (ts : HaveTexts fs) (v : S)
      → AreShownFields fs ts v
      → List ℕ
      → List Piece
  pieces [] ts v h table = []
  pieces (f ∷ fs) (t, ts) v (s, h) table =
      record {
        offset = next_offset table;
        schema = f.encoder.schema;
        bytes = s.bytes;
        text = t.shown c (f.get v);
      }
      ∷ pieces fs ts v h (with_name table f.name)

  pub layout-named-pieces :
      (fs : List (Field S)) (ts : HaveTexts fs) (v : S) (h : AreShownFields fs ts v)
      (table : List ℕ)
      → layout (named (pieces fs ts v h table)) ≡ named_schema fs table
  unfolding named_schema
  layout-named-pieces [] ts v h table = refl
  layout-named-pieces (f ∷ fs) (t, ts) v (s, h) table =
      ap (λ x. le_bytes 2 (next_offset table) ++ (f.encoder.schema ++ x))
        (layout-named-pieces fs ts v h (with_name table f.name))

  pub layout-plain-pieces :
      (fs : List (Field S)) (ts : HaveTexts fs) (v : S) (h : AreShownFields fs ts v)
      (table : List ℕ)
      → layout (plain (pieces fs ts v h table)) ≡ unnamed_schema fs
  unfolding unnamed_schema
  layout-plain-pieces [] ts v h table = refl
  layout-plain-pieces (f ∷ fs) (t, ts) v (s, h) table =
      ap (λ x. f.encoder.schema ++ x) (layout-plain-pieces fs ts v h (with_name table f.name))

  pub piece_bytes-pieces :
      (fs : List (Field S)) (ts : HaveTexts fs) (v : S) (h : AreShownFields fs ts v)
      (table : List ℕ)
      → piece_bytes (pieces fs ts v h table)
        ≡ arg_bytes (values fs v) (values-AreLoggable fs ts v h)
  unfolding values-AreLoggable
  piece_bytes-pieces [] ts v h table = refl
  piece_bytes-pieces (f ∷ fs) (t, ts) v (s, h) table =
      ap (λ x. s.bytes ++ x) (piece_bytes-pieces fs ts v h (with_name table f.name))

  pub length-pieces :
      (fs : List (Field S)) (ts : HaveTexts fs) (v : S) (h : AreShownFields fs ts v)
      (table : List ℕ)
      → length (pieces fs ts v h table) ≡ length fs
  length-pieces [] ts v h table = refl
  length-pieces (f ∷ fs) (t, ts) v (s, h) table =
      ap suc (length-pieces fs ts v h (with_name table f.name))

  pub pieces-IsPiece :
      (fs : List (Field S)) (ts : HaveTexts fs) (v : S) (h : AreShownFields fs ts v)
      (table : List ℕ)
      → All (IsPiece c) (pieces fs ts v h table)
  pieces-IsPiece [] ts v h table = tt
  pieces-IsPiece (f ∷ fs) (t, ts) v (s, h) table = (
    record { small = omega arith; delimited = t.delimited; read = s.read c },
    pieces-IsPiece fs ts v h (with_name table f.name),
  )

  -- The fields' texts behind the names that stand at their offsets in the context's first table.
  unfoldable pub named_text : (fs : List (Field S)) → HaveTexts fs → ℕ → List ℕ → S → Text
  named_text [] ts i table v = []
  named_text (f ∷ fs) (t, ts) i table v =
      comma i
      ++ (read_str_from_table 0 (next_offset table) c.string_tables
          ++ (ascii ": "
              ++ (t.shown c (f.get v) ++ named_text fs ts (i + 1) (with_name table f.name) v)))

  pub struct_text-pieces :
      (fs : List (Field S)) (ts : HaveTexts fs) (i : ℕ) (v : S) (h : AreShownFields fs ts v)
      (table : List ℕ)
      → struct_text c 0 i (pieces fs ts v h table) ≡ named_text fs ts i table v
  unfolding named_text
  struct_text-pieces [] ts i v h table = refl
  struct_text-pieces (f ∷ fs) (t, ts) i v (s, h) table =
      ap
        (λ x.
          comma i
          ++ (read_str_from_table 0 (next_offset table) c.string_tables
              ++ (ascii ": " ++ (t.shown c (f.get v) ++ x))))
        (struct_text-pieces fs ts (i + 1) v h (with_name table f.name))

  -- The fields' texts alone.
  unfoldable pub unnamed_text : (fs : List (Field S)) → HaveTexts fs → ℕ → S → Text
  unnamed_text [] ts i v = []
  unnamed_text (f ∷ fs) (t, ts) i v =
      comma i ++ (t.shown c (f.get v) ++ unnamed_text fs ts (i + 1) v)

  pub tuple_text-pieces :
      (fs : List (Field S)) (ts : HaveTexts fs) (i : ℕ) (v : S) (h : AreShownFields fs ts v)
      (table : List ℕ)
      → tuple_text i (pieces fs ts v h table) ≡ unnamed_text fs ts i v
  unfolding unnamed_text
  tuple_text-pieces [] ts i v h table = refl
  tuple_text-pieces (f ∷ fs) (t, ts) i v (s, h) table =
      ap (λ x. comma i ++ (t.shown c (f.get v) ++ x))
        (tuple_text-pieces fs ts (i + 1) v h (with_name table f.name))

-- The head of a compound that a derived schema has.
pub record HeadOf (cat : Category) (base n : ℕ) : Type 0 where
  pub op : ℕ
  pub tail : List ℕ
  pub bytes : count_head base n ≡ op ∷ tail
  pub head : IsHead cat n op tail

module _ (cat : Category) (base : ℕ)
    (short : (n : ℕ) → 1 ≤ n → n ≤ 15 → IsHead cat n (bit_or base n) [])
    (long : (n : ℕ) → n < 65536 → IsHead cat n base (le_bytes 2 n)) where
  head_of : (n : ℕ) → 1 ≤ n → n < 65536 → HeadOf cat base n
  unfolding count_head
  head_of n some_part few = elim (le_or_lt n 15) [
    | inl le ↦ record {
      op = bit_or base n;
      tail = [];
      bytes = rw (le→leb n 15 le) (ap (λ m. bit_or base m ∷ []) (omega arith));
      head = short n some_part le;
    }
    | inr lt ↦ record {
      op = base;
      tail = le_bytes 2 n;
      bytes = rw (lt→leb_false n 15 lt) refl;
      head = long n few;
    }
  ]

pub tuple_head : (n : ℕ) → 1 ≤ n → n < 65536 → HeadOf tuple op_tuple n
tuple_head = head_of tuple op_tuple tuple-IsHead long_tuple-IsHead

pub struct_head : (n : ℕ) → 1 ≤ n → n < 65536 → HeadOf struct op_struct n
struct_head = head_of struct op_struct struct-IsHead long_struct-IsHead

pub enum_head : (n : ℕ) → 1 ≤ n → n < 65536 → HeadOf enum op_enum n
enum_head = head_of enum op_enum enum-IsHead long_enum-IsHead
