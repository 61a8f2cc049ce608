-- ===== src/Encode/Enums.antt =====
-- `Option`, and enums of two variants: what is written, and what the backend makes of it.
use rapidlog.Prelude.{
  ℕ, ◌+◌, ◌<◌, ◌≡◌, ◌≢◌, false, Bool-cases, is_utf8, utf8_or_empty, refl, ap, ◌∙◌, sym, subst, List,
  [], ◌∷◌, ◌++◌, true, ◌⊎◌, inl, inr, Option, none, some, Run, ok, length, append-nil, append_assoc,
  eq-nil_of_length, split, arith, Text, ascii, bit_or, ◌==◌,
}
use rapidlog.Arg.Opcode.{category, op_unit, op_enum, size_for_k}
use rapidlog.Arg.Format.{Context, read_str_from_table, until_nul, is_bare, format_with, format_arm}
use rapidlog.Arg.Heads.{enum-IsHead}
use rapidlog.Arg.Delimited.{IsDelimited, enum-IsDelimited, layout}
use rapidlog.Arg.Read.{IsRead}
use rapidlog.Arg.Search.{Variant, variants}
use rapidlog.Arg.Variants.{variant_text, enum-IsRead}
use rapidlog.Encode.Defs.{Encode}
use rapidlog.Encode.Compound.{option, variant_encode_to}
use rapidlog.Encode.Leaves.{unit-IsDelimited}
use rapidlog.Encode.Texts.{unit-IsRead}
use rapidlog.Encode.Shown.{IsShown, write_front, encode_at_lem}

ok_length : (m n : ℕ) (s t : Text) → ◌≡◌ {A = Run (ℕ × Text)} (ok (m, s)) (ok (n, t)) → m ≡ n
ok_length m n s t e = cc

unit_op : (op : ℕ) → (op == op_unit) ≡ true → op ≡ op_unit
unit_op op e = ground arith

not_unit : (op : ℕ) → (op == op_unit) ≡ false → op ∷ [] ≢ op_unit ∷ []
not_unit op e h = ground arith

-- A value whose schema is the unit has no bytes.
pub bare_nil :
    (c : Context) (s bytes : List ℕ) (text : Text)
    → IsDelimited s
    → IsRead c s bytes text
    → is_bare s ≡ true
    → bytes ≡ []
unfolding is_bare format_with format_arm category
bare_nil c [] bytes text d r e = absurd (omega (arith, d.some_byte))
bare_nil c (op ∷ []) bytes text d r e =
    let r' = subst (λ o. IsRead c (o ∷ []) bytes text) (unit_op op e) r in
    eq-nil_of_length bytes
      (sym (ok_length 0 (length bytes) (ascii "()") text (r' 2 [] (omega arith))))
bare_nil c (op ∷ b ∷ s) bytes text d r e = cc

-- Two variants, with the offsets of their names and their schemas.
abbrev pub two : ℕ → ℕ → List ℕ → List ℕ → List Variant
two o₁ o₂ s₁ s₂ = (o₁, s₁) ∷ (o₂, s₂) ∷ []

abbrev pub two_schema : ℕ → ℕ → List ℕ → List ℕ → List ℕ
two_schema o₁ o₂ s₁ s₂ = bit_or op_enum 2 ∷ 1 ∷ 0 ∷ layout (variants (two o₁ o₂ s₁ s₂))

pub first-IsRead :
    (c : Context) (o₁ o₂ : ℕ) (s₁ s₂ bytes : List ℕ) (text : Text)
    → o₁ < 65536
    → o₂ < 65536
    → IsDelimited s₁
    → IsDelimited s₂
    → IsRead c s₁ bytes text
    → IsRead c
        (two_schema o₁ o₂ s₁ s₂)
        (0 ∷ bytes)
        (variant_text s₁ (read_str_from_table 0 o₁ c.string_tables) text)
unfolding size_for_k
first-IsRead c o₁ o₂ s₁ s₂ bytes text h₁ h₂ d₁ d₂ r =
    enum-IsRead c (bit_or op_enum 2) 1 0 0 o₁ [] s₁ bytes text [] ((o₂, s₂) ∷ [])
      (enum-IsHead 2 (omega arith) (omega arith)) refl (omega arith) (omega arith) (omega arith)
      ((h₁, d₁), ((h₂, d₂), tt)) r (bare_nil c s₁ bytes text d₁ r)

pub second-IsRead :
    (c : Context) (o₁ o₂ : ℕ) (s₁ s₂ bytes : List ℕ) (text : Text)
    → o₁ < 65536
    → o₂ < 65536
    → IsDelimited s₁
    → IsDelimited s₂
    → IsRead c s₂ bytes text
    → IsRead c
        (two_schema o₁ o₂ s₁ s₂)
        (1 ∷ bytes)
        (variant_text s₂ (read_str_from_table 0 o₂ c.string_tables) text)
unfolding size_for_k
second-IsRead c o₁ o₂ s₁ s₂ bytes text h₁ h₂ d₁ d₂ r =
    enum-IsRead c (bit_or op_enum 2) 1 0 1 o₂ [] s₂ bytes text ((o₁, s₁) ∷ []) []
      (enum-IsHead 2 (omega arith) (omega arith)) refl (omega arith) (omega arith) (omega arith)
      ((h₁, d₁), ((h₂, d₂), tt)) r (bare_nil c s₂ bytes text d₂ r)

pub two-IsDelimited :
    (o₁ o₂ : ℕ) (s₁ s₂ : List ℕ)
    → IsDelimited s₁
    → IsDelimited s₂
    → IsDelimited (two_schema o₁ o₂ s₁ s₂)
two-IsDelimited o₁ o₂ s₁ s₂ d₁ d₂ =
    enum-IsDelimited (bit_or op_enum 2) [] 1 0 (variants (two o₁ o₂ s₁ s₂))
      (enum-IsHead 2 (omega arith) (omega arith)) ((refl, d₁), ((refl, d₂), tt))

-- A variant's number, and its value behind it.
pub variant_written :
    {T : Type 0} (e : Encode T) (shown : Context → T → Text) (number : ℕ) (v : T)
    (s : IsShown e shown v) (old rest : List ℕ)
    → length old ≡ 1 + length s.bytes
    → variant_encode_to e number v (old ++ rest)
      ≡ ok (1 + length s.bytes, number ∷ (s.bytes ++ rest))
variant_written e shown number v s old rest size =
    let o = split old 1 (omega arith) in
    let cut : old ++ rest ≡ o.front ++ (o.back ++ rest) =
      ap (λ x. x ++ rest) o.joined ∙ append_assoc o.front o.back rest in
    rw
      (
        cut,
        write_front (number ∷ []) o.front (o.back ++ rest) o.front_length,
        encode_at_lem e shown v 1 (number ∷ []) o.back rest s refl (omega (arith, o.back_length)),
      )
      refl

option_schema :
    {T : Type 0} (e : Encode T) → two_schema 0 5 (op_unit ∷ []) e.schema ≡ (option e).schema
option_schema e =
    ap (λ x. bit_or op_enum 2 ∷ 1 ∷ 0 ∷ 0 ∷ 0 ∷ op_unit ∷ 5 ∷ 0 ∷ x) (append-nil e.schema)

pub option-IsDelimited :
    {T : Type 0} (e : Encode T) → IsDelimited e.schema → IsDelimited (option e).schema
option-IsDelimited e d =
    subst (λ s. IsDelimited s) (option_schema e)
      (two-IsDelimited 0 5 (op_unit ∷ []) e.schema unit-IsDelimited d)

-- The names come from the first string table of the context.
unfoldable pub option_text :
    {T : Type 0} → Encode T → (Context → T → Text) → Context → Option T → Text
option_text e shown c none = read_str_from_table 0 0 c.string_tables
option_text e shown c (some v) =
    variant_text e.schema (read_str_from_table 0 5 c.string_tables) (shown c v)

pub none-IsShown :
    {T : Type 0} (e : Encode T) (shown : Context → T → Text)
    → IsDelimited e.schema
    → IsShown (option e) (option_text e shown) none
unfolding option_text variant_text
none-IsShown e shown d = record {
  bytes = 0 ∷ [];
  fits = omega arith;
  written = λ old rest size. rw (write_front (0 ∷ []) old rest size) refl;
  read = λ c.
      subst (λ x. IsRead c x (0 ∷ []) (option_text e shown c none)) (option_schema e)
        (first-IsRead c 0 5 (op_unit ∷ []) e.schema [] (ascii "()") (omega arith) (omega arith)
          unit-IsDelimited d (unit-IsRead c));
}

pub some-IsShown :
    {T : Type 0} (e : Encode T) (shown : Context → T → Text) (v : T)
    → IsDelimited e.schema
    → IsShown e shown v
    → IsShown (option e) (option_text e shown) (some v)
unfolding option_text
some-IsShown e shown v d s = record {
  bytes = 1 ∷ s.bytes;
  fits = omega (arith, s.fits);
  written = λ old rest size.
      variant_written e shown 1 v s old rest (omega (arith, size))
      ∙ ap (λ n. ok (n, 1 ∷ (s.bytes ++ rest))) (omega arith);
  read = λ c.
      subst (λ x. IsRead c x (1 ∷ s.bytes) (option_text e shown c (some v))) (option_schema e)
        (second-IsRead c 0 5 (op_unit ∷ []) e.schema s.bytes (shown c v) (omega arith) (omega arith)
          unit-IsDelimited d (s.read c));
}

-- The first two names of a context whose first table is the option's.
option_names :
    {T : Type 0} (e : Encode T) (o : Option T) (tables : List (List ℕ))
    → (read_str_from_table 0 0 ((option e).string_table o ∷ tables) ≡ ascii "None")
      × (read_str_from_table 0 5 ((option e).string_table o ∷ tables) ≡ ascii "Some")
unfolding read_str_from_table until_nul utf8_or_empty is_utf8
option_names e o tables = (refl, refl)

-- What an option holds is written and read back as its text.
abbrev pub IsShownWithin : {T : Type 0} → Encode T → (Context → T → Text) → Option T → Type 0
IsShownWithin e shown none = Unit
IsShownWithin e shown (some v) = IsShown e shown v

-- The text of an option: `None`, or `Some` with the value's text in parentheses, which a value of the
-- unit's schema does not have.
abbrev pub IsOptionText :
    {T : Type 0} → Encode T → (Context → T → Text) → Context → Option T → Text → Type 0
IsOptionText e shown c none text = text ≡ ascii "None"
IsOptionText e shown c (some v) text =
    ((e.schema ≡ op_unit ∷ []) × (text ≡ ascii "Some"))
    ⊎ ((e.schema ≢ op_unit ∷ []) × (text ≡ ascii "Some" ++ (ascii "(" ++ (shown c v ++ ascii ")"))))

pub variant_text-cases :
    (s : List ℕ) (name text : Text)
    → IsDelimited s
    → ((s ≡ op_unit ∷ []) × (variant_text s name text ≡ name))
      ⊎ ((s ≢ op_unit ∷ [])
          × (variant_text s name text ≡ name ++ (ascii "(" ++ (text ++ ascii ")"))))
unfolding variant_text
variant_text-cases [] name text d = absurd (omega (arith, d.some_byte))
variant_text-cases (op ∷ []) name text d = elim (Bool-cases (op == op_unit)) [
  | inl e ↦ inl (ap (λ n. n ∷ []) (unit_op op e), rw e refl)
  | inr e ↦ inr (not_unit op e, rw e refl)
]
variant_text-cases (op ∷ b ∷ s) name text d = inr (λ h. cc, refl)

option_text-IsOptionText :
    {T : Type 0} (e : Encode T) (shown : Context → T → Text) (o : Option T) (c : Context)
    (tables : List (List ℕ))
    → IsDelimited e.schema
    → c.string_tables ≡ (option e).string_table o ∷ tables
    → IsOptionText e shown c o (option_text e shown c o)
unfolding option_text
option_text-IsOptionText e shown none c tables d at =
    ap (read_str_from_table 0 0) at ∙ (option_names e none tables).0
option_text-IsOptionText e shown (some v) c tables d at =
    let name : read_str_from_table 0 5 c.string_tables ≡ ascii "Some" =
      ap (read_str_from_table 0 5) at ∙ (option_names e (some v) tables).1 in
    subst
      (λ n.
        ((e.schema ≡ op_unit ∷ []) × (variant_text e.schema n (shown c v) ≡ ascii "Some"))
        ⊎ ((e.schema ≢ op_unit ∷ [])
            × (variant_text e.schema n (shown c v)
                ≡ ascii "Some" ++ (ascii "(" ++ (shown c v ++ ascii ")")))))
      (sym name) (variant_text-cases e.schema (ascii "Some") (shown c v) d)

-- An option, empty or of a value that is written and read back as its text, where the values' schema
-- tells its own length: `encode_to` writes the variant's number and the value, if there is one, no more
-- than `encoded_size` bytes, and leaves what follows. The formatter, with the option's schema and with
-- the option's string table as the first of its context, as an argument of a log call has it, writes
-- `None`, or `Some` with the value's text in parentheses, or `Some` alone for a value whose schema is
-- the unit's.
pub option-IsShown :
    {T : Type 0} (e : Encode T) (shown : Context → T → Text) (o : Option T) (c : Context)
    (tables : List (List ℕ))
    → IsDelimited e.schema
    → IsShownWithin e shown o
    → c.string_tables ≡ (option e).string_table o ∷ tables
    → (x : IsShown (option e) (option_text e shown) o) × (text : Text) × IsRead c
        (option e).schema
        x.bytes
        text
      × IsOptionText e shown c o text
option-IsShown e shown none c tables d s at =
    let x = none-IsShown e shown d in
    (x, option_text e shown c none, x.read c, option_text-IsOptionText e shown none c tables d at)
option-IsShown e shown (some v) c tables d s at =
    let x = some-IsShown e shown v d s in
    (
      x,
      option_text e shown c (some v),
      x.read c,
      option_text-IsOptionText e shown (some v) c tables d at,
    )
