-- ===== src/Derive/Names.antt =====
-- The names of a derived struct's fields, where the context has its string table.
use rapidlog.Prelude.{
  ℕ, ◌+◌, ◌<◌, ◌≡◌, refl, ap, ap₂, ◌∙◌, sym, List, [], ◌∷◌, ◌++◌, append_assoc, append-nil, true,
  length, length-append, drop-append_length, All, arith, Text, ascii, is_utf8, utf8_or_empty,
  lt→leb_false,
}
use rapidlog.Arg.Commas.{comma}
use rapidlog.Arg.Format.{Context, read_str_from_table, until_nul}
use rapidlog.Body.Template.{Lacks}
use rapidlog.Derive.Defs.{Field, with_name, next_offset, named_table, derive_struct}
use rapidlog.Derive.Fields
use rapidlog.Derive.Structs

-- A name: UTF-8, and without a NUL.
abbrev pub IsName : Text → Type 0
IsName name = Lacks 0 name × (is_utf8 name ≡ true)

until_nul-append : (name more : List ℕ) → Lacks 0 name → until_nul (name ++ (0 ∷ more)) ≡ name
unfolding until_nul
until_nul-append [] more h = refl
until_nul-append (b ∷ name) more (e, h) = rw (e, until_nul-append name more h) refl

-- A name is read back at its offset.
pub read_name :
    (whole table name more : List ℕ) (tables : List (List ℕ))
    → whole ≡ table ++ (name ++ (0 ∷ more))
    → length whole < 65536
    → IsName name
    → read_str_from_table 0 (next_offset table) (whole ∷ tables) ≡ name
unfolding read_str_from_table utf8_or_empty
read_name whole table name more tables e few (lacks, valid) =
    let size = length-append table (name ++ (0 ∷ more)) in
    let size' = length-append name (0 ∷ more) in
    let at : next_offset table ≡ length table = omega (arith, ap (λ (x : List ℕ). length x) e) in
    rw
      (
        at,
        e,
        lt→leb_false (length (table ++ (name ++ (0 ∷ more)))) (length table) (omega arith),
        drop-append_length table (name ++ (0 ∷ more)),
        until_nul-append name more lacks,
        valid,
      )
      refl

abbrev pub names_bytes : {S : Type 0} → List (Field S) → List ℕ
names_bytes [] = []
names_bytes (f ∷ fs) = f.name ++ (0 ∷ names_bytes fs)

pub named_table-append :
    {S : Type 0} (fs : List (Field S)) (table : List ℕ)
    → named_table fs table ≡ table ++ names_bytes fs
unfolding named_table
named_table-append [] table = sym (append-nil table)
named_table-append (f ∷ fs) table =
    named_table-append fs (with_name table f.name) ∙ simp append_assoc

abbrev pub HaveNames : {S : Type 0} → List (Field S) → Type 0
HaveNames {S = S} = All (λ (f : Field S). IsName f.name)

-- The fields' texts, each behind its own name.
unfoldable pub own_text :
    {S : Type 0} → Context → (fs : List (Field S)) → Fields.HaveTexts fs → ℕ → S → Text
own_text c [] ts i v = []
own_text c (f ∷ fs) (t, ts) i v =
    comma i ++ (f.name ++ (ascii ": " ++ (t.shown c (f.get v) ++ own_text c fs ts (i + 1) v)))

pub named_text-own_text :
    {S : Type 0} (c : Context) (fs : List (Field S)) (ts : Fields.HaveTexts fs) (i : ℕ)
    (whole table more : List ℕ) (tables : List (List ℕ)) (v : S)
    → c.string_tables ≡ whole ∷ tables
    → whole ≡ table ++ (names_bytes fs ++ more)
    → length whole < 65536
    → HaveNames fs
    → Fields.named_text c fs ts i table v ≡ own_text c fs ts i v
unfolding Fields.named_text own_text
named_text-own_text c [] ts i whole table more tables v ec e few h = refl
named_text-own_text c (f ∷ fs) (t, ts) i whole table more tables v ec e few (n, h) =
    let here : read_str_from_table 0 (next_offset table) c.string_tables ≡ f.name =
      ap (λ x. read_str_from_table 0 (next_offset table) x) ec
      ∙ read_name whole table f.name (names_bytes fs ++ more) tables (e ∙ simp append_assoc) few
          n in
    ap₂ (λ x y. comma i ++ (x ++ (ascii ": " ++ (t.shown c (f.get v) ++ y)))) here
      (named_text-own_text c fs ts (i + 1) whole (with_name table f.name) more tables v ec
        (e ∙ simp append_assoc) few h)

-- With the derived string table as the first of the context, as an argument of a log call has it, a
-- derived struct's text has each field's own name before its text, if the names are UTF-8 without NULs
-- and the table has fewer than 65536 bytes.
pub struct_text-own_text :
    {S : Type 0} (c : Context) (fs : List (Field S)) (ts : Fields.HaveTexts fs)
    (tables : List (List ℕ)) (v : S)
    → c.string_tables ≡ (derive_struct fs).string_table v ∷ tables
    → length ((derive_struct fs).string_table v) < 65536
    → HaveNames fs
    → Structs.struct_text fs ts c v ≡ ascii "{" ++ (own_text c fs ts 0 v ++ ascii "}")
unfolding derive_struct
struct_text-own_text c fs ts tables v ec few h =
    ap (λ x. ascii "{" ++ (x ++ ascii "}"))
      (named_text-own_text c fs ts 0 (named_table fs []) [] [] tables v ec
        (named_table-append fs [] ∙ sym (append-nil (names_bytes fs))) few h)
