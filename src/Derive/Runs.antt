-- ===== src/Derive/Runs.antt =====
-- A derived struct and a derived enum.
use rapidlog.Prelude.{
  ℕ, ◌≡◌, inl, inr, refl, List, [], ◌∷◌, ◌++◌, arith, Text, ascii, is_utf8, decimal,
}
use rapidlog.Arg.Opcode.{size_for_k}
use rapidlog.Arg.Format.{Context}
use rapidlog.Encode.Primitives.{unsigned_int, str}
use rapidlog.Encode.Leaves.{unsigned_int-IsDelimited, str-IsDelimited}
use rapidlog.Encode.RoundTrip.{unsigned_int-IsShown}
use rapidlog.Encode.Texts.{str-IsShown}
use rapidlog.Encode.Shown.{IsShown}
use rapidlog.Derive.Defs.{
  Field, unit, unnamed, named, Variant, Value, derive_struct, derive_enum, named_table,
  variants_table, variant_table,
}
use rapidlog.Derive.Fields.{HasText, HaveTexts, AreShownFields}
use rapidlog.Derive.Structs.{struct_text, derive_struct-IsShown}
use rapidlog.Derive.Names.{HaveNames, own_text, struct_text-own_text}
use rapidlog.Derive.Variants.{VariantsTexts, IsShownValue, value_text}
use rapidlog.Derive.Enums.{derive_enum-IsShown}
use rapidlog.Derive.EnumNames.{VariantsNames, own_value, value_text-own_value}

-- `struct User { id: u32, name: &str }`.
abbrev User : Type 0
User = ℕ × Text

abbrev id_field : Field User
id_field = record { name = ascii "id"; T = ℕ; encoder = unsigned_int 3; get = λ u. u.0 }

abbrev name_field : Field User
name_field = record { name = ascii "name"; T = Text; encoder = str; get = λ u. u.1 }

abbrev user : List (Field User)
user = id_field ∷ name_field ∷ []

id_text : HasText id_field
id_text = record {
  shown = λ c. decimal;
  delimited = unsigned_int-IsDelimited 3 (omega arith) (omega arith);
}

name_text : HasText name_field
name_text = record { shown = λ c t. t; delimited = str-IsDelimited }

abbrev user_texts : HaveTexts user
unfolding id_text name_text
user_texts = (id_text, (name_text, tt))

abbrev ada : User
ada = (7, ascii "ada")

ada-AreShown : AreShownFields user user_texts ada
unfolding user_texts id_text name_text size_for_k is_utf8
ada-AreShown = (
  (unsigned_int-IsShown 3 7 (omega arith) (omega arith) (omega arith)).0,
  ((str-IsShown (ascii "ada") (omega arith) refl).0, tt),
)

derive_struct-IsShown_example : IsShown (derive_struct user) (struct_text user user_texts) ada
derive_struct-IsShown_example =
    derive_struct-IsShown user user_texts ada (omega arith) (omega arith) ada-AreShown

-- The context of an argument of this type.
abbrev user_context : Context
unfolding derive_struct
user_context = record {
  string_tables = (derive_struct user).string_table ada ∷ [];
  user_formatters = [];
  display_f32 = λ n. [];
  display_f64 = λ n. [];
}

user-HaveNames : HaveNames user
unfolding is_utf8
user-HaveNames = (((refl, (refl, tt)), refl), (((refl, (refl, (refl, (refl, tt)))), refl), tt))

struct_text-own_text_example :
    struct_text user user_texts user_context ada
    ≡ ascii "{" ++ (own_text user_context user user_texts 0 ada ++ ascii "}")
unfolding derive_struct user_context named_table
struct_text-own_text_example =
    struct_text-own_text user_context user user_texts [] ada refl (omega arith) user-HaveNames

-- `enum Event { Idle, Count(u32), Login { user: &str } }`.
abbrev count_field : Field ℕ
count_field = record { name = []; T = ℕ; encoder = unsigned_int 3; get = λ n. n }

abbrev user_field : Field Text
user_field = record { name = ascii "user"; T = Text; encoder = str; get = λ t. t }

abbrev event : List Variant
event =
    record { name = ascii "Idle"; P = Unit {0}; fields = unit }
    ∷ record { name = ascii "Count"; P = ℕ; fields = unnamed (count_field ∷ []) }
    ∷ record { name = ascii "Login"; P = Text; fields = named (user_field ∷ []) }
    ∷ []

count_text : HasText count_field
count_text = record {
  shown = λ c. decimal;
  delimited = unsigned_int-IsDelimited 3 (omega arith) (omega arith);
}

user_text : HasText user_field
user_text = record { shown = λ c t. t; delimited = str-IsDelimited }

abbrev event_texts : VariantsTexts event
unfolding count_text user_text
event_texts = (
  tt,
  ((omega arith, omega arith, (count_text, tt)), ((omega arith, omega arith, (user_text, tt)), tt)),
)

-- `Login { user: "ada" }`.
abbrev login : Value event
login = inr (inr (inl (ascii "ada")))

login-IsShownValue : IsShownValue event event_texts login
unfolding event_texts count_text user_text is_utf8
login-IsShownValue = ((str-IsShown (ascii "ada") (omega arith) refl).0, tt)

derive_enum-IsShown_example :
    IsShown (derive_enum event) (λ c. value_text c event event_texts []) login
derive_enum-IsShown_example =
    derive_enum-IsShown event event_texts login (omega arith) login-IsShownValue

abbrev event_context : Context
unfolding derive_enum
event_context = record {
  string_tables = (derive_enum event).string_table login ∷ [];
  user_formatters = [];
  display_f32 = λ n. [];
  display_f64 = λ n. [];
}

event-VariantsNames : VariantsNames event
unfolding is_utf8
event-VariantsNames = (
  (((refl, (refl, (refl, (refl, tt)))), refl), tt),
  (
    (((refl, (refl, (refl, (refl, (refl, tt))))), refl), tt),
    (
      (
        ((refl, (refl, (refl, (refl, (refl, tt))))), refl),
        (((refl, (refl, (refl, (refl, tt)))), refl), tt),
      ),
      tt,
    ),
  ),
)

value_text-own_value_example :
    value_text event_context event event_texts [] login
    ≡ own_value event_context event event_texts login
unfolding derive_enum event_context variants_table variant_table named_table
value_text-own_value_example =
    value_text-own_value event_context event event_texts [] login refl (omega arith)
      event-VariantsNames
