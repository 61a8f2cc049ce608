-- ===== src/Encode/Runs.antt =====
-- Values that are encoded and shown.
use rapidlog.Prelude.{
  inr, [], ◌∷◌, ◌++◌, some, ℕ, ◌≡◌, refl, Bool, true, Text, ascii, decimal, decimal_signed, is_utf8,
  negsuc, arith, length,
}
use rapidlog.Arg.Format.{Context}
use rapidlog.Arg.Read.{IsRead}
use rapidlog.Arg.Delimited.{IsDelimited}
use rapidlog.Encode.Leaves.{unsigned_int-IsDelimited, str-IsDelimited, bool-IsDelimited}
use rapidlog.Encode.Container.{vec, map}
use rapidlog.Encode.Compound.{Components, last, before, tuple, array, option, result}
use rapidlog.Encode.Results.{result_text, IsResultText, result-IsShown}
use rapidlog.Encode.Enums.{option_text, IsOptionText, option-IsShown}
use rapidlog.Encode.Sequences.{kept, vec-IsShown, array-IsShown}
use rapidlog.Encode.Maps.{entries_text, map-IsShown}
use rapidlog.Encode.Tuples.{
  AreComponents, last_text, before_text, last-AreComponents, before-AreComponents, tuple-IsShown,
}
use rapidlog.Arg.Opcode.{size_for_k}
use rapidlog.Encode.Primitives.{unsigned_int, signed_int, bool, str}
use rapidlog.Encode.Shown.{IsShown, list_text}
use rapidlog.Encode.RoundTrip.{unsigned_int-IsShown, signed_int-IsShown}
use rapidlog.Encode.Texts.{bool_text, bool-IsShown, str-IsShown}

unsigned_int-IsShown_example :
    (s : IsShown (unsigned_int 3) (λ c. decimal) 70_000) × (length s.bytes ≡ 4)
unfolding size_for_k
unsigned_int-IsShown_example =
    unsigned_int-IsShown 3 70_000 (omega arith) (omega arith) (omega arith)

-- -70000.
signed_int-IsShown_example :
    (s : IsShown (signed_int 3) (λ c. decimal_signed) (negsuc 69_999)) × (length s.bytes ≡ 4)
unfolding size_for_k
signed_int-IsShown_example =
    signed_int-IsShown 3 (negsuc 69_999) (omega arith) (omega arith) (omega arith)

bool-IsShown_example : (s : IsShown bool (λ c. bool_text) true) × (length s.bytes ≡ 1)
bool-IsShown_example = bool-IsShown true

abbrev greeting : Text
greeting = ascii "hello"

greeting-is_utf8 : is_utf8 greeting ≡ true
unfolding is_utf8
greeting-is_utf8 = refl

str-IsShown_example : (s : IsShown str (λ c t. t) greeting) × (length s.bytes ≡ 7)
str-IsShown_example = str-IsShown greeting (omega arith) greeting-is_utf8

abbrev number_text : Context → ℕ → Text
number_text c = decimal

seven : IsShown (unsigned_int 3) number_text 7
unfolding size_for_k
seven = (unsigned_int-IsShown 3 7 (omega arith) (omega arith) (omega arith)).0

eight : IsShown (unsigned_int 3) number_text 8
unfolding size_for_k
eight = (unsigned_int-IsShown 3 8 (omega arith) (omega arith) (omega arith)).0

number_schema : IsDelimited (unsigned_int 3).schema
number_schema = unsigned_int-IsDelimited 3 (omega arith) (omega arith)

abbrev own_names : Context
own_names = record {
  string_tables = (option (unsigned_int 3)).string_table (some 7) ∷ [];
  user_formatters = [];
  display_f32 = λ n. [];
  display_f64 = λ n. [];
}

option-IsShown_example :
    (x : IsShown (option (unsigned_int 3)) (option_text (unsigned_int 3) number_text) (some 7))
    × (text : Text) × IsRead own_names (option (unsigned_int 3)).schema x.bytes text
    × IsOptionText (unsigned_int 3) number_text own_names (some 7) text
option-IsShown_example =
    option-IsShown (unsigned_int 3) number_text (some 7) own_names [] number_schema seven refl

abbrev result_names : Context
result_names = record {
  string_tables = (result str (unsigned_int 3)).string_table (inr 7) ∷ [];
  user_formatters = [];
  display_f32 = λ n. [];
  display_f64 = λ n. [];
}

abbrev own_text : Context → Text → Text
own_text c t = t

result-IsShown_example :
    (x : IsShown
      (result str (unsigned_int 3))
      (result_text str (unsigned_int 3) own_text number_text)
      (inr 7))
    × (text : Text) × IsRead result_names (result str (unsigned_int 3)).schema x.bytes text
    × IsResultText str (unsigned_int 3) own_text number_text result_names (inr 7) text
result-IsShown_example =
    result-IsShown str (unsigned_int 3) own_text number_text (inr 7) result_names [] str-IsDelimited
      number_schema seven refl

vec-IsShown_example :
    IsShown
      (vec (unsigned_int 3))
      (λ c xs.
        ascii "["
        ++ (list_text (unsigned_int 3) number_text c 0 (kept (unsigned_int 3) number_text xs)
            ++ ascii "]"))
      (7 ∷ 8 ∷ [])
vec-IsShown_example =
    vec-IsShown (unsigned_int 3) number_text (7 ∷ 8 ∷ []) number_schema (seven, (eight, tt))

array-IsShown_example :
    IsShown
      (array 2 (unsigned_int 3))
      (λ c xs. ascii "[" ++ (list_text (unsigned_int 3) number_text c 0 xs ++ ascii "]"))
      (7 ∷ 8 ∷ [])
unfolding size_for_k
array-IsShown_example =
    array-IsShown (unsigned_int 3) number_text 2 (7 ∷ 8 ∷ []) refl (omega arith) (omega arith)
      (omega arith, (omega arith, tt)) number_schema (seven, (eight, tt))

-- A number and a Boolean.
abbrev pair : Components (ℕ × Bool)
pair = before (unsigned_int 3) (last bool)

abbrev pair_text : Context → ℕ → ℕ × Bool → Text
pair_text = before_text number_text (last_text (λ c. bool_text))

pair-AreComponents : AreComponents pair pair_text (7, true)
pair-AreComponents =
    before-AreComponents (unsigned_int 3) (last bool) number_text (last_text (λ c. bool_text)) 7
      true number_schema seven
      (last-AreComponents bool (λ c. bool_text) true bool-IsDelimited (bool-IsShown true).0)

tuple-IsShown_example :
    IsShown (tuple pair) (λ k x. ascii "(" ++ (pair_text k 0 x ++ ascii ")")) (7, true)
tuple-IsShown_example =
    tuple-IsShown pair pair_text (7, true) (omega arith) (omega arith) pair-AreComponents

map-IsShown_example :
    IsShown
      (map (unsigned_int 3) bool)
      (λ c xs.
        ascii "["
        ++ (entries_text (unsigned_int 3) bool number_text (λ k. bool_text) c 0 xs ++ ascii "]"))
      ((7, true) ∷ [])
unfolding size_for_k
map-IsShown_example =
    map-IsShown (unsigned_int 3) bool number_text (λ k. bool_text) ((7, true) ∷ []) (omega arith)
      (omega arith) (omega arith, tt) number_schema bool-IsDelimited (pair-AreComponents, tt)
