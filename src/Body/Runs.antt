-- ===== src/Body/Runs.antt =====
-- The body of a call with a number.
use rapidlog.Prelude.{◌≡◌, refl, List, [], ◌∷◌, ◌++◌, ok, arith, ascii, decimal}
use rapidlog.Arg.Opcode.{size_for_k}
use rapidlog.Level.{warning}
use rapidlog.Metadata.{Metadata}
use rapidlog.Encode.Primitives.{unsigned_int}
use rapidlog.Encode.Leaves.{unsigned_int-IsDelimited}
use rapidlog.Encode.RoundTrip.{unsigned_int-IsShown}
use rapidlog.Encode.Shown.{IsShown}
use rapidlog.Body.Defs.{FloatDisplay, format_body}
use rapidlog.Body.Template.{
  Template, end, hole, filled, printed, Shape, AreShapes, arg_context, payload_of, texts_of,
  format_body_lem,
}

abbrev no_floats : FloatDisplay
no_floats = record { display_f32 = λ n. []; display_f64 = λ n. [] }

seven : IsShown (unsigned_int 3) (λ c. decimal) 7
unfolding size_for_k
seven = (unsigned_int-IsShown 3 7 (omega arith) (omega arith) (omega arith)).0

abbrev args : List Shape
unfolding seven
args = record { schema = (unsigned_int 3).schema; bytes = seven.bytes; text = decimal 7 } ∷ []

-- Two holes, the second of which stays empty.
abbrev template : Template
template = hole (ascii "n=") [] (hole (ascii " ") (ascii ":?") (end (ascii "!")))

abbrev site : Metadata
site = record {
  level = warning;
  format_str = ascii "n={} {:?}!";
  file = ascii "a.rs";
  line = 3;
  module_path = ascii "a";
  schema_provider = 1 ∷ (unsigned_int 3).schema;
  string_tables_provider = [] ∷ [];
  user_formatters_provider = [];
}

args-AreShapes : AreShapes no_floats site 0 args
unfolding args
args-AreShapes = (
  (
    unsigned_int-IsDelimited 3 (omega arith) (omega arith),
    seven.read (arg_context no_floats site 0),
  ),
  tt,
)

format_body_lem_example :
    format_body no_floats site (payload_of args ++ (1 ∷ 2 ∷ []))
    ≡ ok (filled template (texts_of args))
unfolding args printed
format_body_lem_example =
    format_body_lem no_floats site template args (1 ∷ 2 ∷ []) (omega arith)
      ((refl, (refl, tt)), tt, ((refl, tt), (refl, (refl, tt)), (refl, tt))) refl refl
      args-AreShapes
