-- ===== src/Macros/Arguments.antt =====
-- The arguments of a call: what is written for them all, and what the backend makes of it.
use rapidlog.Prelude.{
  ℕ, suc, ◌+◌, ◌≤◌, ◌≡◌, refl, ap, ap₂, ◌∙◌, List, [], ◌∷◌, ◌++◌, append_assoc, ok, split, length,
  length-append, All, arith, Text,
}
use rapidlog.Arg.Format.{Context}
use rapidlog.Arg.Delimited.{IsDelimited}
use rapidlog.Body.Defs.{FloatDisplay}
use rapidlog.Body.Template.{Shape, schemas_of, payload_of, texts_of, arg_context, AreShapes}
use rapidlog.Metadata.{Metadata}
use rapidlog.Encode.Shown.{IsShown, encode_at_lem}
use rapidlog.Macros.Defs.{Argument, schemas, payloads_size, encode_args}

-- The argument is written, measured and read back as its type's text.
pub record IsLoggable (a : Argument) : Type 0 where
  pub shown : Context → a.T → Text
  pub is_shown : IsShown a.encoder shown a.value
  pub delimited : IsDelimited a.encoder.schema

abbrev pub AreLoggable : List Argument → Type 0
AreLoggable = All IsLoggable

abbrev pub arg_bytes : (args : List Argument) → AreLoggable args → List ℕ
arg_bytes [] h = []
arg_bytes (a ∷ args) (s, h) = s.is_shown.bytes ++ arg_bytes args h

-- The texts of the arguments from the one numbered `idx` on, each in its own context.
abbrev pub arg_texts :
    FloatDisplay → Metadata → ℕ → (args : List Argument) → AreLoggable args → List Text
arg_texts floats m idx [] h = []
arg_texts floats m idx (a ∷ args) (s, h) =
    s.shown (arg_context floats m idx) a.value ∷ arg_texts floats m (idx + 1) args h

abbrev pub shapes :
    FloatDisplay → Metadata → ℕ → (args : List Argument) → AreLoggable args → List Shape
shapes floats m idx [] h = []
shapes floats m idx (a ∷ args) (s, h) =
    record {
      schema = a.encoder.schema;
      bytes = s.is_shown.bytes;
      text = s.shown (arg_context floats m idx) a.value;
    }
    ∷ shapes floats m (idx + 1) args h

pub arg_bytes-le :
    (args : List Argument) (h : AreLoggable args) → length (arg_bytes args h) ≤ payloads_size args
unfolding payloads_size
arg_bytes-le [] h = omega arith
arg_bytes-le (a ∷ args) (s, h) =
    omega (
      arith,
      s.is_shown.fits,
      length-append s.is_shown.bytes (arg_bytes args h),
      arg_bytes-le args h,
    )

pub encode_args_lem :
    (args : List Argument) (h : AreLoggable args) (pos : ℕ) (pre old rest : List ℕ)
    → pos ≡ length pre
    → length old ≡ length (arg_bytes args h)
    → encode_args args (pre ++ (old ++ rest)) pos
      ≡ ok (pos + length (arg_bytes args h), pre ++ (arg_bytes args h ++ rest))
unfolding encode_args
encode_args_lem [] h pos pre [] rest at size = ap (λ n. ok (n, pre ++ rest)) (omega arith)
encode_args_lem [] h pos pre (x ∷ old) rest at size = absurd (omega arith)
encode_args_lem (a ∷ args) (s, h) pos pre old rest at size =
    let bytes = s.is_shown.bytes in
    let more = arg_bytes args h in
    let total = length-append bytes more in
    let o = split old (length bytes) (omega arith) in
    let cut : pre ++ (old ++ rest) ≡ pre ++ (o.front ++ (o.back ++ rest)) =
      ap (λ x. pre ++ (x ++ rest)) o.joined ∙ simp append_assoc in
    let group : pre ++ (bytes ++ (o.back ++ rest)) ≡ (pre ++ bytes) ++ (o.back ++ rest) =
      simp append_assoc in
    let group' : (pre ++ bytes) ++ (more ++ rest) ≡ pre ++ ((bytes ++ more) ++ rest) =
      simp append_assoc in
    rw
      (
        cut,
        encode_at_lem a.encoder s.shown a.value pos pre o.front (o.back ++ rest) s.is_shown at
            o.front_length,
        group,
        encode_args_lem args h (pos + length bytes) (pre ++ bytes) o.back rest
            (omega (arith, length-append pre bytes)) (omega (arith, o.back_length)),
      )
      (ap₂ (λ n x. ok (n, x)) (omega arith) group')

module _ (floats : FloatDisplay) (m : Metadata) where
  pub payload_of-shapes :
      (idx : ℕ) (args : List Argument) (h : AreLoggable args)
      → payload_of (shapes floats m idx args h) ≡ arg_bytes args h
  payload_of-shapes idx [] h = refl
  payload_of-shapes idx (a ∷ args) (s, h) =
      ap (λ x. s.is_shown.bytes ++ x) (payload_of-shapes (idx + 1) args h)

  pub schemas_of-shapes :
      (idx : ℕ) (args : List Argument) (h : AreLoggable args)
      → schemas_of (shapes floats m idx args h) ≡ schemas args
  unfolding schemas
  schemas_of-shapes idx [] h = refl
  schemas_of-shapes idx (a ∷ args) (s, h) =
      ap (λ x. a.encoder.schema ++ x) (schemas_of-shapes (idx + 1) args h)

  pub length-shapes :
      (idx : ℕ) (args : List Argument) (h : AreLoggable args)
      → length (shapes floats m idx args h) ≡ length args
  length-shapes idx [] h = refl
  length-shapes idx (a ∷ args) (s, h) = ap suc (length-shapes (idx + 1) args h)

  pub shapes-AreShapes :
      (idx : ℕ) (args : List Argument) (h : AreLoggable args)
      → AreShapes floats m idx (shapes floats m idx args h)
  shapes-AreShapes idx [] h = tt
  shapes-AreShapes idx (a ∷ args) (s, h) =
      ((s.delimited, s.is_shown.read (arg_context floats m idx)), shapes-AreShapes (idx + 1) args h)

  pub texts_of-shapes :
      (idx : ℕ) (args : List Argument) (h : AreLoggable args)
      → texts_of (shapes floats m idx args h) ≡ arg_texts floats m idx args h
  texts_of-shapes idx [] h = refl
  texts_of-shapes idx (a ∷ args) (s, h) =
      ap (λ x. s.shown (arg_context floats m idx) a.value ∷ x) (texts_of-shapes (idx + 1) args h)
