-- ===== src/Derive/Structs.antt =====
-- Derived structs with named fields.
use rapidlog.Prelude.{
  ℕ, suc, ◌≤◌, ◌<◌, ◌≡◌, refl, ap, ap₂, ◌∙◌, sym, subst, List, [], ◌∷◌, ◌++◌, ok, length, arith,
  Text, ascii, le_bytes,
}
use rapidlog.Arg.Opcode.{struct, tuple, op_struct, op_tuple}
use rapidlog.Arg.Format.{Context}
use rapidlog.Arg.Delimited.{
  IsDelimited, AreDelimited, struct-IsDelimited, tuple-IsDelimited, layout,
}
use rapidlog.Arg.Heads.{IsHead}
use rapidlog.Arg.Read.{IsRead, IsRead-as}
use rapidlog.Arg.Pieces
use rapidlog.Arg.Pieces.{named, plain, tuple-IsRead, struct-IsRead, piece_bytes}
use rapidlog.Encode.Shown.{IsShown}
use rapidlog.Macros.Arguments.{AreLoggable, arg_bytes, arg_bytes-le, encode_args_lem}
use rapidlog.Macros.Defs.{Argument, encode_args}
use rapidlog.Derive.Defs.{
  Field, values, count_head, with_name, next_offset, named_schema, unnamed_schema,
  struct_schema_named, struct_schema_unnamed, derive_struct,
}
use rapidlog.Derive.Fields

-- The arguments written from the front of a buffer on.
pub encode_args-front :
    (args : List Argument) (h : AreLoggable args) (old rest : List ℕ)
    → length old ≡ length (arg_bytes args h)
    → encode_args args (old ++ rest) 0 ≡ ok (length (arg_bytes args h), arg_bytes args h ++ rest)
encode_args-front args h old rest size =
    encode_args_lem args h 0 [] old rest refl size
    ∙ ap (λ n. ok (n, arg_bytes args h ++ rest)) (omega arith)

module _ {S : Type 0} (fs : List (Field S)) (ts : Fields.HaveTexts fs) where
  pub struct_schema_named-IsRead :
      (c : Context) (v : S) (h : Fields.AreShownFields fs ts v) (table : List ℕ)
      → 1 ≤ length fs
      → length fs < 65536
      → IsRead c
          (struct_schema_named fs table)
          (arg_bytes (values fs v) (Fields.values-AreLoggable fs ts v h))
          (ascii "{" ++ (Fields.named_text c fs ts 0 table v ++ ascii "}"))
  unfolding struct_schema_named
  struct_schema_named-IsRead c v h table some_field few =
      let k = Fields.struct_head (length fs) some_field few in
      let ps = Fields.pieces c fs ts v h table in
      let count : length fs ≡ length ps = sym (Fields.length-pieces c fs ts v h table) in
      let schema : k.op ∷ (k.tail ++ (0 ∷ layout (named ps)))
          ≡ count_head op_struct (length fs) ++ (0 ∷ named_schema fs table) =
        ap₂ (λ x y. x ++ (0 ∷ y)) (sym k.bytes) (Fields.layout-named-pieces c fs ts v h table) in
      let base =
        struct-IsRead c k.op 0 k.tail ps (subst (λ n. IsHead struct n k.op k.tail) count k.head)
          (Fields.pieces-IsPiece c fs ts v h table) in
      IsRead-as c (k.op ∷ (k.tail ++ (0 ∷ layout (named ps)))) (struct_schema_named fs table)
        (piece_bytes ps) (arg_bytes (values fs v) (Fields.values-AreLoggable fs ts v h))
        (ascii "{" ++ (Pieces.struct_text c 0 0 ps ++ ascii "}"))
        (ascii "{" ++ (Fields.named_text c fs ts 0 table v ++ ascii "}")) schema
        (Fields.piece_bytes-pieces c fs ts v h table)
        (ap (λ t. ascii "{" ++ (t ++ ascii "}")) (Fields.struct_text-pieces c fs ts 0 v h table))
        base

  pub struct_schema_unnamed-IsRead :
      (c : Context) (v : S) (h : Fields.AreShownFields fs ts v)
      → 1 ≤ length fs
      → length fs < 65536
      → IsRead c
          (struct_schema_unnamed fs)
          (arg_bytes (values fs v) (Fields.values-AreLoggable fs ts v h))
          (ascii "(" ++ (Fields.unnamed_text c fs ts 0 v ++ ascii ")"))
  unfolding struct_schema_unnamed
  struct_schema_unnamed-IsRead c v h some_field few =
      let k = Fields.tuple_head (length fs) some_field few in
      let ps = Fields.pieces c fs ts v h [] in
      let count : length fs ≡ length ps = sym (Fields.length-pieces c fs ts v h []) in
      let schema : k.op ∷ (k.tail ++ layout (plain ps))
          ≡ count_head op_tuple (length fs) ++ unnamed_schema fs =
        ap₂ (λ x y. x ++ y) (sym k.bytes) (Fields.layout-plain-pieces c fs ts v h []) in
      let base =
        tuple-IsRead c k.op k.tail ps (subst (λ n. IsHead tuple n k.op k.tail) count k.head)
          (Fields.pieces-IsPiece c fs ts v h []) in
      IsRead-as c (k.op ∷ (k.tail ++ layout (plain ps))) (struct_schema_unnamed fs) (piece_bytes ps)
        (arg_bytes (values fs v) (Fields.values-AreLoggable fs ts v h))
        (ascii "(" ++ (Pieces.tuple_text 0 ps ++ ascii ")"))
        (ascii "(" ++ (Fields.unnamed_text c fs ts 0 v ++ ascii ")")) schema
        (Fields.piece_bytes-pieces c fs ts v h [])
        (ap (λ t. ascii "(" ++ (t ++ ascii ")")) (Fields.tuple_text-pieces c fs ts 0 v h [])) base

  named_delimited :
      (gs : List (Field S)) (us : Fields.HaveTexts gs) (table : List ℕ)
      → (ps : List (List ℕ × List ℕ)) × (layout ps ≡ named_schema gs table)
        × (length ps ≡ length gs)
        × AreDelimited 2 ps
  unfolding named_schema
  named_delimited [] us table = ([], refl, refl, tt)
  named_delimited (g ∷ gs) (u, us) table =
      let (ps, e, n, d) = named_delimited gs us (with_name table g.name) in
      (
        (le_bytes 2 (next_offset table), g.encoder.schema) ∷ ps,
        ap (λ x. le_bytes 2 (next_offset table) ++ (g.encoder.schema ++ x)) e,
        ap suc n,
        ((refl, u.delimited), d),
      )

  plain_delimited :
      (gs : List (Field S)) (us : Fields.HaveTexts gs)
      → (ps : List (List ℕ × List ℕ)) × (layout ps ≡ unnamed_schema gs)
        × (length ps ≡ length gs)
        × AreDelimited 0 ps
  unfolding unnamed_schema
  plain_delimited [] us = ([], refl, refl, tt)
  plain_delimited (g ∷ gs) (u, us) =
      let (ps, e, n, d) = plain_delimited gs us in
      (
        ([], g.encoder.schema) ∷ ps,
        ap (λ x. g.encoder.schema ++ x) e,
        ap suc n,
        ((refl, u.delimited), d),
      )

  pub struct_schema_named-IsDelimited :
      (table : List ℕ)
      → 1 ≤ length fs
      → length fs < 65536
      → IsDelimited (struct_schema_named fs table)
  unfolding struct_schema_named
  struct_schema_named-IsDelimited table some_field few =
      let k = Fields.struct_head (length fs) some_field few in
      let (ps, e, n, d) = named_delimited fs ts table in
      subst (λ s. IsDelimited s) (ap₂ (λ x y. x ++ (0 ∷ y)) (sym k.bytes) e)
        (struct-IsDelimited k.op k.tail 0 ps
          (subst (λ m. IsHead struct m k.op k.tail) (sym n) k.head) d)

  pub struct_schema_unnamed-IsDelimited :
      1 ≤ length fs → length fs < 65536 → IsDelimited (struct_schema_unnamed fs)
  unfolding struct_schema_unnamed
  struct_schema_unnamed-IsDelimited some_field few =
      let k = Fields.tuple_head (length fs) some_field few in
      let (ps, e, n, d) = plain_delimited fs ts in
      subst (λ s. IsDelimited s) (ap₂ (λ x y. x ++ y) (sym k.bytes) e)
        (tuple-IsDelimited k.op k.tail ps (subst (λ m. IsHead tuple m k.op k.tail) (sym n) k.head)
          d)

  -- The text of a derived struct.
  abbrev pub struct_text : Context → S → Text
  struct_text c v = ascii "{" ++ (Fields.named_text c fs ts 0 [] v ++ ascii "}")

  -- A derived struct of at least one and fewer than 65536 named fields, each of which is written and
  -- read back as its text: `encode_to` writes no more than `encoded_size` tells and leaves what follows,
  -- and the formatter, with the derived schema, writes the fields' texts in their order, each behind the
  -- name that stands at its offset in the first string table.
  pub derive_struct-IsShown :
      (v : S)
      → 1 ≤ length fs
      → length fs < 65536
      → Fields.AreShownFields fs ts v
      → IsShown (derive_struct fs) struct_text v
  unfolding derive_struct struct_schema_named
  derive_struct-IsShown v some_field few h =
      let args = Fields.values-AreLoggable fs ts v h in
      record {
        bytes = arg_bytes (values fs v) args;
        fits = arg_bytes-le (values fs v) args;
        written = λ old rest size. encode_args-front (values fs v) args old rest size;
        read = λ c. struct_schema_named-IsRead c v h [] some_field few;
      }
