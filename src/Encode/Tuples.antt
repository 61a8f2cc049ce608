-- ===== src/Encode/Tuples.antt =====
-- Tuples and maps: what is written, and what the backend makes of it.
use rapidlog.Prelude.{
  ℕ, suc, ◌+◌, ◌≤◌, ◌≡◌, refl, ap, ap₂, ◌∙◌, sym, subst, List, [], ◌∷◌, ◌++◌, append_assoc,
  append-nil, ok, length, length-append, split, All, arith, Text, ascii, bit_or,
}
use rapidlog.Arg.Opcode.{tuple, op_tuple}
use rapidlog.Arg.Commas.{comma}
use rapidlog.Arg.Format.{Context}
use rapidlog.Arg.Heads.{IsHead, tuple-IsHead}
use rapidlog.Arg.Delimited.{IsDelimited, AreDelimited, tuple-IsDelimited, layout}
use rapidlog.Arg.Read.{IsRead, IsRead-as}
use rapidlog.Arg.Pieces.{Piece, IsPiece, plain, piece_bytes, tuple_text, tuple-IsRead}
use rapidlog.Encode.Defs.{Encode}
use rapidlog.Encode.Compound
use rapidlog.Encode.Compound.{Components}
use rapidlog.Encode.Shown.{IsShown, encode_at_lem}

-- The components' schemas, one behind another, each of which tells its own length.
pub record AreSchemas {T : Type 0} (c : Components T) : Type 0 where
  pub parts : List (List ℕ × List ℕ)
  pub joined : layout parts ≡ c.schemas
  pub counted : length parts ≡ c.count
  pub delimited : AreDelimited 0 parts

pub last-AreSchemas :
    {A : Type 0} (e : Encode A) → IsDelimited e.schema → AreSchemas (Compound.last e)
last-AreSchemas e d = record {
  parts = ([], e.schema) ∷ [];
  joined = append-nil e.schema;
  counted = refl;
  delimited = ((refl, d), tt);
}

pub before-AreSchemas :
    {A B : Type 0} (e : Encode A) (c : Components B)
    → IsDelimited e.schema
    → AreSchemas c
    → AreSchemas (Compound.before e c)
before-AreSchemas e c d s = record {
  parts = ([], e.schema) ∷ s.parts;
  joined = ap (λ x. e.schema ++ x) s.joined;
  counted = ap suc s.counted;
  delimited = ((refl, d), s.delimited);
}

pub tuple-IsDelimited_lem :
    {T : Type 0} (c : Components T)
    → 1 ≤ c.count
    → c.count ≤ 15
    → AreSchemas c
    → IsDelimited (Compound.tuple c).schema
tuple-IsDelimited_lem c lo hi s =
    let op = bit_or op_tuple c.count in
    subst (λ x. IsDelimited (op ∷ x)) s.joined
      (tuple-IsDelimited op [] s.parts
        (subst (λ n. IsHead tuple n op []) (sym s.counted) (tuple-IsHead c.count lo hi))
        s.delimited)

-- A tuple's components are written from any place on, and they are parts that the formatter reads; the
-- text of the components depends on whether others stand before them.
pub record AreComponents {T : Type 0} (c : Components T) (shown : Context → ℕ → T → Text) (v : T)
    : Type 0 where
  pub bytes : List ℕ
  pub fits : length bytes ≤ c.size v
  pub written :
      (pos : ℕ) (pre old rest : List ℕ)
      → pos ≡ length pre
      → length old ≡ length bytes
      → c.encode_from v (pre ++ (old ++ rest)) pos ≡ ok (pos + length bytes, pre ++ (bytes ++ rest))
  pub pieces : Context → List Piece
  pub are_pieces : (k : Context) → All (IsPiece k) (pieces k)
  pub joined : (k : Context) → piece_bytes (pieces k) ≡ bytes
  pub schemas : (k : Context) → layout (plain (pieces k)) ≡ c.schemas
  pub counted : (k : Context) → length (pieces k) ≡ c.count
  pub texts : (k : Context) (i : ℕ) → tuple_text i (pieces k) ≡ shown k i v

abbrev piece_of :
    {A : Type 0} (e : Encode A) (shown : Context → A → Text) (a : A)
    → IsShown e shown a
    → Context
    → Piece
piece_of e shown a s k = record { offset = 0; schema = e.schema; bytes = s.bytes; text = shown k a }

abbrev pub last_text : {A : Type 0} → (Context → A → Text) → Context → ℕ → A → Text
last_text shown k i a = comma i ++ shown k a

pub last-AreComponents :
    {A : Type 0} (e : Encode A) (shown : Context → A → Text) (a : A)
    → IsDelimited e.schema
    → IsShown e shown a
    → AreComponents (Compound.last e) (last_text shown) a
last-AreComponents e shown a d s = record {
  bytes = s.bytes;
  fits = s.fits;
  written = λ pos pre old rest at size. encode_at_lem e shown a pos pre old rest s at size;
  pieces = λ k. piece_of e shown a s k ∷ [];
  are_pieces = λ k. (record { small = omega arith; delimited = d; read = s.read k }, tt);
  joined = λ k. append-nil s.bytes;
  schemas = λ k. append-nil e.schema;
  counted = λ k. refl;
  texts = λ k i. ap (λ t. comma i ++ t) (append-nil (shown k a));
}

abbrev pub before_text :
    {A B : Type 0} → (Context → A → Text) → (Context → ℕ → B → Text) → Context → ℕ → A × B → Text
before_text shown texts k i (a, b) = comma i ++ (shown k a ++ texts k (i + 1) b)

pub before-AreComponents :
    {A B : Type 0} (e : Encode A) (c : Components B) (shown : Context → A → Text)
    (texts : Context → ℕ → B → Text) (a : A) (b : B)
    → IsDelimited e.schema
    → IsShown e shown a
    → AreComponents c texts b
    → AreComponents (Compound.before e c) (before_text shown texts) (a, b)
before-AreComponents e c shown texts a b d s h = record {
  bytes = s.bytes ++ h.bytes;
  fits = omega (arith, s.fits, h.fits, length-append s.bytes h.bytes);
  written = go;
  pieces = λ k. piece_of e shown a s k ∷ h.pieces k;
  are_pieces =
      λ k. (record { small = omega arith; delimited = d; read = s.read k }, h.are_pieces k);
  joined = λ k. ap (λ x. s.bytes ++ x) (h.joined k);
  schemas = λ k. ap (λ x. e.schema ++ x) (h.schemas k);
  counted = λ k. ap suc (h.counted k);
  texts = λ k i. ap (λ t. comma i ++ (shown k a ++ t)) (h.texts k (i + 1));
}
  where
    go :
        (pos : ℕ) (pre old rest : List ℕ)
        → pos ≡ length pre
        → length old ≡ length (s.bytes ++ h.bytes)
        → Compound.before_encode_from e c (a, b) (pre ++ (old ++ rest)) pos
          ≡ ok (pos + length (s.bytes ++ h.bytes), pre ++ ((s.bytes ++ h.bytes) ++ rest))
    go pos pre old rest at size =
        let total = length-append s.bytes h.bytes in
        let o = split old (length s.bytes) (omega arith) in
        let cut : pre ++ (old ++ rest) ≡ pre ++ (o.front ++ (o.back ++ rest)) =
          ap (λ x. pre ++ (x ++ rest)) o.joined ∙ simp append_assoc in
        let group : pre ++ (s.bytes ++ (o.back ++ rest)) ≡ (pre ++ s.bytes) ++ (o.back ++ rest) =
          simp append_assoc in
        let group' : (pre ++ s.bytes) ++ (h.bytes ++ rest) ≡ pre ++ ((s.bytes ++ h.bytes) ++ rest) =
          simp append_assoc in
        rw
          (
            cut,
            encode_at_lem e shown a pos pre o.front (o.back ++ rest) s at o.front_length,
            group,
            h.written (pos + length s.bytes) (pre ++ s.bytes) o.back rest
                (omega (arith, length-append pre s.bytes)) (omega (arith, o.back_length)),
          )
          (ap₂ (λ n x. ok (n, x)) (omega arith) group')

-- The formatter on the bytes of all components.
pub tuple-IsRead_lem :
    {T : Type 0} (c : Components T) (shown : Context → ℕ → T → Text) (v : T)
    → 1 ≤ c.count
    → c.count ≤ 15
    → (h : AreComponents c shown v) (k : Context)
    → IsRead k (Compound.tuple c).schema h.bytes (ascii "(" ++ (shown k 0 v ++ ascii ")"))
tuple-IsRead_lem c shown v lo hi h k =
    let op = bit_or op_tuple c.count in
    let ps = h.pieces k in
    IsRead-as k (op ∷ layout (plain ps)) (op ∷ c.schemas) (piece_bytes ps) h.bytes
      (ascii "(" ++ (tuple_text 0 ps ++ ascii ")")) (ascii "(" ++ (shown k 0 v ++ ascii ")"))
      (ap (λ x. op ∷ x) (h.schemas k)) (h.joined k)
      (ap (λ t. ascii "(" ++ (t ++ ascii ")")) (h.texts k 0))
      (tuple-IsRead k op [] ps
        (subst (λ n. IsHead tuple n op []) (sym (h.counted k)) (tuple-IsHead c.count lo hi))
        (h.are_pieces k))

-- A tuple of at least one and at most 15 components, each written and read back as its text and with a
-- schema that tells its own length: `encode_to` writes them, no more than `encoded_size` bytes, and leaves what follows, and the formatter, with the
-- tuple's schema, writes their texts in parentheses, with commas between them.
pub tuple-IsShown :
    {T : Type 0} (c : Components T) (shown : Context → ℕ → T → Text) (v : T)
    → 1 ≤ c.count
    → c.count ≤ 15
    → AreComponents c shown v
    → IsShown (Compound.tuple c) (λ k x. ascii "(" ++ (shown k 0 x ++ ascii ")")) v
tuple-IsShown c shown v lo hi h = record {
  bytes = h.bytes;
  fits = h.fits;
  written = λ old rest size.
      h.written 0 [] old rest refl size ∙ ap (λ n. ok (n, h.bytes ++ rest)) (omega arith);
  read = tuple-IsRead_lem c shown v lo hi h;
}
