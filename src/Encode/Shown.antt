-- ===== src/Encode/Shown.antt =====
-- A value and its text: what an encoder writes, and what the backend reads from that.
use rapidlog.Prelude.{
  ℕ, suc, ◌+◌, ◌≤◌, ◌≡◌, refl, ap, ap₂, ◌∙◌, sym, List, [], ◌∷◌, ◌++◌, append_assoc, ok,
  slice_from_at, take-append_length, split, length, length-append, All, arith, Text, write_at,
  write_at-append,
}
use rapidlog.Arg.Commas.{comma}
use rapidlog.Arg.Format.{Context}
use rapidlog.Arg.Read.{IsRead, bytes_of, joined, AreItems}
use rapidlog.Encode.Defs.{Encode, encode_at, encode_items, sizes}

-- `encode_to` writes these bytes to the front of any buffer that is long enough, and leaves the rest of
-- it; they are no more than `encoded_size`; and `format_payload` with the encoder's schema reads the
-- text from them, whatever follows. The text may depend on the context, which has the string tables.
pub record IsShown {T : Type 0} (e : Encode T) (shown : Context → T → Text) (v : T) : Type 0 where
  pub bytes : List ℕ
  pub fits : length bytes ≤ e.encoded_size v
  pub written :
      (old rest : List ℕ)
      → length old ≡ length bytes
      → e.encode_to v (old ++ rest) ≡ ok (length bytes, bytes ++ rest)
  pub read : (c : Context) → IsRead c e.schema bytes (shown c v)

-- A write of as many bytes as stand in the front part replaces that part.
pub write_front :
    (bytes old rest : List ℕ)
    → length old ≡ length bytes
    → write_at (old ++ rest) 0 bytes ≡ ok (bytes ++ rest)
write_front bytes old rest e = write_at-append [] old rest bytes 0 refl (sym e)

module _ {T : Type 0} (e : Encode T) (shown : Context → T → Text) where
  pub encode_at_lem :
      (v : T) (pos : ℕ) (pre old rest : List ℕ) (s : IsShown e shown v)
      → pos ≡ length pre
      → length old ≡ length s.bytes
      → encode_at e v (pre ++ (old ++ rest)) pos
        ≡ ok (pos + length s.bytes, pre ++ (s.bytes ++ rest))
  unfolding encode_at
  encode_at_lem v pos pre old rest s at size =
      rw
        (
          slice_from_at (pre ++ (old ++ rest)) pre (old ++ rest) pos refl at,
          s.written old rest size,
          at,
          take-append_length pre (old ++ rest),
        )
        refl

  abbrev pub AreShown : List T → Type 0
  AreShown = All (IsShown e shown)

  -- The bytes of all elements, and each one's bytes and text.
  abbrev pub all_bytes : (vs : List T) → AreShown vs → List ℕ
  all_bytes [] h = []
  all_bytes (v ∷ vs) (s, h) = s.bytes ++ all_bytes vs h

  abbrev pub items : Context → (vs : List T) → AreShown vs → List (List ℕ × Text)
  items c [] h = []
  items c (v ∷ vs) (s, h) = (s.bytes, shown c v) ∷ items c vs h

  -- The texts from the element numbered `i` on, with separators.
  abbrev pub list_text : Context → ℕ → List T → Text
  list_text c i [] = []
  list_text c i (v ∷ vs) = comma i ++ (shown c v ++ list_text c (i + 1) vs)

  pub all_bytes-le : (vs : List T) (h : AreShown vs) → length (all_bytes vs h) ≤ sizes e vs
  unfolding sizes
  all_bytes-le [] h = omega arith
  all_bytes-le (v ∷ vs) (s, h) =
      omega (arith, s.fits, length-append s.bytes (all_bytes vs h), all_bytes-le vs h)

  pub bytes_of-items :
      (c : Context) (vs : List T) (h : AreShown vs) → bytes_of (items c vs h) ≡ all_bytes vs h
  bytes_of-items c [] h = refl
  bytes_of-items c (v ∷ vs) (s, h) = ap (λ x. s.bytes ++ x) (bytes_of-items c vs h)

  pub joined-items :
      (c : Context) (i : ℕ) (vs : List T) (h : AreShown vs)
      → joined i (items c vs h) ≡ list_text c i vs
  joined-items c i [] h = refl
  joined-items c i (v ∷ vs) (s, h) =
      ap (λ x. comma i ++ (shown c v ++ x)) (joined-items c (i + 1) vs h)

  pub length-items :
      (c : Context) (vs : List T) (h : AreShown vs) → length (items c vs h) ≡ length vs
  length-items c [] h = refl
  length-items c (v ∷ vs) (s, h) = ap suc (length-items c vs h)

  pub items-AreItems :
      (c : Context) (vs : List T) (h : AreShown vs) → AreItems c e.schema (items c vs h)
  items-AreItems c [] h = tt
  items-AreItems c (v ∷ vs) (s, h) = (s.read c, items-AreItems c vs h)

  pub encode_items_lem :
      (vs : List T) (h : AreShown vs) (pos : ℕ) (pre old rest : List ℕ)
      → pos ≡ length pre
      → length old ≡ length (all_bytes vs h)
      → encode_items e vs (pre ++ (old ++ rest)) pos
        ≡ ok (pos + length (all_bytes vs h), pre ++ (all_bytes vs h ++ rest))
  unfolding encode_items
  encode_items_lem [] h pos pre [] rest at size = ap (λ n. ok (n, pre ++ rest)) (omega arith)
  encode_items_lem [] h pos pre (x ∷ old) rest at size = absurd (omega arith)
  encode_items_lem (v ∷ vs) (s, h) pos pre old rest at size =
      let more = all_bytes vs h in
      let total = length-append s.bytes more in
      let o = split old (length s.bytes) (omega arith) in
      let cut : pre ++ (old ++ rest) ≡ pre ++ (o.front ++ (o.back ++ rest)) =
        ap (λ x. pre ++ (x ++ rest)) o.joined ∙ simp append_assoc in
      let group : pre ++ (s.bytes ++ (o.back ++ rest)) ≡ (pre ++ s.bytes) ++ (o.back ++ rest) =
        simp append_assoc in
      let group' : (pre ++ s.bytes) ++ (more ++ rest) ≡ pre ++ ((s.bytes ++ more) ++ rest) =
        simp append_assoc in
      rw
        (
          cut,
          encode_at_lem v pos pre o.front (o.back ++ rest) s at o.front_length,
          group,
          encode_items_lem vs h (pos + length s.bytes) (pre ++ s.bytes) o.back rest
              (omega (arith, length-append pre s.bytes)) (omega (arith, o.back_length)),
        )
        (ap₂ (λ n x. ok (n, x)) (omega arith) group')
