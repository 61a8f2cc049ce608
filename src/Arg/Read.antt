-- ===== src/Arg/Read.antt =====
-- What `format_payload` reads from the bytes of a value, whatever stands behind them.
use rapidlog.Prelude.{
  ℕ, zero, suc, ◌+◌, ◌^◌, ◌≤◌, ◌<◌, ◌≡◌, refl, ap, ap₂, ◌∙◌, sym, subst, List, [], ◌∷◌, ◌++◌,
  append_assoc, append-nil, ok, slice_from_at, slice_at, length, length-append, length-le_bytes,
  le_bytes, All, arith, Text, ascii, bit_and, le→ltb_false,
}
use rapidlog.Arg.Opcode.{seq, category, size_mask, size_for_k, read_unsigned_ne}
use rapidlog.Arg.Commas.{comma, separator-comma}
use rapidlog.Arg.Format.{
  Context, Formatter, format_items, format_seq, format_arm, format_with, format_payload,
}
use rapidlog.Arg.Delimited.{IsDelimited, measure_schema_lem}
use rapidlog.Arg.Numbers.{read_unsigned_ne_lem}

-- With enough fuel, the schema finds the text of these bytes and uses them all, and none behind them.
abbrev pub IsRead : Context → List ℕ → List ℕ → Text → Type 0
IsRead c s bytes text =
    (fuel : ℕ) (rest : List ℕ)
    → length s < fuel
    → format_with fuel c s (bytes ++ rest) ≡ ok (length bytes, text)

pub format_payload_lem :
    (c : Context) (s bytes rest : List ℕ) (text : Text)
    → IsRead c s bytes text
    → format_payload c s (bytes ++ rest) ≡ ok (length bytes, text)
unfolding format_payload
format_payload_lem c s bytes rest text h = h (length s + 1) rest (omega arith)

-- An element of a sequence: its bytes and its text.
abbrev pub bytes_of : List (List ℕ × Text) → List ℕ
bytes_of [] = []
bytes_of ((bytes, text) ∷ items) = bytes ++ bytes_of items

-- The texts from the element numbered `i` on, with separators.
abbrev pub joined : ℕ → List (List ℕ × Text) → Text
joined i [] = []
joined i ((bytes, text) ∷ items) = comma i ++ (text ++ joined (i + 1) items)

module _ (c : Context) where
  abbrev pub AreItems : List ℕ → List (List ℕ × Text) → Type 0
  AreItems s = All (λ (p : List ℕ × Text). IsRead c s p.0 p.1)

  format_items_lem :
      (fuel i pos : ℕ) (elem payload pre rest : List ℕ) (items : List (List ℕ × Text))
      → payload ≡ pre ++ (bytes_of items ++ rest)
      → pos ≡ length pre
      → length elem < fuel
      → AreItems elem items
      → format_items (format_with fuel c) elem (length items) i payload pos
        ≡ ok (pos + length (bytes_of items), joined i items)
  unfolding format_items
  format_items_lem fuel i pos elem payload pre rest [] ep e lt h =
      ap (λ n. ok (n, [])) (omega arith)
  format_items_lem fuel i pos elem payload pre rest ((bytes, text) ∷ items) ep e lt (r, h) =
      let inside =
        format_items_lem fuel (i + 1) (pos + length bytes) elem payload (pre ++ bytes) rest items
          (ep ∙ simp append_assoc) (omega (arith, length-append pre bytes)) lt h in
      rw
        (
          slice_from_at payload pre (bytes ++ (bytes_of items ++ rest)) pos (ep ∙ simp append_assoc)
              e,
          r fuel (bytes_of items ++ rest) lt,
          inside,
        )
        (ap₂ (λ n t. ok (n, t ++ (text ++ joined (i + 1) items)))
          (omega (arith, length-append bytes (bytes_of items))) (separator-comma i))

  format_seq_lem :
      (fuel op k : ℕ) (elem rest : List ℕ) (items : List (List ℕ × Text))
      → 1 ≤ k
      → k ≤ 4
      → length items < 256 ^ size_for_k k
      → IsDelimited elem
      → length elem < fuel
      → AreItems elem items
      → format_seq
          (format_with fuel c)
          k
          (op ∷ elem)
          ((le_bytes (size_for_k k) (length items) ++ bytes_of items) ++ rest)
        ≡ ok (
          length (le_bytes (size_for_k k) (length items) ++ bytes_of items),
          ascii "[" ++ (joined 0 items ++ ascii "]"),
        )
  unfolding format_seq
  format_seq_lem fuel op k elem rest items lo hi small d lt h =
      let n = size_for_k k in
      let count = le_bytes n (length items) in
      let payload = (count ++ bytes_of items) ++ rest in
      let e : payload ≡ count ++ (bytes_of items ++ rest) =
        append_assoc count (bytes_of items) rest in
      let wide : length count ≡ n = length-le_bytes n (length items) in
      let size = length-append count (bytes_of items) in
      let enough : n ≤ length payload =
        omega (arith, length-append (count ++ bytes_of items) rest) in
      let elem_nil : op ∷ elem ≡ (op ∷ []) ++ (elem ++ []) =
        ap (λ x. op ∷ x) (sym (append-nil elem)) in
      rw
        (
          le→ltb_false (length payload) n enough,
          ap (λ p. read_unsigned_ne p k) e
              ∙ read_unsigned_ne_lem k (length items) (bytes_of items ++ rest) lo hi small,
          slice_from_at (op ∷ elem) (op ∷ []) (elem ++ []) 1 elem_nil refl,
          measure_schema_lem elem [] d,
          slice_at (op ∷ elem) (op ∷ []) elem [] 1 (1 + length elem) elem_nil refl refl,
          format_items_lem fuel 0 n elem payload count rest items e (sym wide) lt h,
        )
        (ap (λ m. ok (m, ascii "[" ++ (joined 0 items ++ ascii "]"))) (omega arith))

  -- A sequence with its count in `size_for_k k` bytes.
  pub seq-IsRead :
      (op k : ℕ) (elem : List ℕ) (items : List (List ℕ × Text))
      → category op ≡ seq
      → bit_and op size_mask ≡ k
      → 1 ≤ k
      → k ≤ 4
      → length items < 256 ^ size_for_k k
      → IsDelimited elem
      → AreItems elem items
      → IsRead c
          (op ∷ elem)
          (le_bytes (size_for_k k) (length items) ++ bytes_of items)
          (ascii "[" ++ (joined 0 items ++ ascii "]"))
  unfolding format_with format_arm
  seq-IsRead op k elem items ec ek lo hi small d h zero rest lt = absurd (omega arith)
  seq-IsRead op k elem items ec ek lo hi small d h (suc fuel) rest lt =
      rw (ec, format_arm, ek)
        (format_seq_lem fuel op k elem rest items lo hi small d (omega arith) h)

-- A schema of one byte is read by one arm of the match.
pub leaf-IsRead :
    (c : Context) (op : ℕ) (bytes : List ℕ) (text : Text)
    → ((format : Formatter) (rest : List ℕ)
        → format_arm c format (category op) (bit_and op size_mask) (op ∷ []) (bytes ++ rest)
          ≡ ok (length bytes, text))
    → IsRead c (op ∷ []) bytes text
unfolding format_with
leaf-IsRead c op bytes text arm zero rest lt = absurd (omega arith)
leaf-IsRead c op bytes text arm (suc fuel) rest lt = arm (format_with fuel c) rest

-- The same, of a schema, bytes and a text that are equal to these.
pub IsRead-as :
    (c : Context) (s s' bytes bytes' : List ℕ) (text text' : Text)
    → s ≡ s'
    → bytes ≡ bytes'
    → text ≡ text'
    → IsRead c s bytes text
    → IsRead c s' bytes' text'
IsRead-as c s s' bytes bytes' text text' es eb et r =
    subst (λ x. IsRead c x bytes' text') es
      (subst (λ x. IsRead c s x text') eb (subst (λ x. IsRead c s bytes x) et r))
