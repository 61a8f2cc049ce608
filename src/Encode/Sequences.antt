-- ===== src/Encode/Sequences.antt =====
-- Vectors and arrays: what is written, and what the backend makes of it.
use rapidlog.Prelude.{
  ℕ, ◌+◌, ◌*◌, ◌^◌, ◌%◌, ◌≤◌, ◌<◌, ◌≡◌, refl, ap, ap₂, ◌∙◌, sym, List, [], ◌∷◌, ◌++◌, append_assoc,
  ok, ◌>>=◌, write_at, take, length, length-take, le_bytes, split, arith, Text, ascii, bit_or, ◌==◌,
  All, false, zero, suc, min,
}
use rapidlog.Arg.Opcode.{category, op_seq, size_for_k}
use rapidlog.Arg.Format.{Context}
use rapidlog.Arg.Delimited.{IsDelimited, seq-IsDelimited}
use rapidlog.Arg.Read.{IsRead, IsRead-as, seq-IsRead, bytes_of, joined}
use rapidlog.Encode.Defs.{Encode, encode_items, sizes}
use rapidlog.Encode.Container.{vec, vec_count}
use rapidlog.Encode.Compound.{array, first_size}
use rapidlog.Encode.Shown.{
  IsShown, write_front, AreShown, all_bytes, items, list_text, all_bytes-le, bytes_of-items,
  joined-items, length-items, items-AreItems, encode_items_lem,
}

module _ {T : Type 0} (e : Encode T) (shown : Context → T → Text) where
  seq_schema-IsDelimited : IsDelimited e.schema → IsDelimited (bit_or op_seq 2 ∷ e.schema)
  unfolding category
  seq_schema-IsDelimited d = seq-IsDelimited (bit_or op_seq 2) e.schema refl d

  -- The count in two bytes, and the elements.
  counted : (vs : List T) → AreShown e shown vs → List ℕ
  counted vs h = le_bytes 2 (length vs) ++ all_bytes e shown vs h

  counted_length :
      (vs : List T) (h : AreShown e shown vs)
      → length (counted vs h) ≡ 2 + length (all_bytes e shown vs h)
  unfolding counted
  counted_length vs h = omega arith

  counted-IsRead :
      (c : Context) (vs : List T) (h : AreShown e shown vs)
      → length vs < 65536
      → IsDelimited e.schema
      → IsRead c
          (bit_or op_seq 2 ∷ e.schema)
          (counted vs h)
          (ascii "[" ++ (list_text e shown c 0 vs ++ ascii "]"))
  unfolding counted category size_for_k
  counted-IsRead c vs h few d =
      let is = items e shown c vs h in
      let count : length is ≡ length vs = length-items e shown c vs h in
      let schema = bit_or op_seq 2 ∷ e.schema in
      IsRead-as c schema schema (le_bytes 2 (length is) ++ bytes_of is) (counted vs h)
        (ascii "[" ++ (joined 0 is ++ ascii "]"))
        (ascii "[" ++ (list_text e shown c 0 vs ++ ascii "]")) refl
        (ap₂ (λ n x. le_bytes 2 n ++ x) count (bytes_of-items e shown c vs h))
        (ap (λ t. ascii "[" ++ (t ++ ascii "]")) (joined-items e shown c 0 vs h))
        (seq-IsRead c (bit_or op_seq 2) 2 e.schema is refl refl (omega arith) (omega arith)
          (omega (arith, count)) d (items-AreItems e shown c vs h))

  counted_written :
      (n : ℕ) (vs : List T) (h : AreShown e shown vs) (old rest : List ℕ)
      → n ≡ length vs
      → length old ≡ length (counted vs h)
      → (write_at (old ++ rest) 0 (le_bytes 2 n) >>= (λ buf. encode_items e vs buf 2))
        ≡ ok (length (counted vs h), counted vs h ++ rest)
  unfolding counted
  counted_written n vs h old rest en size =
      let bytes = all_bytes e shown vs h in
      let o = split old 2 (omega arith) in
      let cut : old ++ rest ≡ o.front ++ (o.back ++ rest) =
        ap (λ x. x ++ rest) o.joined ∙ append_assoc o.front o.back rest in
      rw
        (
          en,
          cut,
          write_front (le_bytes 2 (length vs)) o.front (o.back ++ rest) o.front_length,
          encode_items_lem e shown vs h 2 (le_bytes 2 (length vs)) o.back rest refl
              (omega (arith, o.back_length)),
        )
        (ap₂ (λ m x. ok (m, x)) (omega arith)
          (sym (append_assoc (le_bytes 2 (length vs)) bytes rest)))

  pub vec-IsDelimited : IsDelimited e.schema → IsDelimited (vec e).schema
  vec-IsDelimited d = seq_schema-IsDelimited d

  -- The elements that are written: the first 65535.
  abbrev pub kept : List T → List T
  kept vs = take 65535 vs

  length-kept : (vs : List T) → length (kept vs) ≡ vec_count vs
  length-kept vs = omega (arith, length-take 65535 vs)

  take-take : (m n : ℕ) (vs : List T) → m ≡ min (length vs) n → take m vs ≡ take n vs
  take-take zero zero vs h = refl
  take-take zero (suc n) [] h = refl
  take-take zero (suc n) (v ∷ vs) h = absurd (omega arith)
  take-take (suc m) n [] h = absurd (omega arith)
  take-take (suc m) zero (v ∷ vs) h = absurd (omega arith)
  take-take (suc m) (suc n) (v ∷ vs) h = ap (λ xs. v ∷ xs) (take-take m n vs (omega arith))

  counted-kept : (vs : List T) → take (vec_count vs) vs ≡ kept vs
  counted-kept vs = take-take (vec_count vs) 65535 vs refl

  -- A vector, also an empty one, whose elements' schema tells its own length and whose first 65535
  -- elements are each written and read back as their text: `encode_to` writes these elements, no more
  -- than `encoded_size` bytes, and leaves what follows, and the formatter, with the vector's schema,
  -- writes their texts in brackets, with commas between them.
  pub vec-IsShown :
      (vs : List T)
      → IsDelimited e.schema
      → AreShown e shown (kept vs)
      → IsShown (vec e) (λ c xs. ascii "[" ++ (list_text e shown c 0 (kept xs) ++ ascii "]")) vs
  vec-IsShown vs d h = record {
    bytes = counted (kept vs) h;
    fits =
        let total = ap (sizes e) (counted-kept vs) in
        omega (arith, total, counted_length (kept vs) h, all_bytes-le e shown (kept vs) h);
    written = λ old rest size.
        ap
          (λ xs.
            write_at (old ++ rest) 0 (le_bytes 2 (vec_count vs))
            >>= (λ buf. encode_items e xs buf 2))
          (counted-kept vs)
        ∙ counted_written (vec_count vs) (kept vs) h old rest (sym (length-kept vs)) size;
    read = λ c. counted-IsRead c (kept vs) h (omega (arith, length-kept vs)) d;
  }

  -- The `encoded_size` of the first element.
  abbrev pub size_of_first : List T → ℕ
  size_of_first [] = 0
  size_of_first (v ∷ vs) = e.encoded_size v

  size_of_first_lem : (vs : List T) → first_size e vs ≡ size_of_first vs
  size_of_first_lem [] = refl
  size_of_first_lem (v ∷ vs) = refl

  array_size : (n : ℕ) (vs : List T) → 1 ≤ n → (array n e).encoded_size vs ≡ 2 + n * first_size e vs
  array_size n vs some_element = rw (not_zero n some_element) refl
    where
      not_zero : (m : ℕ) → 1 ≤ m → (m == 0) ≡ false
      not_zero m h = ground arith

  -- An array of `n` elements, at least one and fewer than 65536, each written and read back as its text,
  -- where the elements' schema tells its own length and no element's `encoded_size` is above that of the
  -- first: `encode_to` writes them within the `encoded_size` of the array, and leaves what follows, and
  -- the formatter, with the array's schema, writes their texts in brackets, with commas between them.
  pub array-IsShown :
      (n : ℕ) (vs : List T)
      → length vs ≡ n
      → 1 ≤ n
      → n < 65536
      → All (λ (v : T). e.encoded_size v ≤ size_of_first vs) vs
      → IsDelimited e.schema
      → AreShown e shown vs
      → IsShown (array n e) (λ c xs. ascii "[" ++ (list_text e shown c 0 xs ++ ascii "]")) vs
  unfolding sizes
  array-IsShown n vs en some_element few sizes_le d h = record {
    bytes = counted vs h;
    fits =
        let total = sizes-le vs (size_of_first vs) sizes_le in
        let product = ap₂ (λ m k. m * k) en (sym (size_of_first_lem vs)) in
        omega (
          arith,
          counted_length vs h,
          all_bytes-le e shown vs h,
          total,
          product,
          array_size n vs some_element,
        );
    written = λ old rest size. counted_written (n % 2 ^ 16) vs h old rest (omega arith) size;
    read = λ c. counted-IsRead c vs h (omega arith) d;
  }
    where
      sizes-le :
          (xs : List T) (bound : ℕ)
          → All (λ (v : T). e.encoded_size v ≤ bound) xs
          → sizes e xs ≤ length xs * bound
      sizes-le [] bound h = omega arith
      sizes-le (x ∷ xs) bound (le, h) = grind (arith, sizes-le xs bound h)
