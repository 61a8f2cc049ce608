-- ===== src/Encode/Maps.antt =====
-- Maps: what is written for their entries, and what the backend makes of it.
use rapidlog.Prelude.{
  ℕ, suc, ◌+◌, ◌*◌, ◌^◌, ◌%◌, ◌≤◌, ◌<◌, ◌≡◌, refl, ap, ap₂, ◌∙◌, sym, List, [], ◌∷◌, ◌++◌,
  append_assoc, Run, ok, panicked, out_of_fuel, ◌>>=◌, length, length-append, le_bytes, split, All,
  arith, Text, ascii, bit_or,
}
use rapidlog.Arg.Opcode.{category, op_seq, size_for_k}
use rapidlog.Arg.Commas.{comma}
use rapidlog.Arg.Format.{Context}
use rapidlog.Arg.Delimited.{IsDelimited}
use rapidlog.Arg.Read.{IsRead-as, seq-IsRead, bytes_of, joined, AreItems}
use rapidlog.Encode.Defs.{Encode, encode_at}
use rapidlog.Encode.Compound
use rapidlog.Encode.Compound.{Components}
use rapidlog.Encode.Container.{map, map_size, map_encode_to, encode_entries}
use rapidlog.Encode.Shown.{IsShown, write_front}
use rapidlog.Encode.Tuples.{
  AreComponents, tuple-IsRead_lem, tuple-IsDelimited_lem, before-AreSchemas, last-AreSchemas,
  last_text, before_text,
}

bind_assoc :
    {A B C : Type 0} (m : Run A) (f : A → Run B) (g : B → Run C)
    → ((m >>= f) >>= g) ≡ (m >>= (λ a. f a >>= g))
bind_assoc (ok a) f g = refl
bind_assoc panicked f g = refl
bind_assoc out_of_fuel f g = refl

module _ {K V : Type 0} (k : Encode K) (v : Encode V) (shown : Context → K → Text)
    (shown' : Context → V → Text) where
  -- An entry is a tuple of two components.
  abbrev pub entry : Components (K × V)
  entry = Compound.before k (Compound.last v)

  abbrev pub entry_text : Context → ℕ → K × V → Text
  entry_text = before_text shown (last_text shown')

  abbrev pub AreEntries : List (K × V) → Type 0
  AreEntries = All (AreComponents entry entry_text)

  abbrev entries_bytes : (es : List (K × V)) → AreEntries es → List ℕ
  entries_bytes [] h = []
  entries_bytes (e ∷ es) (s, h) = s.bytes ++ entries_bytes es h

  -- The entries' texts in parentheses, with commas between them.
  abbrev pub entries_text : Context → ℕ → List (K × V) → Text
  entries_text c i [] = []
  entries_text c i (e ∷ es) =
      comma i ++ ((ascii "(" ++ (entry_text c 0 e ++ ascii ")")) ++ entries_text c (i + 1) es)

  abbrev entry_items : Context → (es : List (K × V)) → AreEntries es → List (List ℕ × Text)
  entry_items c [] h = []
  entry_items c (e ∷ es) (s, h) =
      (s.bytes, ascii "(" ++ (entry_text c 0 e ++ ascii ")")) ∷ entry_items c es h

  entry_step :
      (a : K) (b : V) (es : List (K × V)) (buf : List ℕ) (pos : ℕ)
      → encode_entries k v ((a, b) ∷ es) buf pos
        ≡ (entry.encode_from (a, b) buf pos >>= (λ r. encode_entries k v es r.1 r.0))
  unfolding encode_entries
  entry_step a b es buf pos = sym (
      bind_assoc (encode_at k a buf pos) (λ r. encode_at v b r.1 r.0)
        (λ r. encode_entries k v es r.1 r.0))

  encode_entries_lem :
      (es : List (K × V)) (h : AreEntries es) (pos : ℕ) (pre old rest : List ℕ)
      → pos ≡ length pre
      → length old ≡ length (entries_bytes es h)
      → encode_entries k v es (pre ++ (old ++ rest)) pos
        ≡ ok (pos + length (entries_bytes es h), pre ++ (entries_bytes es h ++ rest))
  unfolding encode_entries
  encode_entries_lem [] h pos pre [] rest at size = ap (λ n. ok (n, pre ++ rest)) (omega arith)
  encode_entries_lem [] h pos pre (x ∷ old) rest at size = absurd (omega arith)
  encode_entries_lem ((a, b) ∷ es) (s, h) pos pre old rest at size =
      let more = entries_bytes es h in
      let total = length-append s.bytes more in
      let o = split old (length s.bytes) (omega arith) in
      let cut : pre ++ (old ++ rest) ≡ pre ++ (o.front ++ (o.back ++ rest)) =
        ap (λ x. pre ++ (x ++ rest)) o.joined ∙ simp append_assoc in
      let group : pre ++ (s.bytes ++ (o.back ++ rest)) ≡ (pre ++ s.bytes) ++ (o.back ++ rest) =
        simp append_assoc in
      let group' : (pre ++ s.bytes) ++ (more ++ rest) ≡ pre ++ ((s.bytes ++ more) ++ rest) =
        simp append_assoc in
      let first : entry.encode_from (a, b) (pre ++ (old ++ rest)) pos
          ≡ ok (pos + length s.bytes, (pre ++ s.bytes) ++ (o.back ++ rest)) =
        ap (λ x. entry.encode_from (a, b) x pos) cut
        ∙ s.written pos pre o.front (o.back ++ rest) at o.front_length
        ∙ ap (λ x. ok (pos + length s.bytes, x)) group in
      entry_step a b es (pre ++ (old ++ rest)) pos
      ∙ ap (λ m. m >>= (λ r. encode_entries k v es r.1 r.0)) first
      ∙ encode_entries_lem es h (pos + length s.bytes) (pre ++ s.bytes) o.back rest
          (omega (arith, length-append pre s.bytes)) (omega (arith, o.back_length))
      ∙ ap₂ (λ n x. ok (n, x)) (omega arith) group'

  bytes_of-entries :
      (c : Context) (es : List (K × V)) (h : AreEntries es)
      → bytes_of (entry_items c es h) ≡ entries_bytes es h
  bytes_of-entries c [] h = refl
  bytes_of-entries c (e ∷ es) (s, h) = ap (λ x. s.bytes ++ x) (bytes_of-entries c es h)

  joined-entries :
      (c : Context) (i : ℕ) (es : List (K × V)) (h : AreEntries es)
      → joined i (entry_items c es h) ≡ entries_text c i es
  joined-entries c i [] h = refl
  joined-entries c i (e ∷ es) (s, h) =
      ap (λ x. comma i ++ ((ascii "(" ++ (entry_text c 0 e ++ ascii ")")) ++ x))
        (joined-entries c (i + 1) es h)

  length-entries :
      (c : Context) (es : List (K × V)) (h : AreEntries es)
      → length (entry_items c es h) ≡ length es
  length-entries c [] h = refl
  length-entries c (e ∷ es) (s, h) = ap suc (length-entries c es h)

  entries-AreItems :
      (c : Context) (es : List (K × V)) (h : AreEntries es)
      → AreItems c (Compound.tuple entry).schema (entry_items c es h)
  entries-AreItems c [] h = tt
  entries-AreItems c (e ∷ es) (s, h) =
      (tuple-IsRead_lem entry entry_text e (omega arith) (omega arith) s c, entries-AreItems c es h)

  bytes-le :
      (es : List (K × V)) (h : AreEntries es) (bound : ℕ)
      → All (λ (e : K × V). k.encoded_size e.0 + v.encoded_size e.1 ≤ bound) es
      → length (entries_bytes es h) ≤ length es * bound
  bytes-le [] h bound le = omega arith
  bytes-le ((a, b) ∷ es) (s, h) bound (le, les) =
      let fits = s.fits in
      let total = length-append s.bytes (entries_bytes es h) in
      grind (arith, bytes-le es h bound les)

  -- The sum of the first entry's sizes.
  abbrev pub entry_size : List (K × V) → ℕ
  entry_size [] = 0
  entry_size ((a, b) ∷ es) = k.encoded_size a + v.encoded_size b

  map_size-le :
      (es : List (K × V))
      → length es * entry_size es < 2 ^ 64
      → map_size k v es ≡ 4 + length es * entry_size es
  map_size-le [] h = omega arith
  map_size-le ((a, b) ∷ es) h = omega arith

  -- A map of fewer than 2^32 entries, also an empty one, whose keys and values are written and read back
  -- as their texts, where the schema of the keys and that of the values each tell their own length, no
  -- entry's sizes are above those of the first, and the number of entries times the sizes of the first
  -- is below 2^64: in the order in which it is iterated, `encode_to` writes the entries within the
  -- `encoded_size` of the map, and leaves what follows, and the formatter, with the map's schema, writes
  -- them in brackets as tuples, with commas between them.
  pub map-IsShown :
      (es : List (K × V))
      → length es < 2 ^ 32
      → length es * entry_size es < 2 ^ 64
      → All (λ (e : K × V). k.encoded_size e.0 + v.encoded_size e.1 ≤ entry_size es) es
      → IsDelimited k.schema
      → IsDelimited v.schema
      → AreEntries es
      → IsShown (map k v) (λ c xs. ascii "[" ++ (entries_text c 0 xs ++ ascii "]")) es
  unfolding category size_for_k
  map-IsShown es few small sizes_le dk dv h = record {
    bytes = bytes;
    fits = omega (
      arith,
      map_size-le es small,
      bytes-le es h (entry_size es) sizes_le,
      length-append (le_bytes 4 (length es)) (entries_bytes es h),
    );
    written = written;
    read = λ c.
        let is = entry_items c es h in
        let count : length is ≡ length es = length-entries c es h in
        let schema = bit_or op_seq 3 ∷ (Compound.tuple entry).schema in
        IsRead-as c schema schema (le_bytes 4 (length is) ++ bytes_of is) bytes
          (ascii "[" ++ (joined 0 is ++ ascii "]"))
          (ascii "[" ++ (entries_text c 0 es ++ ascii "]")) refl
          (ap₂ (λ n x. le_bytes 4 n ++ x) count (bytes_of-entries c es h))
          (ap (λ t. ascii "[" ++ (t ++ ascii "]")) (joined-entries c 0 es h))
          (seq-IsRead c (bit_or op_seq 3) 3 (Compound.tuple entry).schema is refl refl (omega arith)
            (omega arith) (omega (arith, count))
            (tuple-IsDelimited_lem entry (omega arith) (omega arith)
              (before-AreSchemas k (Compound.last v) dk (last-AreSchemas v dv)))
            (entries-AreItems c es h));
  }
    where
      bytes : List ℕ
      bytes = le_bytes 4 (length es) ++ entries_bytes es h

      written :
          (old rest : List ℕ)
          → length old ≡ length bytes
          → map_encode_to k v es (old ++ rest) ≡ ok (length bytes, bytes ++ rest)
      written old rest size =
          let o = split old 4 (omega arith) in
          let cut : old ++ rest ≡ o.front ++ (o.back ++ rest) =
            ap (λ x. x ++ rest) o.joined ∙ append_assoc o.front o.back rest in
          let n : length es % 2 ^ 32 ≡ length es = omega arith in
          rw
            (
              n,
              cut,
              write_front (le_bytes 4 (length es)) o.front (o.back ++ rest) o.front_length,
              encode_entries_lem es h 4 (le_bytes 4 (length es)) o.back rest refl
                  (omega (arith, o.back_length)),
            )
            (ap₂ (λ m x. ok (m, x)) (omega arith)
              (sym (append_assoc (le_bytes 4 (length es)) (entries_bytes es h) rest)))
