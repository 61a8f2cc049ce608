-- ===== src/Encode/Container.antt =====
-- src/arg/container.rs: vectors and maps.
use rapidlog.Prelude.{
  ℕ, ◌+◌, ◌*◌, ◌-◌, ◌%◌, ◌^◌, List, [], ◌∷◌, ◌++◌, Run, ok, ◌>>=◌, write_at, take, length, min,
  le_bytes, bit_or,
}
use rapidlog.Arg.Opcode.{op_seq, op_tuple}
use rapidlog.Encode.Defs.{Encode, no_table, encode_at, encode_items, sizes}

-- The number of elements that a vector's encoding holds: `self.len().min(u16::MAX)`.
abbrev pub vec_count : {T : Type 0} → List T → ℕ
vec_count vs = min (length vs) (2 ^ 16 - 1)

-- `impl Encode for Vec<T>`.
abbrev pub vec_encode_to : {T : Type 0} → Encode T → List T → List ℕ → Run (ℕ × List ℕ)
vec_encode_to e vs buf = do
  buf' ← write_at buf 0 (le_bytes 2 (vec_count vs))
  encode_items e (take (vec_count vs) vs) buf' 2

abbrev pub vec : {T : Type 0} → Encode T → Encode (List T)
vec e = record {
  schema = bit_or op_seq 2 ∷ e.schema;
  encode_to = vec_encode_to e;
  encoded_size = λ vs. 2 + sizes e (take (vec_count vs) vs);
  string_table = no_table;
}

-- The entries of a map, in the order in which it is iterated.
unfoldable pub encode_entries :
    {K V : Type 0} → Encode K → Encode V → List (K × V) → List ℕ → ℕ → Run (ℕ × List ℕ)
unfolding encode_at
encode_entries k v [] buf pos = ok (pos, buf)
encode_entries k v ((a, b) ∷ entries) buf pos = do
  (pos₁, buf₁) ← encode_at k a buf pos
  (pos₂, buf₂) ← encode_at v b buf₁ pos₁
  encode_entries k v entries buf₂ pos₂

-- `impl Encode for HashMap<K, V>` and for `BTreeMap<K, V>`.
abbrev pub map_encode_to :
    {K V : Type 0} → Encode K → Encode V → List (K × V) → List ℕ → Run (ℕ × List ℕ)
map_encode_to k v entries buf = do
  buf' ← write_at buf 0 (le_bytes 4 (length entries % 2 ^ 32))
  encode_entries k v entries buf' 4

-- The first entry's size for every entry, by a multiplication that saturates.
abbrev pub map_size : {K V : Type 0} → Encode K → Encode V → List (K × V) → ℕ
map_size k v [] = 4
map_size k v ((a, b) ∷ entries) =
    4 + min (length ((a, b) ∷ entries) * (k.encoded_size a + v.encoded_size b)) (2 ^ 64 - 1)

abbrev pub map : {K V : Type 0} → Encode K → Encode V → Encode (List (K × V))
map k v = record {
  schema = bit_or op_seq 3 ∷ bit_or op_tuple 2 ∷ (k.schema ++ v.schema);
  encode_to = map_encode_to k v;
  encoded_size = map_size k v;
  string_table = no_table;
}
