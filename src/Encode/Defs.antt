-- ===== src/Encode/Defs.antt =====
-- src/arg/traits.rs: the trait `Encode`, and the calls of it on a part of a buffer.
use rapidlog.Prelude.{ℕ, ◌+◌, List, [], ◌∷◌, ◌++◌, Run, ok, ◌>>=◌, slice_from, take}

-- `trait Encode`. `encode_to` returns the bytes it wrote and the buffer behind it; it panics where
-- the buffer is too short.
pub record Encode (T : Type 0) : Type 0 where
  pub schema : List ℕ
  pub encode_to : T → List ℕ → Run (ℕ × List ℕ)
  pub encoded_size : T → ℕ
  pub string_table : T → List ℕ

-- The default `string_table`.
abbrev pub no_table : {T : Type 0} → T → List ℕ
no_table v = []

-- `pos += v.encode_to(&mut buf[pos..])`: the new position, and the buffer.
unfoldable pub encode_at : {T : Type 0} → Encode T → T → List ℕ → ℕ → Run (ℕ × List ℕ)
encode_at e v buf pos = do
  tail ← slice_from buf pos
  (wrote, tail') ← e.encode_to v tail
  ok (pos + wrote, take pos buf ++ tail')

-- `for item in items { pos += item.encode_to(&mut buf[pos..]); }`.
unfoldable pub encode_items : {T : Type 0} → Encode T → List T → List ℕ → ℕ → Run (ℕ × List ℕ)
unfolding encode_at
encode_items e [] buf pos = ok (pos, buf)
encode_items e (v ∷ vs) buf pos = do
  (pos', buf') ← encode_at e v buf pos
  encode_items e vs buf' pos'

-- The sum of the `encoded_size`s.
unfoldable pub sizes : {T : Type 0} → Encode T → List T → ℕ
sizes e [] = 0
sizes e (v ∷ vs) = e.encoded_size v + sizes e vs
