-- ===== src/Prelude/Outcome.antt =====
-- What a run of the code comes to: a value, a panic (an index or a slice out of range, or a write
-- behind the end of an allocation), or, in the model alone, a lack of fuel.
use Prim.Native.Nat.{ℕ, ◌+◌, ◌-◌}
use mathlib.Core.Bool.{◌&&◌}
use mathlib.Core.Option.{Option, none, some}
use mathlib.Core.List.{List, ◌++◌}
use rapidlog.Prelude.Tests.{leb, if◌then◌else◌}
use rapidlog.Prelude.Lists.{length, take, drop, get_elem?}

pub data Run {ℓ} (A : Type ℓ) : Type ℓ where
  ok : A → Run A
  panicked : Run A
  out_of_fuel : Run A

infixl 5 ◌>>=◌
abbrev pub ◌>>=◌ {ℓ κ} : {A : Type ℓ} {B : Type κ} → Run A → (A → Run B) → Run B
ok a >>= f = f a
panicked >>= f = panicked
out_of_fuel >>= f = out_of_fuel

-- `o.unwrap()`, and every other access that panics where there is nothing.
abbrev pub expect {ℓ} : {A : Type ℓ} → Option A → Run A
expect none = panicked
expect (some a) = ok a

-- `buf[i]`.
unfoldable pub index : List ℕ → ℕ → Run ℕ
index buf i = expect (get_elem? buf i)

-- `&buf[start..]`.
unfoldable pub slice_from : List ℕ → ℕ → Run (List ℕ)
slice_from buf start = if leb start (length buf) then ok (drop start buf) else panicked

-- `&buf[start..end]`.
unfoldable pub slice : List ℕ → ℕ → ℕ → Run (List ℕ)
slice buf start end =
    if leb start end && leb end (length buf)
    then ok (take (end - start) (drop start buf))
    else panicked

-- `buf[at..at + src.len()].copy_from_slice(src)`, or a raw copy of `src` to that place: the buffer
-- after it. A raw write behind the buffer's end is undefined in Rust; here it counts as a panic.
unfoldable pub write_at : List ℕ → ℕ → List ℕ → Run (List ℕ)
write_at buf at src =
    if leb (at + length src) (length buf)
    then ok (take at buf ++ (src ++ drop (at + length src) buf))
    else panicked
