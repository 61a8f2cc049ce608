-- ===== src/Prelude/Slices.antt =====
-- Slices and writes of a buffer that is given as the parts it consists of.
use Prim.Native.Nat.{ℕ, zero, suc, ◌+◌, ◌-◌, ◌≤◌, ◌<◌}
use mathlib.Core.Path.{◌≡◌, ap, ◌∙◌, sym}
use mathlib.Core.List.{List, [], ◌∷◌, ◌++◌}
use mathlib.Core.Option.{some}
use native.Mathlib.Omega.{arith}
use rapidlog.Prelude.Tests.{le→leb, lt→leb_false}
use rapidlog.Prelude.Lists.{
  length, get_elem?, take, drop, length-append, take-append_length, drop-append_length,
  take-append-drop, length-take, length-drop, drop-drop,
}
use rapidlog.Prelude.Outcome.{ok, panicked, slice_from, slice, write_at, index}

pub slice_from-append :
    (pre rest : List ℕ) (at : ℕ) → at ≡ length pre → slice_from (pre ++ rest) at ≡ ok rest
unfolding slice_from
slice_from-append pre rest at e =
    rw (e, le→leb (length pre) (length (pre ++ rest)) (omega (arith, length-append pre rest)))
      (ap ok (drop-append_length pre rest))

pub slice-append :
    (pre mid post : List ℕ) (start end : ℕ)
    → start ≡ length pre
    → end ≡ length pre + length mid
    → slice (pre ++ (mid ++ post)) start end ≡ ok mid
unfolding slice
slice-append pre mid post start end e₁ e₂ = rw (
  e₁,
  e₂,
  le→leb (length pre) (length pre + length mid) (omega arith),
  le→leb (length pre + length mid) (length (pre ++ (mid ++ post))) fits,
  cut,
  drop-append_length,
  take-append_length,
)
  where
    fits : length pre + length mid ≤ length (pre ++ (mid ++ post))
    fits = omega (arith, length-append pre (mid ++ post), length-append mid post)

    cut : length pre + length mid - length pre ≡ length mid
    cut = omega arith

pub write_at-append :
    (pre old post src : List ℕ) (at : ℕ)
    → at ≡ length pre
    → length src ≡ length old
    → write_at (pre ++ (old ++ post)) at src ≡ ok (pre ++ (src ++ post))
unfolding write_at
write_at-append pre old post src at e₁ e₂ = rw (
  e₁,
  le→leb (length pre + length src) (length (pre ++ (old ++ post))) fits,
  take-append_length,
  behind,
)
  where
    fits : length pre + length src ≤ length (pre ++ (old ++ post))
    fits = omega (arith, length-append pre (old ++ post), length-append old post)

    behind : drop (length pre + length src) (pre ++ (old ++ post)) ≡ post
    behind =
        sym (drop-drop (length pre) (length src) (pre ++ (old ++ post)))
        ∙ rw (drop-append_length, e₂, drop-append_length)

-- A write that would go behind the end.
pub write_at-panicked :
    (buf src : List ℕ) (at : ℕ) → length buf < at + length src → write_at buf at src ≡ panicked
unfolding write_at
write_at-panicked buf src at h = rw (lt→leb_false (at + length src) (length buf) h)

-- A list in two parts, the first of a given length.
pub record Split (xs : List ℕ) (n : ℕ) : Type 0 where
  pub front : List ℕ
  pub back : List ℕ
  pub joined : xs ≡ front ++ back
  pub front_length : length front ≡ n
  pub back_length : length back ≡ length xs - n

pub split : (xs : List ℕ) (n : ℕ) → n ≤ length xs → Split xs n
split xs n h = record {
  front = take n xs;
  back = drop n xs;
  joined = sym (take-append-drop n xs);
  front_length = omega (arith, length-take n xs);
  back_length = length-drop n xs;
}

pub slice_lem :
    (buf : List ℕ) (start end : ℕ)
    → start ≤ end
    → end ≤ length buf
    → slice buf start end ≡ ok (take (end - start) (drop start buf))
unfolding slice
slice_lem buf start end h k = rw (le→leb start end h, le→leb end (length buf) k)

pub slice_from-drop :
    (buf : List ℕ) (start : ℕ) → start ≤ length buf → slice_from buf start ≡ ok (drop start buf)
unfolding slice_from
slice_from-drop buf start le = rw (le→leb start (length buf) le) (λ i. ok (drop start buf))

-- The same, for a buffer that is known to consist of these parts.
pub slice_from_at :
    (buf pre rest : List ℕ) (at : ℕ)
    → buf ≡ pre ++ rest
    → at ≡ length pre
    → slice_from buf at ≡ ok rest
slice_from_at buf pre rest at e h = rw e (slice_from-append pre rest at h)

pub slice_at :
    (buf pre mid post : List ℕ) (start end : ℕ)
    → buf ≡ pre ++ (mid ++ post)
    → start ≡ length pre
    → end ≡ start + length mid
    → slice buf start end ≡ ok mid
slice_at buf pre mid post start end e h₁ h₂ =
    rw e (slice-append pre mid post start end h₁ (omega arith))

pub get_elem?-append :
    {A : Type 0} (pre post : List A) (b : A) (at : ℕ)
    → at ≡ length pre
    → get_elem? (pre ++ (b ∷ post)) at ≡ some b
get_elem?-append [] post b at e = rw e (λ i. some b)
get_elem?-append (x ∷ pre) post b zero e = absurd (omega arith)
get_elem?-append (x ∷ pre) post b (suc at) e = get_elem?-append pre post b at (omega arith)

pub index_at :
    (buf pre : List ℕ) (b : ℕ) (post : List ℕ) (at : ℕ)
    → buf ≡ pre ++ (b ∷ post)
    → at ≡ length pre
    → index buf at ≡ ok b
unfolding index
index_at buf pre b post at eb e = rw (eb, get_elem?-append pre post b at e) (λ i. ok b)
