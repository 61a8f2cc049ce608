-- ===== src/Arg/Heads.antt =====
-- The heads of compound schemas: the opcode, and the number of parts.
use rapidlog.Prelude.{
  ℕ, zero, suc, ◌+◌, ◌≤◌, ◌<◌, ◌≡◌, refl, ap, ◌∙◌, subst, List, [], ◌∷◌, ◌++◌, ok, index_at, length,
  length-append, All, arith, bit_and, bit_or, le_bytes, ◌%◌, ◌/◌, append_assoc,
}
use rapidlog.Arg.Opcode.{
  Category, tuple, struct, enum, category, op_tuple, op_struct, op_enum, size_mask, u16_at,
}
use rapidlog.Arg.Measure.{part_count}
use native.Mathlib.Decide.{ℕ_discrete}

abbrev interval : ℕ → ℕ → List ℕ
interval a zero = []
interval a (suc k) = a ∷ interval (suc a) k

All-interval : (P : ℕ → Type 0) (a k n : ℕ) → All P (interval a k) → a ≤ n → n < a + k → P n
All-interval P a zero n h lo hi = absurd (omega arith)
All-interval P a (suc k) n h lo hi = elim (ℕ_discrete a n) [
  | yes e ↦ subst P e h.0
  | no ne ↦ All-interval P (suc a) k n h.1 (omega arith) (omega arith)
]

-- What the opcodes with a number of parts in their low bits tell.
abbrev Told : Type 0
Told = Category × Category × Category × ℕ × ℕ × ℕ

abbrev told : ℕ → Told
told n = (
  category (bit_or op_tuple n),
  category (bit_or op_struct n),
  category (bit_or op_enum n),
  bit_and (bit_or op_tuple n) size_mask,
  bit_and (bit_or op_struct n) size_mask,
  bit_and (bit_or op_enum n) size_mask,
)

abbrev IsTold : ℕ → Type 0
IsTold n = told n ≡ (tuple, struct, enum, n, n, n)

opcodes : All IsTold (interval 0 16)
unfolding category
opcodes = (
  refl,
  (
    refl,
    (
      refl,
      (
        refl,
        (
          refl,
          (
            refl,
            (refl, (refl, (refl, (refl, (refl, (refl, (refl, (refl, (refl, (refl, tt)))))))))),
          ),
        ),
      ),
    ),
  ),
)

opcodes_lem : (n : ℕ) → n ≤ 15 → IsTold n
opcodes_lem n le = All-interval IsTold 0 16 n opcodes (omega arith) (omega arith)

-- A head `op ∷ tail` of a compound of `n` parts: with anything behind it, it tells the category and
-- `n`.
pub record IsHead (cat : Category) (n op : ℕ) (tail : List ℕ) : Type 0 where
  pub is_cat : category op ≡ cat
  pub counts :
      (buf rest : List ℕ)
      → buf ≡ op ∷ (tail ++ rest)
      → part_count (bit_and op size_mask) buf ≡ ok (n, 1 + length tail)

pub u16_at_lem :
    (buf pre post : List ℕ) (at n : ℕ)
    → buf ≡ pre ++ (le_bytes 2 n ++ post)
    → at ≡ length pre
    → n < 65536
    → u16_at buf at ≡ ok n
u16_at_lem buf pre post at n eb e small =
    rw
      (
        index_at buf pre (n % 256) (n / 256 % 256 ∷ post) at eb e,
        index_at buf (pre ++ (n % 256 ∷ [])) (n / 256 % 256) post (at + 1) (eb ∙ simp append_assoc)
            (omega (arith, length-append pre (n % 256 ∷ []))),
      )
      (ap ok (omega arith))

short_count : (n : ℕ) (s : List ℕ) → 1 ≤ n → part_count n s ≡ ok (n, 1)
unfolding part_count
short_count n s h = ground arith

short-IsHead :
    (cat : Category) (base n : ℕ)
    → 1 ≤ n
    → category (bit_or base n) ≡ cat
    → bit_and (bit_or base n) size_mask ≡ n
    → IsHead cat n (bit_or base n) []
short-IsHead cat base n lo ec el = record {
  is_cat = ec;
  counts = λ buf rest e. rw el (short_count n buf lo);
}

long_count :
    (buf : List ℕ) (op n : ℕ) (rest : List ℕ)
    → n < 65536
    → buf ≡ op ∷ (le_bytes 2 n ++ rest)
    → part_count 0 buf ≡ ok (n, 3)
unfolding part_count
long_count buf op n rest small e = rw (u16_at_lem buf (op ∷ []) rest 1 n e refl small) refl

long-IsHead :
    (cat : Category) (base n : ℕ)
    → category base ≡ cat
    → bit_and base size_mask ≡ 0
    → n < 65536
    → IsHead cat n base (le_bytes 2 n)
long-IsHead cat base n ec el small = record {
  is_cat = ec;
  counts = λ buf rest e. rw el (long_count buf base n rest small e);
}

pub tuple-IsHead : (n : ℕ) → 1 ≤ n → n ≤ 15 → IsHead tuple n (bit_or op_tuple n) []
tuple-IsHead n lo hi =
    let o = opcodes_lem n hi in
    short-IsHead tuple op_tuple n lo (ap (λ (t : Told). t.0) o) (ap (λ (t : Told). t.3) o)

pub struct-IsHead : (n : ℕ) → 1 ≤ n → n ≤ 15 → IsHead struct n (bit_or op_struct n) []
struct-IsHead n lo hi =
    let o = opcodes_lem n hi in
    short-IsHead struct op_struct n lo (ap (λ (t : Told). t.1) o) (ap (λ (t : Told). t.4) o)

pub enum-IsHead : (n : ℕ) → 1 ≤ n → n ≤ 15 → IsHead enum n (bit_or op_enum n) []
enum-IsHead n lo hi =
    let o = opcodes_lem n hi in
    short-IsHead enum op_enum n lo (ap (λ (t : Told). t.2) o) (ap (λ (t : Told). t.5) o)

pub long_tuple-IsHead : (n : ℕ) → n < 65536 → IsHead tuple n op_tuple (le_bytes 2 n)
unfolding category
long_tuple-IsHead n small = long-IsHead tuple op_tuple n refl refl small

pub long_struct-IsHead : (n : ℕ) → n < 65536 → IsHead struct n op_struct (le_bytes 2 n)
unfolding category
long_struct-IsHead n small = long-IsHead struct op_struct n refl refl small

pub long_enum-IsHead : (n : ℕ) → n < 65536 → IsHead enum n op_enum (le_bytes 2 n)
unfolding category
long_enum-IsHead n small = long-IsHead enum op_enum n refl refl small
