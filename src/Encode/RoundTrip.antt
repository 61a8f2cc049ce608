-- ===== src/Encode/RoundTrip.antt =====
-- Integers: what is written, and what the backend makes of it.
use rapidlog.Prelude.{
  ℕ, zero, suc, ◌-◌, ◌^◌, ◌*◌, ◌≤◌, ◌<◌, ◌≡◌, refl, ap, ◌∙◌, sym, List, [], ◌∷◌, ◌++◌, ok, ◌>>=◌,
  slice, slice-append, length, length-append, length-le_bytes, le_bytes, from_le, take-le_bytes,
  le→ltb_false, decimal, decimal_signed, arith, ℤ, pos, negsuc, pattern_of, signed_of, bit_and,
}
use rapidlog.Arg.Opcode.{
  category, op_unsigned_int, op_signed_int, size_for_k, size_mask, read_signed_ne,
}
use rapidlog.Arg.Numbers.{format_unsigned_lem}
use rapidlog.Arg.Format.{Context, Formatter, format_arm, format_unsigned, format_signed}
use rapidlog.Arg.Read.{leaf-IsRead}
use rapidlog.Encode.Primitives
use rapidlog.Encode.Shown.{IsShown, write_front}

-- The opcode of an unsigned integer tells its category and its size class.
unsigned_arm :
    (c : Context) (format : Formatter) (k : ℕ) (payload : List ℕ)
    → 1 ≤ k
    → k ≤ 4
    → format_arm c format
        (category (op_unsigned_int k))
        (bit_and (op_unsigned_int k) size_mask)
        (op_unsigned_int k ∷ [])
        payload
      ≡ format_unsigned k payload
unfolding format_arm category
unsigned_arm c format zero payload lo hi = absurd (omega arith)
unsigned_arm c format (suc zero) payload lo hi = refl
unsigned_arm c format (suc (suc zero)) payload lo hi = refl
unsigned_arm c format (suc (suc (suc zero))) payload lo hi = refl
unsigned_arm c format (suc (suc (suc (suc zero)))) payload lo hi = refl
unsigned_arm c format (suc (suc (suc (suc (suc k))))) payload lo hi = absurd (omega arith)

size_for_k-le : (k : ℕ) → k ≤ 4 → size_for_k k ≤ 16
unfolding size_for_k
size_for_k-le zero h = omega arith
size_for_k-le (suc zero) h = omega arith
size_for_k-le (suc (suc zero)) h = omega arith
size_for_k-le (suc (suc (suc zero))) h = omega arith
size_for_k-le (suc (suc (suc (suc zero)))) h = omega arith
size_for_k-le (suc (suc (suc (suc (suc k))))) h = absurd (omega arith)

write_number :
    (k v : ℕ) (old rest : List ℕ)
    → k ≤ 4
    → length old ≡ length (le_bytes (size_for_k k) v)
    → Primitives.unsigned_encode_to k v (old ++ rest)
      ≡ ok (length (le_bytes (size_for_k k) v), le_bytes (size_for_k k) v ++ rest)
write_number k v old rest le e =
    let n = size_for_k k in
    rw (take-le_bytes n 16 v (size_for_k-le k le), write_front (le_bytes n v) old rest e)
      (ap (λ m. ok (m, le_bytes n v ++ rest)) (sym (length-le_bytes n v)))

-- An unsigned integer of 1, 2, 4 or 8 bytes that fits them: `encode_to` writes exactly `encoded_size`
-- bytes over whatever stood there and leaves what follows, and the formatter, with the integer's schema,
-- on these bytes and any behind them, uses exactly these and writes the number in decimal.
pub unsigned_int-IsShown :
    (k v : ℕ)
    → 1 ≤ k
    → k ≤ 4
    → v < 256 ^ size_for_k k
    → (s : IsShown (Primitives.unsigned_int k) (λ c. decimal) v) × (length s.bytes ≡ size_for_k k)
unsigned_int-IsShown k v lo hi h =
    let n = size_for_k k in
    let bytes = le_bytes n v in
    (
      record {
        bytes = bytes;
        fits = omega (arith, length-le_bytes n v);
        written = λ old rest e. write_number k v old rest hi e;
        read = λ c. leaf-IsRead c (op_unsigned_int k) bytes (decimal v) (λ format rest.
            unsigned_arm c format k (bytes ++ rest) lo hi
            ∙ format_unsigned_lem k v rest lo hi h
            ∙ ap (λ m. ok (m, decimal v)) (sym (length-le_bytes n v)));
      },
      length-le_bytes n v,
    )

signed_arm :
    (c : Context) (format : Formatter) (k : ℕ) (payload : List ℕ)
    → 1 ≤ k
    → k ≤ 4
    → format_arm c format
        (category (op_signed_int k))
        (bit_and (op_signed_int k) size_mask)
        (op_signed_int k ∷ [])
        payload
      ≡ format_signed k payload
unfolding format_arm category
signed_arm c format zero payload lo hi = absurd (omega arith)
signed_arm c format (suc zero) payload lo hi = refl
signed_arm c format (suc (suc zero)) payload lo hi = refl
signed_arm c format (suc (suc (suc zero))) payload lo hi = refl
signed_arm c format (suc (suc (suc (suc zero)))) payload lo hi = refl
signed_arm c format (suc (suc (suc (suc (suc k))))) payload lo hi = absurd (omega arith)

-- The value fits the signed integers of `w + 1` bits.
abbrev pub FitsSigned : ℕ → ℤ → Type 0
FitsSigned w (pos m) = m < 2 ^ w
FitsSigned w (negsuc m) = m < 2 ^ w

-- The low bytes of the 128-bit pattern are the pattern of the value's own width.
signed_1 : (v : ℤ) → FitsSigned 7 v → signed_of 7 (from_le (le_bytes 1 (pattern_of 128 v))) ≡ v
signed_1 (pos m) h = ground arith
signed_1 (negsuc m) h = ground arith

signed_2 : (v : ℤ) → FitsSigned 15 v → signed_of 15 (from_le (le_bytes 2 (pattern_of 128 v))) ≡ v
signed_2 (pos m) h = ground arith
signed_2 (negsuc m) h = ground arith

signed_4 : (v : ℤ) → FitsSigned 31 v → signed_of 31 (from_le (le_bytes 4 (pattern_of 128 v))) ≡ v
signed_4 (pos m) h = ground arith
signed_4 (negsuc m) h = ground arith

signed_8 : (v : ℤ) → FitsSigned 63 v → signed_of 63 (from_le (le_bytes 8 (pattern_of 128 v))) ≡ v
signed_8 (pos m) h = ground arith
signed_8 (negsuc m) h = ground arith

wide_signed :
    (n w : ℕ) (v : ℤ) (rest : List ℕ)
    → signed_of w (from_le (le_bytes n (pattern_of 128 v))) ≡ v
    → (slice (le_bytes n (pattern_of 128 v) ++ rest) 0 n >>= (λ bs. ok (signed_of w (from_le bs))))
      ≡ ok v
wide_signed n w v rest e =
    rw
      (slice-append [] (le_bytes n (pattern_of 128 v)) rest 0 n refl
        (omega (arith, length-le_bytes n (pattern_of 128 v))))
      (ap ok e)

read_signed_ne_lem :
    (k : ℕ) (v : ℤ) (rest : List ℕ)
    → 1 ≤ k
    → k ≤ 4
    → FitsSigned (8 * size_for_k k - 1) v
    → read_signed_ne (le_bytes (size_for_k k) (pattern_of 128 v) ++ rest) k ≡ ok v
unfolding read_signed_ne size_for_k
read_signed_ne_lem zero v rest lo hi h = absurd (omega arith)
read_signed_ne_lem (suc zero) v rest lo hi h = ap ok (ap (signed_of 7) (omega arith) ∙ signed_1 v h)
read_signed_ne_lem (suc (suc zero)) v rest lo hi h = wide_signed 2 15 v rest (signed_2 v h)
read_signed_ne_lem (suc (suc (suc zero))) v rest lo hi h = wide_signed 4 31 v rest (signed_4 v h)
read_signed_ne_lem (suc (suc (suc (suc zero)))) v rest lo hi h =
    wide_signed 8 63 v rest (signed_8 v h)
read_signed_ne_lem (suc (suc (suc (suc (suc k))))) v rest lo hi h = absurd (omega arith)

format_signed_lem :
    (k : ℕ) (v : ℤ) (rest : List ℕ)
    → 1 ≤ k
    → k ≤ 4
    → FitsSigned (8 * size_for_k k - 1) v
    → format_signed k (le_bytes (size_for_k k) (pattern_of 128 v) ++ rest)
      ≡ ok (size_for_k k, decimal_signed v)
unfolding format_signed
format_signed_lem k v rest lo hi h =
    let n = size_for_k k in
    let bytes = le_bytes n (pattern_of 128 v) in
    rw
      (
        le→ltb_false (length (bytes ++ rest)) n
            (omega (arith, length-append bytes rest, length-le_bytes n (pattern_of 128 v))),
        read_signed_ne_lem k v rest lo hi h,
      )
      refl

-- A signed integer of 1, 2, 4 or 8 bytes that fits them: `encode_to` writes exactly `encoded_size` bytes
-- over whatever stood there and leaves what follows, and the formatter, with the integer's schema, on
-- these bytes and any behind them, uses exactly these and writes the number in decimal, with its sign.
pub signed_int-IsShown :
    (k : ℕ) (v : ℤ)
    → 1 ≤ k
    → k ≤ 4
    → FitsSigned (8 * size_for_k k - 1) v
    → (s : IsShown (Primitives.signed_int k) (λ c. decimal_signed) v) × (length s.bytes
        ≡ size_for_k k)
signed_int-IsShown k v lo hi h =
    let n = size_for_k k in
    let p = pattern_of 128 v in
    let bytes = le_bytes n p in
    (
      record {
        bytes = bytes;
        fits = omega (arith, length-le_bytes n p);
        written = λ old rest e. write_number k p old rest hi e;
        read = λ c. leaf-IsRead c (op_signed_int k) bytes (decimal_signed v) (λ format rest.
            signed_arm c format k (bytes ++ rest) lo hi
            ∙ format_signed_lem k v rest lo hi h
            ∙ ap (λ m. ok (m, decimal_signed v)) (sym (length-le_bytes n p)));
      },
      length-le_bytes n p,
    )
