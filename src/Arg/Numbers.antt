-- ===== src/Arg/Numbers.antt =====
-- Numbers in a payload, read back.
use rapidlog.Prelude.{
  ℕ, zero, suc, ◌^◌, ◌≤◌, ◌<◌, ◌≡◌, refl, ap, List, [], ◌++◌, ok, ◌>>=◌, slice, slice-append,
  length, length-append, length-le_bytes, le_bytes, from_le, from_le-le_bytes, le→ltb_false,
  decimal, arith,
}
use rapidlog.Arg.Opcode.{size_for_k, read_unsigned_ne}
use rapidlog.Arg.Format.{format_unsigned}

pub read_wide :
    (n v : ℕ) (rest : List ℕ)
    → v < 256 ^ n
    → (slice (le_bytes n v ++ rest) 0 n >>= (λ bs. ok (from_le bs))) ≡ ok v
read_wide n v rest h =
    rw
      (
        slice-append [] (le_bytes n v) rest 0 n refl (omega (arith, length-le_bytes n v)),
        from_le-le_bytes n v h,
      )
      refl

pub read_unsigned_ne_lem :
    (k v : ℕ) (rest : List ℕ)
    → 1 ≤ k
    → k ≤ 4
    → v < 256 ^ size_for_k k
    → read_unsigned_ne (le_bytes (size_for_k k) v ++ rest) k ≡ ok v
unfolding read_unsigned_ne size_for_k
read_unsigned_ne_lem zero v rest lo hi h = absurd (omega arith)
read_unsigned_ne_lem (suc zero) v rest lo hi h = ap ok (omega arith)
read_unsigned_ne_lem (suc (suc zero)) v rest lo hi h = read_wide 2 v rest h
read_unsigned_ne_lem (suc (suc (suc zero))) v rest lo hi h = read_wide 4 v rest h
read_unsigned_ne_lem (suc (suc (suc (suc zero)))) v rest lo hi h = read_wide 8 v rest h
read_unsigned_ne_lem (suc (suc (suc (suc (suc k))))) v rest lo hi h = absurd (omega arith)

pub format_unsigned_lem :
    (k v : ℕ) (rest : List ℕ)
    → 1 ≤ k
    → k ≤ 4
    → v < 256 ^ size_for_k k
    → format_unsigned k (le_bytes (size_for_k k) v ++ rest) ≡ ok (size_for_k k, decimal v)
unfolding format_unsigned
format_unsigned_lem k v rest lo hi h =
    let n = size_for_k k in
    rw
      (
        le→ltb_false (length (le_bytes n v ++ rest)) n
            (omega (arith, length-append (le_bytes n v) rest, length-le_bytes n v)),
        read_unsigned_ne_lem k v rest lo hi h,
      )
      refl
