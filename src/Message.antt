-- ===== src/Message.antt =====
-- src/message.rs: the header of a log message.
mod Runs
use rapidlog.Prelude.{
  ℕ, ◌+◌, ◌-◌, ◌^◌, ◌≤◌, ◌<◌, ◌≡◌, refl, ap, ◌∙◌, sym, List, [], ◌∷◌, ◌++◌, Option, none, some, Run,
  ok, ◌>>=◌, slice, write_at, length, replicate, le_bytes, from_le, from_le-le_bytes,
  length-le_bytes, write_at-append, slice-append, split, append_assoc, length-append, ltb,
  le→ltb_false, if◌then◌else◌, arith, drop, append-nil, eq-nil_of_length,
}

-- `struct ArchivedHeader`. The pointers are addresses.
pub record ArchivedHeader : Type 0 where
  pub timestamp_ns : ℕ
  pub metadata_ptr : ℕ
  pub logger_ptr : ℕ
  pub reserved : ℕ

abbrev pub header_size : ℕ
header_size = 32

-- `ArchivedHeader::new`.
unfoldable pub new : ℕ → ℕ → ℕ → ArchivedHeader
new timestamp_ns metadata logger = record {
  timestamp_ns = timestamp_ns;
  metadata_ptr = metadata;
  logger_ptr = logger;
  reserved = 0;
}

-- `serialize_into`.
unfoldable pub serialize_into : ArchivedHeader → List ℕ → Run (List ℕ)
serialize_into h buf = do
  buf₁ ← write_at buf 0 (le_bytes 8 h.timestamp_ns)
  buf₂ ← write_at buf₁ 8 (le_bytes 8 h.metadata_ptr)
  buf₃ ← write_at buf₂ 16 (le_bytes 8 h.logger_ptr)
  write_at buf₃ 24 (replicate 8 0)

-- `read_unaligned` of a `u64`.
unfoldable pub read_u64 : List ℕ → ℕ → Run ℕ
read_u64 raw at = do bs ← slice raw at (at + 8); ok (from_le bs)

-- `ArchivedHeader::decode`.
unfoldable pub decode : List ℕ → Run (Option ArchivedHeader)
unfolding read_u64
decode raw =
    let header = do
      t ← read_u64 raw 0
      m ← read_u64 raw 8
      l ← read_u64 raw 16
      z ← read_u64 raw 24
      ok (some (record { timestamp_ns = t; metadata_ptr = m; logger_ptr = l; reserved = z }))
    in if ltb (length raw) header_size then ok none else header

read_u64-append :
    (pre rest : List ℕ) (v at : ℕ)
    → at ≡ length pre
    → v < 256 ^ 8
    → read_u64 (pre ++ (le_bytes 8 v ++ rest)) at ≡ ok v
unfolding read_u64
read_u64-append pre rest v at e small = rw (
  slice-append pre (le_bytes 8 v) rest at (at + 8) e (omega (arith, length-le_bytes 8 v)),
  from_le-le_bytes 8 v small,
)

-- Four fields of eight bytes each, and what follows.
abbrev fields : List ℕ → List ℕ → List ℕ → List ℕ → List ℕ → List ℕ
fields a b c d rest = a ++ (b ++ (c ++ (d ++ rest)))

write_second :
    (a b rest src : List ℕ)
    → length a ≡ 8
    → length src ≡ length b
    → write_at (a ++ (b ++ rest)) 8 src ≡ ok (a ++ (src ++ rest))
write_second a b rest src ea e = write_at-append a b rest src 8 (sym ea) e

write_third :
    (a b c rest src : List ℕ)
    → length a ≡ 8
    → length b ≡ 8
    → length src ≡ length c
    → write_at (a ++ (b ++ (c ++ rest))) 16 src ≡ ok (a ++ (b ++ (src ++ rest)))
write_third a b c rest src ea eb e =
    ap (λ x. write_at x 16 src) (sym (append_assoc a b (c ++ rest)))
    ∙ write_at-append (a ++ b) c rest src 16 (omega (arith, length-append a b)) e
    ∙ ap ok (append_assoc a b (src ++ rest))

write_fourth :
    (a b c d rest src : List ℕ)
    → length a ≡ 8
    → length b ≡ 8
    → length c ≡ 8
    → length src ≡ length d
    → write_at (a ++ (b ++ (c ++ (d ++ rest)))) 24 src ≡ ok (a ++ (b ++ (c ++ (src ++ rest))))
write_fourth a b c d rest src ea eb ec e =
    ap (λ x. write_at x 24 src) (sym (regroup d))
    ∙ write_at-append (a ++ (b ++ c)) d rest src 24
        (omega (arith, length-append a (b ++ c), length-append b c)) e
    ∙ ap ok (regroup src)
  where
    regroup : (x : List ℕ) → (a ++ (b ++ c)) ++ (x ++ rest) ≡ a ++ (b ++ (c ++ (x ++ rest)))
    regroup x = simp append_assoc

-- The fields of a header and of what follows it, cut out of a buffer.
record Cut (buf : List ℕ) : Type 0 where
  a : List ℕ
  b : List ℕ
  c : List ℕ
  d : List ℕ
  payload : List ℕ
  whole : buf ≡ fields a b c d payload
  a_length : length a ≡ 8
  b_length : length b ≡ 8
  c_length : length c ≡ 8
  d_length : length d ≡ 8

cut : (buf : List ℕ) → 32 ≤ length buf → Cut buf
cut buf le =
    let s₁ = split buf 8 (omega arith) in
    let s₂ = split s₁.back 8 (omega (arith, s₁.back_length)) in
    let s₃ = split s₂.back 8 (omega (arith, s₁.back_length, s₂.back_length)) in
    let s₄ = split s₃.back 8 (omega (arith, s₁.back_length, s₂.back_length, s₃.back_length)) in
    record {
      a = s₁.front;
      b = s₂.front;
      c = s₃.front;
      d = s₄.front;
      payload = s₄.back;
      whole = rw (← s₄.joined, ← s₃.joined, ← s₂.joined) s₁.joined;
      a_length = s₁.front_length;
      b_length = s₂.front_length;
      c_length = s₃.front_length;
      d_length = s₄.front_length;
    }

-- Every field fits its 64 bits.
pub record IsHeader (h : ArchivedHeader) : Type 0 where
  pub timestamp_fits : h.timestamp_ns < 256 ^ 8
  pub metadata_fits : h.metadata_ptr < 256 ^ 8
  pub logger_fits : h.logger_ptr < 256 ^ 8

old_parts :
    (old payload : List ℕ) (c : Cut old)
    → length old ≡ 32
    → old ++ payload ≡ fields c.a c.b c.c c.d payload
old_parts old payload c e =
    ap (λ x. x ++ payload) c.whole
    ∙ rw (eq-nil_of_length c.payload none_left) (simp (append_assoc, append-nil))
  where
    none_left : length c.payload ≡ 0
    none_left = omega (
      arith,
      c.a_length,
      c.b_length,
      c.c_length,
      c.d_length,
      ap (λ (x : List ℕ). length x) c.whole,
      length-append c.a (c.b ++ (c.c ++ (c.d ++ c.payload))),
      length-append c.b (c.c ++ (c.d ++ c.payload)),
      length-append c.c (c.d ++ c.payload),
      length-append c.d c.payload,
    )

-- The bytes of a header.
abbrev pub header_bytes : ArchivedHeader → List ℕ
header_bytes h =
    le_bytes 8 h.timestamp_ns
    ++ (le_bytes 8 h.metadata_ptr ++ (le_bytes 8 h.logger_ptr ++ replicate 8 0))

pub length-header_bytes : (h : ArchivedHeader) → length (header_bytes h) ≡ 32
length-header_bytes h = omega arith

abbrev joined_bytes : ArchivedHeader → List ℕ → List ℕ
joined_bytes h payload =
    fields (le_bytes 8 h.timestamp_ns) (le_bytes 8 h.metadata_ptr) (le_bytes 8 h.logger_ptr)
      (replicate 8 0) payload

header_bytes-append :
    (h : ArchivedHeader) (payload : List ℕ) → header_bytes h ++ payload ≡ joined_bytes h payload
header_bytes-append h payload = simp append_assoc

pub serialize_into-append :
    (h : ArchivedHeader) (old payload : List ℕ)
    → length old ≡ 32
    → serialize_into h (old ++ payload) ≡ ok (header_bytes h ++ payload)
unfolding serialize_into
serialize_into-append h old payload e =
    let c = cut old (omega arith) in
    let t = le_bytes 8 h.timestamp_ns in
    let m = le_bytes 8 h.metadata_ptr in
    let l = le_bytes 8 h.logger_ptr in
    let z : List ℕ = replicate 8 0 in
    let et : length t ≡ 8 = length-le_bytes 8 h.timestamp_ns in
    let em : length m ≡ 8 = length-le_bytes 8 h.metadata_ptr in
    let el : length l ≡ 8 = length-le_bytes 8 h.logger_ptr in
    let parts = old_parts old payload c e in
    let e₁ : write_at (old ++ payload) 0 t ≡ ok (t ++ (c.b ++ (c.c ++ (c.d ++ payload)))) =
      ap (λ x. write_at x 0 t) parts
      ∙ write_at-append [] c.a (c.b ++ (c.c ++ (c.d ++ payload))) t 0 refl
          (omega (arith, c.a_length)) in
    let e₂ = write_second t c.b (c.c ++ (c.d ++ payload)) m et (omega (arith, c.b_length)) in
    let e₃ = write_third t m c.c (c.d ++ payload) l et em (omega (arith, c.c_length)) in
    let e₄ = write_fourth t m l c.d payload z et em el (omega (arith, c.d_length)) in
    rw (e₁, e₂, e₃, e₄) refl

pub serialize_into_lem :
    (h : ArchivedHeader) (old : List ℕ)
    → length old ≡ 32
    → serialize_into h old ≡ ok (header_bytes h)
serialize_into_lem h old e =
    ap (serialize_into h) (sym (append-nil old))
    ∙ serialize_into-append h old [] e
    ∙ ap ok (append-nil (header_bytes h))

pub decode-append :
    (h : ArchivedHeader) (payload : List ℕ)
    → IsHeader h
    → decode (header_bytes h ++ payload) ≡ ok (some (record h { reserved = 0 }))
unfolding decode
decode-append h payload fits =
    let t = le_bytes 8 h.timestamp_ns in
    let m = le_bytes 8 h.metadata_ptr in
    let l = le_bytes 8 h.logger_ptr in
    let z : List ℕ = replicate 8 0 in
    let raw = joined_bytes h payload in
    let et : length t ≡ 8 = length-le_bytes 8 h.timestamp_ns in
    let long = le→ltb_false (length raw) 32 (omega arith) in
    let d₁ =
      read_u64-append [] (m ++ (l ++ (z ++ payload))) h.timestamp_ns 0 refl fits.timestamp_fits in
    let d₂ = read_u64-append t (l ++ (z ++ payload)) h.metadata_ptr 8 (sym et) fits.metadata_fits in
    let d₃ : read_u64 raw 16 ≡ ok h.logger_ptr =
      read_u64-append (t ++ m) (z ++ payload) h.logger_ptr 16 refl fits.logger_fits in
    let d₄ : read_u64 raw 24 ≡ ok 0 =
      read_u64-append (t ++ (m ++ l)) payload 0 24 refl (omega arith) in
    ap decode (header_bytes-append h payload) ∙ rw (long, d₁, d₂, d₃, d₄) refl

-- A header whose fields fit 64 bits: serialised, it overwrites the first 32 bytes of a buffer and nothing
-- behind them, and it is decoded to the same times and pointers, from whatever stood there before.
pub decode-serialize_into :
    (h : ArchivedHeader) (old payload : List ℕ)
    → IsHeader h
    → length old ≡ 32
    → (raw : List ℕ) × (serialize_into h (old ++ payload) ≡ ok raw)
      × (decode raw ≡ ok (some (record h { reserved = 0 })))
      × (drop 32 raw ≡ payload)
decode-serialize_into h old payload fits e = (
  header_bytes h ++ payload,
  serialize_into-append h old payload e,
  decode-append h payload fits,
  refl,
)
