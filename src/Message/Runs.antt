-- ===== src/Message/Runs.antt =====
-- A header that is written and read.
use rapidlog.Prelude.{ℕ, ◌≡◌, refl, List, [], ◌∷◌, ◌++◌, some, ok, replicate, drop, arith}
use rapidlog.Message.{ArchivedHeader, IsHeader, serialize_into, decode, decode-serialize_into}

abbrev header : ArchivedHeader
header = record {
  timestamp_ns = 1_700_000_000_123_456_789;
  metadata_ptr = 4096;
  logger_ptr = 8192;
  reserved = 7;
}

abbrev payload : List ℕ
payload = 42 ∷ 0 ∷ 0 ∷ 0 ∷ []

call-IsHeader : IsHeader header
call-IsHeader = record {
  timestamp_fits = omega arith;
  metadata_fits = omega arith;
  logger_fits = omega arith;
}

decode-serialize_into_example :
    (raw : List ℕ) × (serialize_into header (replicate 32 255 ++ payload) ≡ ok raw)
    × (decode raw ≡ ok (some (record header { reserved = 0 })))
    × (drop 32 raw ≡ payload)
decode-serialize_into_example =
    decode-serialize_into header (replicate 32 255) payload call-IsHeader refl
