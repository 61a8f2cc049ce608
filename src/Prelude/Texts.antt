-- ===== src/Prelude/Texts.antt =====
-- Texts as their UTF-8 bytes, and what the code takes from the standard library's formatting.
use Prim.Native.Nat.{ℕ, zero, suc, ◌+◌, ◌-◌, ◌/◌, ◌%◌}
use Prim.Native.Char.{code}
use Prim.Native.String.{String}
use mathlib.Core.Bool.{Bool, true, false, ◌&&◌}
use mathlib.Core.Option.{Option, none, some}
use mathlib.Core.List.{List, [], ◌∷◌, ◌++◌, foldl}
use rapidlog.Prelude.Tests.{ltb, leb, ◌==◌, if◌then◌else◌}
use rapidlog.Prelude.Lists.{length, replicate}
use rapidlog.Prelude.Integers.{ℤ, pos, negsuc}

abbrev pub Text : Type 0
Text = List ℕ

-- The bytes of an ASCII text.
abbrev pub ascii : String → Text
ascii String.[] = []
ascii (String.◌∷◌ c s) = code c ∷ ascii s

-- The digits of `n` before `tail`; each round takes one, so `n + 1` rounds are enough.
decimal_before : ℕ → ℕ → Text → Text
decimal_before zero n tail = tail
decimal_before (suc f) n tail =
    let digits = (b'0' + n % 10) ∷ tail in
    let more = decimal_before f (n / 10) digits in if ltb n 10 then digits else more

-- `{}` of an unsigned integer.
unfoldable pub decimal : ℕ → Text
unfolding decimal_before
decimal n = decimal_before (n + 1) n []

-- `{}` of a signed integer.
unfoldable pub decimal_signed : ℤ → Text
unfolding decimal
decimal_signed (pos n) = decimal n
decimal_signed (negsuc n) = b'-' ∷ decimal (n + 1)

-- `{:0width}` of an unsigned integer.
unfoldable pub padded_decimal : ℕ → ℕ → Text
unfolding decimal
padded_decimal width n = let digits = decimal n in replicate (width - length digits) b'0' ++ digits

-- How far a UTF-8 check has come: before a character, or with so many bytes of it to come, the
-- next of them in a range; or it has failed.
pub data Utf8 : Type 0 where
  start invalid : Utf8
  within : ℕ → ℕ → ℕ → Utf8

-- The state behind the first byte of a character.
lead : ℕ → Utf8
lead b =
    if ltb b 0x80
    then start
    else if ltb b 0xc2
    then invalid
    else if ltb b 0xe0
    then within 0 0x80 0xbf
    else if b == 0xe0
    then within 1 0xa0 0xbf
    else if b == 0xed
    then within 1 0x80 0x9f
    else if ltb b 0xf0
    then within 1 0x80 0xbf
    else if b == 0xf0
    then within 2 0x90 0xbf
    else if ltb b 0xf4
    then within 2 0x80 0xbf
    else if b == 0xf4
    then within 2 0x80 0x8f
    else invalid

utf8_step : Utf8 → ℕ → Utf8
utf8_step start b = lead b
utf8_step invalid b = invalid
utf8_step (within zero lo hi) b = if leb lo b && leb b hi then start else invalid
utf8_step (within (suc n) lo hi) b = if leb lo b && leb b hi then within n 0x80 0xbf else invalid

utf8_done : Utf8 → Bool
utf8_done start = true
utf8_done _ = false

unfoldable pub is_utf8 : Text → Bool
unfolding lead utf8_step utf8_done
is_utf8 bs = utf8_done (foldl utf8_step start bs)

-- `std::str::from_utf8(bs).unwrap_or("")`.
unfoldable pub utf8_or_empty : Text → Text
unfolding is_utf8
utf8_or_empty bs = if is_utf8 bs then bs else []

-- The UTF-8 bytes of `char::from_u32(c)`, where `c` is the code of a character.
unfoldable pub char_text : ℕ → Option Text
char_text c =
    if ltb c 0x80
    then some (c ∷ [])
    else if ltb c 0x800
    then some ((0xc0 + c / 64) ∷ (0x80 + c % 64) ∷ [])
    else if leb 0xd800 c && ltb c 0xe000
    then none
    else if ltb c 0x10000
    then some ((0xe0 + c / 4096) ∷ (0x80 + c / 64 % 64) ∷ (0x80 + c % 64) ∷ [])
    else if ltb c 0x110000
    then some
        ((0xf0 + c / 262144) ∷ (0x80 + c / 4096 % 64) ∷ (0x80 + c / 64 % 64) ∷ (0x80 + c % 64) ∷ [])
    else none
