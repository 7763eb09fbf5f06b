-- ===== src/Lab3/StringUtils.antt =====
-- lab3/string_utils.c: 128-bit numbers as 32 hexadecimal digits. Characters are their codes, and
-- `none` is an access outside the array.
pub mod RoundTrip
mod Tests
use mai_os.Base.{
  ℕ, zero, suc, ◌+◌, ◌-◌, ◌*◌, ◌/◌, ◌%◌, ◌^◌, ltb, leb, ◌&&◌, Option, none, some, ◌>>=◌, List, [],
  ◌∷◌, length, set, if◌then◌else◌,
}
use mai_os.Base.Text.{Text}
use Prim.Native.Nat.{bit_or, bit_and}

abbrev pub max_128_hex_bytes : ℕ
max_128_hex_bytes = 32

unfoldable pub hex_to_int : ℕ → ℕ
hex_to_int c =
    if leb 48 c && leb c 57 then c - 48 else if leb 65 c && leb c 70 then 10 + c - 65 else 0

unfoldable pub int_to_hex : ℕ → ℕ
int_to_hex c = if ltb c 10 then 48 + c else if ltb 9 c && ltb c 16 then 65 + c - 10 else 48

-- the loop with `left` rounds to go, then the last digit
unfoldable pub digits_from : ℕ → Text → ℕ → Option ℕ
digits_from left [] number = none
digits_from zero (c ∷ st) number = some (bit_or number (hex_to_int c))
digits_from (suc left) (c ∷ st) number =
    digits_from left st (bit_or number (hex_to_int c) * 2 ^ 4 % 2 ^ 128)

unfoldable pub hex_to_int128 : Text → Option ℕ
hex_to_int128 st = digits_from (max_128_hex_bytes - 1) st 0

abbrev pub store : Text → ℕ → ℕ → Option Text
store st i c = if ltb i (length st) then some (set st i c) else none

-- the loop, which fills the places below `place` from the last on
unfoldable pub fill : ℕ → ℕ → Text → Option Text
fill zero number st = some st
fill (suc place) number st = do
  st ← store st place (int_to_hex (bit_and number 15))
  fill place (number / 2 ^ 4) st

unfoldable pub int128_to_hex : ℕ → Text → Option Text
int128_to_hex number st = do
  st ← fill max_128_hex_bytes number st
  store st (max_128_hex_bytes + 1) 0
