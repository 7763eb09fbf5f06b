-- ===== src/Lab3/StringUtils/Tests.antt =====
-- A number as text and back.
use mai_os.Base.{◌≡◌, refl, none, some, replicate, length, arith}
use mai_os.Base.Text.{Text}
use mai_os.Lab3.StringUtils.{int128_to_hex, hex_to_int128}
use mai_os.Lab3.StringUtils.RoundTrip.{hex_to_int128-int128_to_hex, int128_to_hex-overflow}

abbrev buffer : Text
buffer = replicate 40 120

hex_to_int128-int128_to_hex_example :
    (st' : Text) × (int128_to_hex 748 buffer ≡ some st')
    × (hex_to_int128 st' ≡ some 748)
    × (length st' ≡ 40)
hex_to_int128-int128_to_hex_example =
    hex_to_int128-int128_to_hex 748 buffer (omega arith) (omega arith)

int128_to_hex-overflow_example : int128_to_hex 748 (replicate 33 0) ≡ none
int128_to_hex-overflow_example = int128_to_hex-overflow 748 (replicate 33 0) refl
