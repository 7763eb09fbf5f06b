-- ===== src/Lab3/StringUtils/RoundTrip.antt =====
-- string_utils.c: what one function writes the other reads.
use mai_os.Base.{
  ℕ, zero, suc, ◌+◌, ◌*◌, ◌/◌, ◌%◌, ◌^◌, ◌≤◌, ◌<◌, ◌≡◌, refl, sym, ap, ◌∙◌, true, false, ltb, none,
  some, [], ◌∷◌, ◌++◌, append_assoc, length, set, drop, length-set, length-append, arith,
}
use mai_os.Base.Text.{Text}
use Prim.Native.Nat.{bit_or}
use mai_os.Base.Bits.{bit_or-nibble, bit_and-nibble}
use mai_os.Lab3.StringUtils.{
  hex_to_int, int_to_hex, digits_from, hex_to_int128, fill, int128_to_hex,
}

-- A digit is read as it was written.
hex_to_int-int_to_hex : (d : ℕ) → d < 16 → hex_to_int (int_to_hex d) ≡ d
unfolding hex_to_int int_to_hex
hex_to_int-int_to_hex d h = ground arith

-- the last `count` digits of a number
abbrev pub digits : ℕ → ℕ → Text
digits zero n = []
digits (suc count) n = digits count (n / 16) ++ (int_to_hex (n % 16) ∷ [])

-- The number has at most `count` digits.
abbrev pub Fits : ℕ → ℕ → Type 0
Fits zero n = n ≡ 0
Fits (suc count) n = Fits count (n / 16)

pub Fits-below : (count n : ℕ) → n < 16 ^ count → Fits count n
Fits-below zero n h = omega arith
Fits-below (suc count) n h = Fits-below count (n / 16) (omega arith)

-- The loop over the digits of a number leaves that number, moved up by a digit.
digits_from-digits :
    (count left n : ℕ) (rest : Text)
    → Fits count n
    → n < 2 ^ 128
    → digits_from (count + left) (digits count n ++ rest) 0
      ≡ digits_from left rest (n * 16 % 2 ^ 128)
unfolding digits_from
digits_from-digits zero left n rest fits h =
    let none_yet : n * 16 % 2 ^ 128 ≡ 0 = omega arith in
    let places : 0 + left ≡ left = omega arith in rw (none_yet, places) refl
digits_from-digits (suc count) left n rest fits h =
    let c = int_to_hex (n % 16) in
    let shorter = digits_from-digits count (suc left) (n / 16) (c ∷ rest) fits (omega arith) in
    let places : suc count + left ≡ count + suc left = omega arith in
    let high : n / 16 * 16 % 2 ^ 128 ≡ n / 16 * 16 = omega arith in
    let whole : bit_or (n / 16 * 16) (n % 16) ≡ n =
      bit_or-nibble (n / 16 * 16) (n % 16) (omega arith) (omega arith) ∙ omega arith in
    rw (places, append_assoc (digits count (n / 16)) (c ∷ []) rest)
      (shorter ∙ rw (high, hex_to_int-int_to_hex (n % 16) (omega arith), whole) refl)

digits_from-whole :
    (count n : ℕ) (rest : Text)
    → n < 2 ^ 128
    → Fits count (n / 16)
    → digits_from count (digits (suc count) n ++ rest) 0 ≡ some n
unfolding digits_from
digits_from-whole count n rest h fits =
    let c = int_to_hex (n % 16) in
    let places : count + 0 ≡ count = omega arith in
    let read : digits_from count (digits count (n / 16) ++ (c ∷ rest)) 0
        ≡ digits_from 0 (c ∷ rest) (n / 16 * 16 % 2 ^ 128) =
      ap (λ k. digits_from k (digits count (n / 16) ++ (c ∷ rest)) 0) (sym places)
      ∙ digits_from-digits count 0 (n / 16) (c ∷ rest) fits (omega arith) in
    let high : n / 16 * 16 % 2 ^ 128 ≡ n / 16 * 16 = omega arith in
    let whole : bit_or (n / 16 * 16) (n % 16) ≡ n =
      bit_or-nibble (n / 16 * 16) (n % 16) (omega arith) (omega arith) ∙ omega arith in
    rw (append_assoc (digits count (n / 16)) (c ∷ []) rest)
      (read ∙ rw (high, hex_to_int-int_to_hex (n % 16) (omega arith), whole) refl)

pub hex_to_int128-digits :
    (n : ℕ) (rest : Text) → n < 2 ^ 128 → hex_to_int128 (digits 32 n ++ rest) ≡ some n
unfolding hex_to_int128
hex_to_int128-digits n rest h = digits_from-whole 31 n rest h (Fits-below 31 (n / 16) (omega arith))

length-digits : (count n : ℕ) → length (digits count n) ≡ count
length-digits zero n = refl
length-digits (suc count) n = omega (
  arith,
  length-append (digits count (n / 16)) (int_to_hex (n % 16) ∷ []),
  length-digits count (n / 16),
)

drop-set : (i : ℕ) (xs : Text) (v : ℕ) → i < length xs → drop i (set xs i v) ≡ v ∷ drop (suc i) xs
drop-set i [] v h = elim h [ ]
drop-set zero (x ∷ xs) v h = refl
drop-set (suc i) (x ∷ xs) v h = drop-set i xs v (omega arith)

length-drop_le : (i : ℕ) (xs : Text) → i ≤ length xs → i + length (drop i xs) ≡ length xs
length-drop_le zero xs h = omega arith
length-drop_le (suc i) [] h = elim h [ ]
length-drop_le (suc i) (x ∷ xs) h = omega (arith, length-drop_le i xs (omega arith))

set-append : (xs ys : Text) (i v : ℕ) → set (xs ++ ys) (length xs + i) v ≡ xs ++ set ys i v
set-append [] ys i v = let place : 0 + i ≡ i = omega arith in rw place refl
set-append (x ∷ xs) ys i v =
    let place : suc (length xs) + i ≡ suc (length xs + i) = omega arith in
    rw place (ap (λ r. x ∷ r) (set-append xs ys i v))

-- The loop writes the digits and leaves what is behind them.
fill-digits :
    (place n : ℕ) (st : Text)
    → place ≤ length st
    → fill place n st ≡ some (digits place n ++ drop place st)
unfolding fill
fill-digits zero n st h = refl
fill-digits (suc place) n st h =
    let c = int_to_hex (n % 16) in
    let inside : ltb place (length st) ≡ true = ground arith in
    let rest = fill-digits place (n / 16) (set st place c) (omega (arith, length-set st place c)) in
    rw (bit_and-nibble n, inside)
      (rest
        ∙ rw
            (
              drop-set place st c (omega arith),
              append_assoc (digits place (n / 16)) (c ∷ []) (drop (suc place) st),
            )
            refl)

written :
    (n : ℕ) (st : Text)
    → 33 < length st
    → int128_to_hex n st ≡ some (digits 32 n ++ set (drop 32 st) 1 0)
unfolding int128_to_hex
written n st h =
    let size : length (digits 32 n ++ drop 32 st) ≡ length st = omega (
      arith,
      length-append (digits 32 n) (drop 32 st),
      length-digits 32 n,
      length-drop_le 32 st (omega arith),
    ) in
    let inside : ltb 33 (length (digits 32 n ++ drop 32 st)) ≡ true = ground (arith, size) in
    let behind : set (digits 32 n ++ drop 32 st) 33 0 ≡ digits 32 n ++ set (drop 32 st) 1 0 =
      ap (λ k. set (digits 32 n ++ drop 32 st) (k + 1) 0) (sym (length-digits 32 n))
      ∙ set-append (digits 32 n) (drop 32 st) 1 0 in
    rw (fill-digits 32 n st (omega arith), inside, behind) refl

-- Int128_to_hex of a number below 2 ^ 128 into an array of 34 characters or more stays inside
-- the array and leaves its length as it was, and hex_to_int128 of the array is the number.
pub hex_to_int128-int128_to_hex :
    (n : ℕ) (st : Text)
    → n < 2 ^ 128
    → 33 < length st
    → (st' : Text) × (int128_to_hex n st ≡ some st')
      × (hex_to_int128 st' ≡ some n)
      × (length st' ≡ length st)
hex_to_int128-int128_to_hex n st small room = (
  digits 32 n ++ set (drop 32 st) 1 0,
  written n st room,
  hex_to_int128-digits n (set (drop 32 st) 1 0) small,
  omega (
    arith,
    length-append (digits 32 n) (set (drop 32 st) 1 0),
    length-digits 32 n,
    length-set (drop 32 st) 1 0,
    length-drop_le 32 st (omega arith),
  ),
)

-- Int128_to_hex writes outside an array of the 33 characters that its declaration asks for,
-- whatever the number.
pub int128_to_hex-overflow : (n : ℕ) (st : Text) → length st ≡ 33 → int128_to_hex n st ≡ none
unfolding int128_to_hex
int128_to_hex-overflow n st declared =
    let size : length (digits 32 n ++ drop 32 st) ≡ 33 = omega (
      arith,
      length-append (digits 32 n) (drop 32 st),
      length-digits 32 n,
      length-drop_le 32 st (omega arith),
    ) in
    let outside : ltb 33 (length (digits 32 n ++ drop 32 st)) ≡ false = ground (arith, size) in
    rw (fill-digits 32 n st (omega arith), outside) refl
