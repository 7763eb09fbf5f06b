-- ===== src/Base/Decimal.antt =====
-- The decimal texts of `int`: sprintf with "%d", and strtol at base 10.
use mai_os.Base.{
  ℕ, zero, suc, ◌+◌, ◌-◌, ◌*◌, ◌/◌, ◌%◌, ◌^◌, ◌≤◌, ◌<◌, ◌≡◌, refl, sym, ◌∙◌, ap, ◌⊎◌, inl, inr,
  Bool, ◌&&◌, ◌||◌, true, false, [], ◌∷◌, arith, ltb, leb, ◌==◌, if◌then◌else◌, Bool-cases, ℤ, pos,
  negsuc, to_int, to_int_lem, IsInt,
}
use mai_os.Base.Text.{Text}

-- the digits of a number in front of `out`, with the rounds that may be made
print_digits : ℕ → ℕ → Text → Text
print_digits zero n out = out
print_digits (suc rounds) n out =
    let last = (b'0' + n % 10) ∷ out in
    let rest = print_digits rounds (n / 10) last in if ltb n 10 then last else rest

decimal : ℕ → Text
unfolding print_digits
decimal n = print_digits (suc n) n []

unfoldable pub int_to_str : ℤ → Text
unfolding decimal
int_to_str (pos n) = decimal n
int_to_str (negsuc n) = b'-' ∷ decimal (suc n)

abbrev is_digit : ℕ → Bool
is_digit c = leb b'0' c && leb c b'9'

-- `isspace`: the blank and the codes 9 to 13
abbrev is_space : ℕ → Bool
is_space c = c == 32 || leb 9 c && leb c 13

scan_digits : Text → ℕ → ℕ
scan_digits [] n = n
scan_digits (c ∷ s) n =
    let rest = scan_digits s (n * 10 + (c - b'0')) in if is_digit c then rest else n

-- A value outside the range of `long` becomes the bound.
abbrev long_of : Bool → ℕ → ℤ
long_of false n = if leb n (2 ^ 63 - 1) then pos n else pos (2 ^ 63 - 1)
long_of true n =
    if n == 0 then pos 0 else if leb n (2 ^ 63) then negsuc (n - 1) else negsuc (2 ^ 63 - 1)

scan_sign : Text → ℤ
unfolding scan_digits
scan_sign [] = pos 0
scan_sign (c ∷ s) =
    if c == b'-'
    then long_of true (scan_digits s 0)
    else if c == b'+'
    then long_of false (scan_digits s 0)
    else long_of false (scan_digits (c ∷ s) 0)

unfoldable pub strtol : Text → ℤ
unfolding scan_sign
strtol [] = pos 0
strtol (c ∷ s) = let rest = strtol s in if is_space c then rest else scan_sign (c ∷ s)

scan_last : (n : ℕ) (out : Text) → scan_digits ((b'0' + n % 10) ∷ out) (n / 10) ≡ scan_digits out n
unfolding scan_digits
scan_last n out = ground arith

scan-print :
    (rounds n : ℕ) (out : Text)
    → n < rounds
    → scan_digits (print_digits rounds n out) 0 ≡ scan_digits out n
unfolding print_digits
scan-print zero n out h = elim h [ ]
scan-print (suc rounds) n out h = elim (Bool-cases (ltb n 10)) [
  | inl small ↦
      let e : n / 10 ≡ 0 = ground arith in
      rw small (ap (scan_digits ((b'0' + n % 10) ∷ out)) (sym e) ∙ scan_last n out)
  | inr large ↦
      rw large (scan-print rounds (n / 10) ((b'0' + n % 10) ∷ out) (ground arith) ∙ scan_last n out)
]

-- Every byte is a digit.
abbrev pub Digits : Text → Type 0
Digits [] = Unit {0}
Digits (c ∷ s) = (b'0' ≤ c) × (c ≤ b'9') × Digits s

print_digits-Digits : (rounds n : ℕ) (out : Text) → Digits out → Digits (print_digits rounds n out)
unfolding print_digits
print_digits-Digits zero n out h = h
print_digits-Digits (suc rounds) n out h =
    let last : Digits ((b'0' + n % 10) ∷ out) = (omega arith, omega arith, h) in
    elim (Bool-cases (ltb n 10)) [
      | inl small ↦ rw small last
      | inr large ↦ rw large (print_digits-Digits rounds (n / 10) ((b'0' + n % 10) ∷ out) last)
    ]

pub int_to_str-Digits : (n : ℕ) → Digits (int_to_str (pos n))
unfolding int_to_str decimal
int_to_str-Digits n = print_digits-Digits (suc n) n [] tt

-- The text of a number starts with a digit.
record Starts (s : Text) : Type 0 where
  first : ℕ
  rest : Text
  shape : s ≡ first ∷ rest
  low : b'0' ≤ first
  high : first ≤ b'9'

print_digits-Starts :
    (rounds n : ℕ) (out : Text) → 0 < rounds ⊎ Starts out → Starts (print_digits rounds n out)
unfolding print_digits
print_digits-Starts zero n out h = elim h [ inl lt ↦ elim lt [ ] | inr s ↦ s ]
print_digits-Starts (suc rounds) n out h =
    let last : Starts ((b'0' + n % 10) ∷ out) = record {
      first = b'0' + n % 10;
      rest = out;
      shape = refl;
      low = omega arith;
      high = omega arith;
    } in
    elim (Bool-cases (ltb n 10)) [
      | inl small ↦ rw small last
      | inr large ↦
          rw large (print_digits-Starts rounds (n / 10) ((b'0' + n % 10) ∷ out) (inr last))
    ]

strtol_digits : (s : Text) → Starts s → strtol s ≡ long_of false (scan_digits s 0)
unfolding strtol
strtol_digits [] d = let e = d.shape in cc
strtol_digits (c ∷ s) d =
    let e = d.shape in
    let low : b'0' ≤ c = ground (arith, d.low) in
    let high : c ≤ b'9' = ground (arith, d.high) in ground arith

scan-decimal : (n : ℕ) → scan_digits (decimal n) 0 ≡ n
unfolding decimal scan_digits
scan-decimal n = scan-print (suc n) n [] (omega arith)

decimal-Starts : (n : ℕ) → Starts (decimal n)
unfolding decimal
decimal-Starts n = print_digits-Starts (suc n) n [] (inl (omega arith))

strtol-pos : (n : ℕ) → n < 2 ^ 63 → strtol (decimal n) ≡ pos n
strtol-pos n h = strtol_digits (decimal n) (decimal-Starts n) ∙ rw (scan-decimal n) (ground arith)

strtol-minus : (n : ℕ) → n < 2 ^ 31 → strtol (b'-' ∷ decimal (suc n)) ≡ negsuc n
unfolding strtol
strtol-minus n h = rw (scan-decimal (suc n)) (ground arith)

-- strtol reads back what sprintf printed.
pub strtol-int_to_str : (a : ℤ) → IsInt a → strtol (int_to_str a) ≡ a
unfolding int_to_str
strtol-int_to_str (pos n) h = strtol-pos n (omega arith)
strtol-int_to_str (negsuc n) h = strtol-minus n h

-- The same for a `long` that is not negative.
pub strtol-natural : (n : ℕ) → n < 2 ^ 63 → strtol (int_to_str (pos n)) ≡ pos n
unfolding int_to_str
strtol-natural n h = strtol-pos n h

-- `int id = strtol(s, NULL, 10)`
unfoldable pub str_to_int : Text → ℤ
unfolding strtol to_int
str_to_int s = to_int (strtol s)

pub str_to_int-int_to_str : (a : ℤ) → IsInt a → str_to_int (int_to_str a) ≡ a
unfolding str_to_int
str_to_int-int_to_str a h = ap to_int (strtol-int_to_str a h) ∙ to_int_lem a h

-- The texts of two different `int` values differ.
pub int_to_str-injective : (a b : ℤ) → IsInt a → IsInt b → int_to_str a ≡ int_to_str b → a ≡ b
int_to_str-injective a b ha hb e =
    sym (strtol-int_to_str a ha) ∙ ap strtol e ∙ strtol-int_to_str b hb
