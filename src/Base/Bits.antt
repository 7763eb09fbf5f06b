-- ===== src/Base/Bits.antt =====
-- Operations on the digits of numbers, and those of C's `&` and `|` with a number of four digits.
use Prim.Native.Nat.{
  ℕ, zero, suc, ◌+◌, ◌*◌, ◌/◌, ◌%◌, ◌≤◌, ◌<◌, bit_or, bit_or-bitwise, bit_and, bit_and-bitwise,
  digits, max, min,
}
use mathlib.Core.Path.{◌≡◌, refl, sym, ap, ◌∙◌}
use native.Mathlib.Omega.{arith}

-- More digits than the first number has change nothing.
pub digits_enough :
    (z : ℕ → ℕ) (f : ℕ → ℕ → ℕ) (n m a b : ℕ) → a ≤ n → a ≤ m → digits z f n a b ≡ digits z f m a b
digits_enough z f zero zero a b h k = refl
digits_enough z f zero (suc m) zero b h k = refl
digits_enough z f zero (suc m) (suc a) b h k = elim h [ ]
digits_enough z f (suc n) zero zero b h k = refl
digits_enough z f (suc n) zero (suc a) b h k = elim k [ ]
digits_enough z f (suc n) (suc m) zero b h k = refl
digits_enough z f (suc n) (suc m) (suc a) b h k =
    ap (λ d. d * 2 + f (suc a % 2) (b % 2))
      (digits_enough z f n m (suc a / 2) (b / 2) (omega arith) (omega arith))

bit_or_lem : (a b : ℕ) → bit_or a b ≡ digits (λ b. b) max a a b
bit_or_lem a b = λ i. bit_or-bitwise a b i

bit_and_lem : (a b : ℕ) → bit_and a b ≡ digits (λ b. 0) min a a b
bit_and_lem a b = λ i. bit_and-bitwise a b i

bit_or-step : (a b : ℕ) → bit_or a b ≡ bit_or (a / 2) (b / 2) * 2 + max (a % 2) (b % 2)
bit_or-step zero b = omega (arith, bit_or_lem 0 b, bit_or_lem 0 (b / 2))
bit_or-step (suc a) b =
    bit_or_lem (suc a) b
    ∙ ap (λ d. d * 2 + max (suc a % 2) (b % 2))
        (digits_enough (λ b. b) max a (suc a / 2) (suc a / 2) (b / 2) (omega arith) (omega arith)
          ∙ sym (bit_or_lem (suc a / 2) (b / 2)))

bit_and-step : (a b : ℕ) → bit_and a b ≡ bit_and (a / 2) (b / 2) * 2 + min (a % 2) (b % 2)
bit_and-step zero b = omega (arith, bit_and_lem 0 b, bit_and_lem 0 (b / 2))
bit_and-step (suc a) b =
    bit_and_lem (suc a) b
    ∙ ap (λ d. d * 2 + min (suc a % 2) (b % 2))
        (digits_enough (λ b. 0) min a (suc a / 2) (suc a / 2) (b / 2) (omega arith) (omega arith)
          ∙ sym (bit_and_lem (suc a / 2) (b / 2)))

or_zero_to : (n a : ℕ) → a ≤ n → bit_or a 0 ≡ a
or_zero_to zero zero h = bit_or_lem 0 0
or_zero_to zero (suc a) h = elim h [ ]
or_zero_to (suc n) a h = omega (arith, bit_or-step a 0, or_zero_to n (a / 2) (omega arith))

and_zero_to : (n a : ℕ) → a ≤ n → bit_and a 0 ≡ 0
and_zero_to zero zero h = bit_and_lem 0 0
and_zero_to zero (suc a) h = elim h [ ]
and_zero_to (suc n) a h = omega (arith, bit_and-step a 0, and_zero_to n (a / 2) (omega arith))

-- Four digits put into a number that ends in four zeros.
pub bit_or-nibble : (a h : ℕ) → a % 16 ≡ 0 → h < 16 → bit_or a h ≡ a + h
bit_or-nibble a h low small =
    let none_left : h / 2 / 2 / 2 / 2 ≡ 0 = omega arith in
    let s₄ : bit_or (a / 2 / 2 / 2 / 2) (h / 2 / 2 / 2 / 2) ≡ a / 2 / 2 / 2 / 2 =
      rw none_left (or_zero_to (a / 2 / 2 / 2 / 2) (a / 2 / 2 / 2 / 2) (omega arith)) in
    omega (
      arith,
      bit_or-step a h,
      bit_or-step (a / 2) (h / 2),
      bit_or-step (a / 2 / 2) (h / 2 / 2),
      bit_or-step (a / 2 / 2 / 2) (h / 2 / 2 / 2),
      s₄,
    )

-- The last four digits of a number.
pub bit_and-nibble : (a : ℕ) → bit_and a 15 ≡ a % 16
bit_and-nibble a = omega (
  arith,
  bit_and-step a 15,
  bit_and-step (a / 2) 7,
  bit_and-step (a / 2 / 2) 3,
  bit_and-step (a / 2 / 2 / 2) 1,
  and_zero_to (a / 2 / 2 / 2 / 2) (a / 2 / 2 / 2 / 2) (omega arith),
)
