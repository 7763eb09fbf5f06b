-- ===== src/Lab5/Gcd.antt =====
-- lab5/lib1.c and lab5/lib2.c: two functions for the greatest common divisor.
pub mod Equivalence
mod Tests
use mai_os.Base.{
  ℕ, zero, suc, ◌+◌, ◌-◌, ◌%◌, ◌^◌, ◌==◌, ltb, Bool, true, false, ◌&&◌, ℤ, pos, negsuc, minus_one,
  eq_ℤ, pred_ℤ, if◌then◌else◌,
}
use mai_os.Lab5.Result.{Result, done, stops, divides_by_zero, overflows, out_of_rounds, ◌>>=◌}

abbrev pub magnitude : ℤ → ℕ
magnitude (pos n) = n
magnitude (negsuc n) = n + 1

abbrev pub negated : ℕ → ℤ
negated n = if n == 0 then pos 0 else negsuc (n - 1)

abbrev pub int_min : ℤ
int_min = negsuc (2 ^ 31 - 1)

-- C's `%`: the result has the sign of the dividend.
unfoldable pub rem : ℤ → ℤ → Result ℤ
rem a b =
    if eq_ℤ b (pos 0)
    then stops divides_by_zero
    else if eq_ℤ a int_min && eq_ℤ b minus_one
    then stops overflows
    else done
        (elim a [ pos n ↦ pos (n % magnitude b) | negsuc n ↦ negated ((n + 1) % magnitude b) ])

-- `x--`
abbrev pub decrement : ℤ → Result ℤ
decrement x = if eq_ℤ x int_min then stops overflows else done (pred_ℤ x)

abbrev pub greater : ℤ → ℤ → Bool
greater (pos a) (pos b) = ltb b a
greater (pos a) (negsuc b) = true
greater (negsuc a) (pos b) = false
greater (negsuc a) (negsuc b) = ltb a b

-- lib1.c: Euclid's algorithm
unfoldable pub gcd1 : ℕ → ℤ → ℤ → Result ℤ
gcd1 zero a b = stops out_of_rounds
gcd1 (suc rounds) a b = if eq_ℤ b (pos 0) then done a else (rem a b >>= λ r. gcd1 rounds b r)

-- the test of the loop in lib2.c, whose second remainder is taken only if the first is 0
unfoldable pub goes_on : ℤ → ℤ → ℤ → Result Bool
goes_on a b x = do
  r ← rem a x
  if eq_ℤ r (pos 0)
      then (do s ← rem b x; done (if eq_ℤ s (pos 0) then false else true))
      else done true

unfoldable pub scan_down : ℕ → ℤ → ℤ → ℤ → Result ℤ
scan_down zero a b x = stops out_of_rounds
scan_down (suc rounds) a b x = do
  on ← goes_on a b x
  if on then (decrement x >>= λ x. scan_down rounds a b x) else done x

-- lib2.c: the naive algorithm
unfoldable pub gcd2 : ℕ → ℤ → ℤ → Result ℤ
gcd2 rounds a b = scan_down rounds a b (if greater a b then b else a)
