-- ===== src/Base/Int.antt =====
-- The values of C's `int` and `long`: integers over the native numbers.
use Prim.Native.Nat.{ℕ, ◌%◌, ◌^◌, ◌<◌, ◌+◌, ◌-◌}
use mathlib.Core.Path.{◌≡◌}
use mathlib.Core.Logic.{◌≢◌, ◌↔◌}
use mathlib.Core.Bool.{Bool, true, false}
use native.Mathlib.Omega.{arith}
use mai_os.Base.Tests.{ltb, ◌==◌, if◌then◌else◌}

-- `negsuc n` is -(n + 1).
pub data ℤ : Type 0 where
  pos : ℕ → ℤ
  negsuc : ℕ → ℤ

abbrev pub minus_one : ℤ
minus_one = negsuc 0

abbrev pub eq_ℤ : ℤ → ℤ → Bool
eq_ℤ (pos a) (pos b) = a == b
eq_ℤ (pos a) (negsuc b) = false
eq_ℤ (negsuc a) (pos b) = false
eq_ℤ (negsuc a) (negsuc b) = a == b

-- `a < 0` and `a > 0`
abbrev pub is_neg : ℤ → Bool
is_neg (pos a) = false
is_neg (negsuc a) = true

abbrev pub is_pos : ℤ → Bool
is_pos (pos a) = ltb 0 a
is_pos (negsuc a) = false

-- `a - 1` and `a + 1`
abbrev pub pred_ℤ : ℤ → ℤ
pred_ℤ (pos a) = if a == 0 then negsuc 0 else pos (a - 1)
pred_ℤ (negsuc a) = negsuc (a + 1)

abbrev pub suc_ℤ : ℤ → ℤ
suc_ℤ (pos a) = pos (a + 1)
suc_ℤ (negsuc a) = if a == 0 then pos 0 else negsuc (a - 1)

pub eq_ℤ_iff : (a b : ℤ) → (eq_ℤ a b ≡ true) ↔ (a ≡ b)
eq_ℤ_iff a b = ground arith

pub eq_ℤ_of_ne : (a b : ℤ) → a ≢ b → eq_ℤ a b ≡ false
eq_ℤ_of_ne a b h = ground arith

-- A `long` that is stored in an `int` keeps its low 32 bits.
unfoldable pub to_int : ℤ → ℤ
to_int (pos n) = let m = n % 2 ^ 32 in if ltb m (2 ^ 31) then pos m else negsuc (2 ^ 32 - 1 - m)
to_int (negsuc n) = let m = n % 2 ^ 32 in if ltb m (2 ^ 31) then negsuc m else pos (2 ^ 32 - 1 - m)

-- the range of `int`
abbrev pub IsInt : ℤ → Type 0
IsInt (pos n) = n < 2 ^ 31
IsInt (negsuc n) = n < 2 ^ 31

pub to_int_lem : (a : ℤ) → IsInt a → to_int a ≡ a
unfolding to_int
to_int_lem (pos n) h = ground arith
to_int_lem (negsuc n) h = ground arith
