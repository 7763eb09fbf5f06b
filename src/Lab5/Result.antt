-- ===== src/Lab5/Result.antt =====
-- Results of the functions and programs of lab5: a value, or why there is none.

-- A division by 0, a value outside the range of int, a number that scanf did not read, or a loop
-- that used up the rounds that the model gave it.
pub data Fault : Type 0 where
  divides_by_zero : Fault
  overflows : Fault
  not_read : Fault
  out_of_rounds : Fault

pub data Result {ℓ} (A : Type ℓ) : Type ℓ where
  done : A → Result A
  stops : Fault → Result A

infixl 5 ◌>>=◌
abbrev pub ◌>>=◌ {ℓ κ} : {A : Type ℓ} {B : Type κ} → Result A → (A → Result B) → Result B
done a >>= f = f a
stops e >>= f = stops e
