-- ===== src/Lab5/Programs.antt =====
-- lab5/prog1.c and lab5/prog2.c: the numbers that scanf reads are a list, and what is printed is a
-- list too. A command whose number was not read has no value.
pub mod Same
mod Tests
use mai_os.Base.{
  ℕ, zero, suc, Bool, true, false, List, [], ◌∷◌, ℤ, pos, negsuc, minus_one, if◌then◌else◌,
}
use mai_os.Lab5.Result.{Result, done, stops, not_read, ◌>>=◌}
use mai_os.Lab5.Gcd.{gcd1, gcd2}
use mai_os.Lab5.Series.{Floats, pi1, pi2}

pub data Library : Type 0 where
  lib1 : Library
  lib2 : Library

-- a number, a float, one of the two help texts, or the error of a library that cannot be loaded
pub data Printed (F : Type 0) : Type 0 where
  number : ℤ → Printed F
  float : F → Printed F
  help1 : Printed F
  help2 : Printed F
  dl_error : Printed F

pub record Ended (F : Type 0) : Type 0 where
  pub printed : List (Printed F)
  pub status : ℤ

abbrev pub other : Library → Library
other lib1 = lib2
other lib2 = lib1

abbrev pub printing : {F : Type 0} → Printed F → Ended F → Ended F
printing p e = record e { printed = p ∷ e.printed }

-- `rounds` bounds the loops of the libraries, `loads` says whether dlopen and dlsym succeed.
module _ (f : Floats) (rounds : ℕ) (loads : Library → Bool) where
  abbrev pub gcd_func : Library → ℤ → ℤ → Result ℤ
  gcd_func lib1 a b = gcd1 rounds a b
  gcd_func lib2 a b = gcd2 rounds a b

  abbrev pub pi_func : Library → ℤ → Result f.Float
  pi_func lib1 k = done (pi1 f k)
  pi_func lib2 k = pi2 f k

  -- the loop of prog1.c, which is linked with one of the libraries
  unfoldable pub loop1 : Library → List ℤ → Result (Ended f.Float)
  loop1 lib [] = done (record { printed = []; status = pos 0 })
  loop1 lib (pos (suc zero) ∷ a ∷ b ∷ input) = do
    r ← gcd_func lib a b
    e ← loop1 lib input
    done (printing (number r) e)
  loop1 lib (pos (suc zero) ∷ input) = stops not_read
  loop1 lib (pos (suc (suc zero)) ∷ k ∷ input) = do
    r ← pi_func lib k
    e ← loop1 lib input
    done (printing (float r) e)
  loop1 lib (pos (suc (suc zero)) ∷ input) = stops not_read
  loop1 lib (arg ∷ input) = done (record { printed = help1 ∷ []; status = minus_one })

  unfoldable pub prog1 : Library → List ℤ → Result (Ended f.Float)
  prog1 lib input = loop1 lib input >>= λ e. done (printing help1 e)

  abbrev pub exit_one : Ended f.Float
  exit_one = record { printed = dl_error ∷ []; status = pos 1 }

  -- the loop of prog2.c
  unfoldable pub loop2 : Library → List ℤ → Result (Ended f.Float)
  loop2 lib [] = done (record { printed = []; status = pos 0 })
  loop2 lib (pos zero ∷ input) =
      if loads (other lib) then loop2 (other lib) input else done exit_one
  loop2 lib (pos (suc zero) ∷ a ∷ b ∷ input) = do
    r ← gcd_func lib a b
    e ← loop2 lib input
    done (printing (number r) e)
  loop2 lib (pos (suc zero) ∷ input) = stops not_read
  loop2 lib (pos (suc (suc zero)) ∷ k ∷ input) = do
    r ← pi_func lib k
    e ← loop2 lib input
    done (printing (float r) e)
  loop2 lib (pos (suc (suc zero)) ∷ input) = stops not_read
  loop2 lib (arg ∷ input) = done (record { printed = help2 ∷ []; status = minus_one })

  unfoldable pub prog2 : List ℤ → Result (Ended f.Float)
  prog2 input =
      if loads lib1 then (loop2 lib1 input >>= λ e. done (printing help2 e)) else done exit_one
