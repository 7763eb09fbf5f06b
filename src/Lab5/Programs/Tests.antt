-- ===== src/Lab5/Programs/Tests.antt =====
-- A divisor, a change of the library, and another divisor.
use mai_os.Base.{ℕ, ◌+◌, ◌-◌, ◌*◌, ◌/◌, ◌≡◌, refl, Bool, true, List, [], ◌∷◌, pos, arith}
use mai_os.Lab5.Result.{done}
use mai_os.Lab5.Series.{Floats, count}
use mai_os.Lab5.Programs.{Library, lib2, help1, help2, prog1, prog2}
use mai_os.Lab5.Programs.Same.{Request, change, divisor, AreDivisors, numbers, prog2-prog1}

-- natural numbers in place of floats
abbrev naturals : Floats
naturals = record {
  Float = ℕ;
  Double = ℕ;
  of_int = count;
  widen = λ x. x;
  narrow = λ x. x;
  pow = λ x y. 1;
  add_double = λ x y. x + y;
  mul_double = λ x y. x * y;
  add_float = λ x y. x + y;
  sub_float = λ x y. x - y;
  mul_float = λ x y. x * y;
  div_float = λ x y. x / y;
}

abbrev loads : Library → Bool
loads lib = true

abbrev requests : List Request
requests = divisor 12 18 ∷ change ∷ divisor 7 5 ∷ []

prog2-prog1_example :
    (gs : List ℕ) × AreDivisors requests gs
    × (prog1 naturals 20 loads lib2 (pos 1 ∷ pos 12 ∷ pos 18 ∷ pos 1 ∷ pos 7 ∷ pos 5 ∷ [])
        ≡ done (record { printed = help1 ∷ numbers gs; status = pos 0 }))
    × (prog2 naturals 20 loads (pos 1 ∷ pos 12 ∷ pos 18 ∷ pos 0 ∷ pos 1 ∷ pos 7 ∷ pos 5 ∷ [])
        ≡ done (record { printed = help2 ∷ numbers gs; status = pos 0 }))
prog2-prog1_example =
    prog2-prog1 naturals 20 loads (λ lib. refl) requests lib2
      (
        ground arith,
        ground arith,
        ground arith,
        ground arith,
        (ground arith, ground arith, ground arith, ground arith, tt),
      )
