-- ===== src/Lab5/Programs/Same.antt =====
-- prog1.c and prog2.c: both print the same numbers.
use mai_os.Base.{ℕ, ◌<◌, ◌≡◌, refl, Bool, true, List, [], ◌∷◌, ℤ, pos}
use mai_os.Lab5.Gcd.{gcd1, gcd2}
use mai_os.Lab5.Gcd.Equivalence.{IsGcd, gcd2-gcd1}
use mai_os.Lab5.Result.{done}
use mai_os.Lab5.Series.{Floats}
use mai_os.Lab5.Programs.{
  Library, lib1, lib2, Printed, number, help1, help2, other, gcd_func, loop1, prog1, loop2, prog2,
}

-- What a user asks for: the other library, or the divisor of two numbers.
pub data Request : Type 0 where
  change : Request
  divisor : ℕ → ℕ → Request

-- what is typed in prog2, and in prog1, which has no 0
abbrev pub typed2 : List Request → List ℤ
typed2 [] = []
typed2 (change ∷ rs) = pos 0 ∷ typed2 rs
typed2 (divisor a b ∷ rs) = pos 1 ∷ pos a ∷ pos b ∷ typed2 rs

abbrev pub typed1 : List Request → List ℤ
typed1 [] = []
typed1 (change ∷ rs) = typed1 rs
typed1 (divisor a b ∷ rs) = pos 1 ∷ pos a ∷ pos b ∷ typed1 rs

abbrev pub ArePositive : ℕ → List Request → Type 0
ArePositive rounds [] = Unit {0}
ArePositive rounds (change ∷ rs) = ArePositive rounds rs
ArePositive rounds (divisor a b ∷ rs) =
    (0 < a) × (0 < b) × (a < rounds) × (b < rounds) × ArePositive rounds rs

-- The numbers are the greatest common divisors that were asked for.
abbrev pub AreDivisors : List Request → List ℕ → Type 0
AreDivisors [] [] = Unit {0}
AreDivisors [] (g ∷ gs) = ⊥
AreDivisors (change ∷ rs) gs = AreDivisors rs gs
AreDivisors (divisor a b ∷ rs) [] = ⊥
AreDivisors (divisor a b ∷ rs) (g ∷ gs) = IsGcd g a b × AreDivisors rs gs

abbrev pub numbers : {F : Type 0} → List ℕ → List (Printed F)
numbers [] = []
numbers (g ∷ gs) = number (pos g) ∷ numbers gs

module _ (f : Floats) (rounds : ℕ) (loads : Library → Bool)
    (loaded : (lib : Library) → loads lib ≡ true) where
  gcd_func-IsGcd :
      (a b : ℕ)
      → 0 < a
      → 0 < b
      → a < rounds
      → b < rounds
      → (g : ℕ) × ((lib : Library) → gcd_func f rounds loads lib (pos a) (pos b) ≡ done (pos g))
        × IsGcd g a b
  gcd_func-IsGcd a b ha hb ka kb =
      let (g, run, run', is) = gcd2-gcd1 rounds a b ha hb ka kb in (g, both g run run', is)
    where
      both :
          (g : ℕ)
          → gcd1 rounds (pos a) (pos b) ≡ done (pos g)
          → gcd2 rounds (pos a) (pos b) ≡ done (pos g)
          → (lib : Library) → gcd_func f rounds loads lib (pos a) (pos b) ≡ done (pos g)
      both g run run' lib1 = run
      both g run run' lib2 = run'

  loops_print :
      (rs : List Request)
      → ArePositive rounds rs
      → (gs : List ℕ) × AreDivisors rs gs
        × ((lib : Library)
            → loop1 f rounds loads lib (typed1 rs)
              ≡ done (record { printed = numbers gs; status = pos 0 }))
        × ((lib : Library)
            → loop2 f rounds loads lib (typed2 rs)
              ≡ done (record { printed = numbers gs; status = pos 0 }))
  unfolding loop1 loop2
  loops_print [] ok = ([], tt, λ lib. refl, λ lib. refl)
  loops_print (change ∷ rs) ok =
      let (gs, are, run, run') = loops_print rs ok in
      (gs, are, run, λ lib. rw (loaded (other lib)) (run' (other lib)))
  loops_print (divisor a b ∷ rs) (ha, hb, ka, kb, ok) =
      let (g, same, is) = gcd_func-IsGcd a b ha hb ka kb in
      let (gs, are, run, run') = loops_print rs ok in
      (
        g ∷ gs,
        (is, are),
        (λ lib. rw (same lib, run lib) refl),
        (λ lib. rw (same lib, run' lib) refl),
      )

  -- Whatever divisors of positive numbers a user asks for, and wherever the user changes the
  -- library in prog2, if the libraries load, prog2 prints behind its help the same numbers as
  -- prog1 linked with either library, both return 0, and each number is a common divisor of the
  -- two that were asked for that every common divisor divides; the rounds that bound the loops
  -- of the libraries are to be more than each number
  pub prog2-prog1 :
      (rs : List Request) (lib : Library)
      → ArePositive rounds rs
      → (gs : List ℕ) × AreDivisors rs gs
        × (prog1 f rounds loads lib (typed1 rs)
            ≡ done (record { printed = help1 ∷ numbers gs; status = pos 0 }))
        × (prog2 f rounds loads (typed2 rs)
            ≡ done (record { printed = help2 ∷ numbers gs; status = pos 0 }))
  unfolding prog1 prog2
  prog2-prog1 rs lib ok =
      let (gs, are, run, run') = loops_print rs ok in
      (gs, are, rw (run lib) refl, rw (loaded lib1, run' lib1) refl)
