-- ===== src/Lab5/Series.antt =====
-- lab5/lib1.c and lab5/lib2.c: the two series for pi. The operations on floating-point numbers are
-- a parameter.
use mai_os.Base.{ℕ, zero, suc, ◌+◌, ◌-◌, ◌*◌, ◌^◌, ltb, ℤ, pos, negsuc, minus_one, if◌then◌else◌}
use mai_os.Lab5.Result.{Result, done, stops, overflows, ◌>>=◌}

-- float and double, with the operations of the series
pub record Floats : Type 1 where
  pub Float : Type 0
  pub Double : Type 0
  pub of_int : ℤ → Float
  pub widen : Float → Double
  pub narrow : Double → Float
  pub pow : ℤ → ℤ → Double
  pub add_double : Double → Double → Double
  pub mul_double : Double → Double → Double
  pub add_float : Float → Float → Float
  pub sub_float : Float → Float → Float
  pub mul_float : Float → Float → Float
  pub div_float : Float → Float → Float

-- the rounds of a loop from 0 below K
abbrev pub count : ℤ → ℕ
count (pos k) = k
count (negsuc k) = 0

module _ (f : Floats) where
  -- the Leibniz series
  unfoldable pub leibniz : ℕ → ℕ → f.Float → f.Float → f.Float
  leibniz zero i res x = res
  leibniz (suc rounds) i res x =
      let term =
        f.mul_double (f.pow minus_one (pos i)) (f.widen (f.div_float (f.of_int (pos 4)) x)) in
      leibniz rounds (i + 1) (f.narrow (f.add_double (f.widen res) term))
        (f.add_float x (f.of_int (pos 2)))

  unfoldable pub pi1 : ℤ → f.Float
  pi1 k = leibniz (count k) 0 (f.of_int (pos 0)) (f.of_int (pos 1))

  -- the Wallis formula
  unfoldable pub wallis : ℕ → ℕ → f.Float → Result f.Float
  wallis zero i res = done res
  wallis (suc rounds) i res =
      if ltb (4 * i * i) (2 ^ 31)
      then (let num = f.of_int (pos (4 * i * i)) in
          wallis rounds (i + 1)
            (f.mul_float res (f.div_float num (f.sub_float num (f.of_int (pos 1))))))
      else stops overflows

  unfoldable pub pi2 : ℤ → Result f.Float
  pi2 k = do
    res ← wallis (count k - 1) 1 (f.of_int (pos 1))
    done (f.mul_float res (f.of_int (pos 2)))
