-- ===== src/Lab5/Gcd/Tests.antt =====
-- Of 7 and 0, and of a negative number.
use mai_os.Base.{◌≡◌, refl, pos, negsuc}
use mai_os.Lab5.Result.{done, stops, divides_by_zero}
use mai_os.Lab5.Gcd.{rem, gcd1, gcd2}
use mai_os.Lab5.Gcd.Equivalence.{gcd2-zero}

gcd2-zero_example :
    (gcd1 1 (pos 7) (pos 0) ≡ done (pos 7))
    × (gcd2 10 (pos 7) (pos 0) ≡ stops divides_by_zero)
    × (gcd2 10 (pos 0) (pos 7) ≡ stops divides_by_zero)
gcd2-zero_example = gcd2-zero 0 9 7

-- Euclid's algorithm on a negative number.
of_negative : gcd1 5 (negsuc 3) (pos 6) ≡ done (pos 2)
unfolding gcd1 rem
of_negative = refl
