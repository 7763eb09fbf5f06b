-- ===== src/Lab5/Gcd/Equivalence.antt =====
-- Both functions give the greatest common divisor of positive numbers.
use Prim.Native.Nat.{min, ◌∣◌}
use native.Mathlib.Nat.{
  dvd_refl, dvd-zero, dvd-mod_iff, le_of_dvd, mod-eq-zero_of_dvd, dvd_of_mod-eq-zero, mod-lt,
}
use mai_os.Base.{
  ℕ, zero, suc, ◌+◌, ◌-◌, ◌%◌, ◌≤◌, ◌<◌, ◌==◌, ltb, ◌≡◌, refl, ◌∙◌, true, false, ℤ, pos, arith,
  if◌then◌else◌, Bool-cases, inl, inr,
}
use mai_os.Lab5.Result.{done, stops, divides_by_zero}
use mai_os.Lab5.Gcd.{rem, gcd1, goes_on, scan_down, gcd2}

rem_pos : (a b : ℕ) → 0 < b → rem (pos a) (pos b) ≡ done (pos (a % b))
unfolding rem
rem_pos a b h = let nonzero : (b == 0) ≡ false = ground arith in rw nonzero refl

-- a common divisor that every other divides
abbrev pub IsGcd : ℕ → ℕ → ℕ → Type 0
IsGcd g a b = (0 < g) × (g ∣ a) × (g ∣ b) × ((d : ℕ) → d ∣ a → d ∣ b → d ∣ g)

gcd1-IsGcd :
    (rounds a b : ℕ)
    → b < rounds
    → 0 < a + b
    → (g : ℕ) × (gcd1 rounds (pos a) (pos b) ≡ done (pos g)) × IsGcd g a b
unfolding gcd1
gcd1-IsGcd zero a b h p = elim h [ ]
gcd1-IsGcd (suc rounds) a zero h p = (a, refl, (omega arith, dvd_refl a, dvd-zero a, λ d u v. u))
gcd1-IsGcd (suc rounds) a (suc b) h p =
    let nonzero : (suc b == 0) ≡ false = ground arith in
    let smaller : a % suc b < suc b = mod-lt a (omega arith) in
    let (g, run, (positive, left, right, all)) =
      gcd1-IsGcd rounds (suc b) (a % suc b) (omega arith) (omega arith) in
    (
      g,
      rw (nonzero, rem_pos a (suc b) (omega arith)) run,
      (positive, (dvd-mod_iff g left).0 right, left, λ d u v. all d v ((dvd-mod_iff d v).1 u)),
    )

goes_on_lem :
    (a b x : ℕ)
    → 0 < x
    → goes_on (pos a) (pos b) (pos x)
      ≡ done (if a % x == 0 then (if b % x == 0 then false else true) else true)
unfolding goes_on
goes_on_lem a b x h = elim (Bool-cases (a % x == 0)) [
  | inl divides ↦ rw (rem_pos a x h) (rw divides (rw (rem_pos b x h) refl))
  | inr not_so ↦ rw (rem_pos a x h) (rw not_so refl)
]

goes_on_past :
    (a b x g : ℕ)
    → 0 < x
    → ((d : ℕ) → d ∣ a → d ∣ b → d ∣ g)
    → 0 < g
    → g < x
    → goes_on (pos a) (pos b) (pos x) ≡ done true
goes_on_past a b x g h all positive above = goes_on_lem a b x h ∙ elim (Bool-cases (a % x == 0)) [
  | inr not_left ↦ rw not_left refl
  | inl left ↦ elim (Bool-cases (b % x == 0)) [
    | inr not_right ↦ rw (left, not_right) refl
    | inl right ↦
        let d₁ : x ∣ a = dvd_of_mod-eq-zero x (ground arith) in
        let d₂ : x ∣ b = dvd_of_mod-eq-zero x (ground arith) in
        absurd (omega (arith, le_of_dvd positive (all x d₁ d₂)))
  ]
]

-- The loop goes down to the greatest common divisor.
scan_down_lem :
    (rounds a b x g : ℕ)
    → IsGcd g a b
    → g ≤ x
    → x < g + rounds
    → scan_down rounds (pos a) (pos b) (pos x) ≡ done (pos g)
unfolding scan_down
scan_down_lem zero a b x g is h k = absurd (omega arith)
scan_down_lem (suc rounds) a b x g (positive, left, right, all) h k = elim (Bool-cases (ltb g x)) [
  | inl above ↦
      let on = goes_on_past a b x g (omega arith) all positive (ground arith) in
      let nonzero : (x == 0) ≡ false = ground arith in
      rw on (
        rw nonzero (
          scan_down_lem rounds a b (x - 1) g (positive, left, right, all) (ground arith)
            (omega arith)))
  | inr there ↦
      let same : x ≡ g = ground arith in
      let l : a % g ≡ 0 = mod-eq-zero_of_dvd g left in
      let r : b % g ≡ 0 = mod-eq-zero_of_dvd g right in
      let stops : goes_on (pos a) (pos b) (pos x) ≡ done false =
        goes_on_lem a b x (omega arith) ∙ rw (same, l, r) refl in
      rw stops (rw same refl)
]

-- Of positive numbers both functions give the same, when there are more rounds than either.
pub gcd2-gcd1 :
    (rounds a b : ℕ)
    → 0 < a
    → 0 < b
    → a < rounds
    → b < rounds
    → (g : ℕ) × (gcd1 rounds (pos a) (pos b) ≡ done (pos g))
      × (gcd2 rounds (pos a) (pos b) ≡ done (pos g))
      × IsGcd g a b
unfolding gcd2
gcd2-gcd1 rounds a b ha hb ka kb =
    let (g, run, is) = gcd1-IsGcd rounds a b kb (omega arith) in
    let below_a = le_of_dvd ha is.1 in
    let below_b = le_of_dvd hb is.2 in
    let smaller : (if ltb b a then pos b else pos a) ≡ pos (min a b) = ground arith in
    (
      g,
      run,
      rw smaller (scan_down_lem rounds a b (min a b) g is (omega arith) (omega (arith, is.0))),
      is,
    )

zero_divides : (rounds : ℕ) (a b : ℤ) → scan_down (suc rounds) a b (pos 0) ≡ stops divides_by_zero
unfolding scan_down goes_on rem
zero_divides rounds a b = refl

-- The functions differ where a number is 0 and the other is not negative: of A and 0 Euclid
-- gives A at once, and the naive function, of A and 0 or of 0 and A, divides by 0 in its first
-- round.
pub gcd2-zero :
    (rounds more a : ℕ)
    → (gcd1 (rounds + 1) (pos a) (pos 0) ≡ done (pos a))
      × (gcd2 (more + 1) (pos a) (pos 0) ≡ stops divides_by_zero)
      × (gcd2 (more + 1) (pos 0) (pos a) ≡ stops divides_by_zero)
unfolding gcd1 gcd2
gcd2-zero rounds more a =
    let start : (if ltb 0 a then pos 0 else pos a) ≡ pos 0 = ground arith in
    let start' : (if ltb a 0 then pos a else pos 0) ≡ pos 0 = ground arith in
    let first : rounds + 1 ≡ suc rounds = omega arith in
    let first' : more + 1 ≡ suc more = omega arith in
    (
      rw first refl,
      rw (start, first') (zero_divides more (pos a) (pos 0)),
      rw (start', first') (zero_divides more (pos 0) (pos a)),
    )
