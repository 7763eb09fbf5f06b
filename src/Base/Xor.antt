-- ===== src/Base/Xor.antt =====
-- Exclusive or of numbers, as C's `^` on addresses.
use Prim.Native.Nat.{
  ℕ, zero, suc, ◌+◌, ◌*◌, ◌/◌, ◌%◌, ◌≤◌, ◌<◌, bit_xor, bit_xor-bitwise, digits, differ,
}
use mathlib.Core.Path.{◌≡◌, refl, sym, ap, ◌∙◌}
use native.Mathlib.Omega.{arith}
use mai_os.Base.Bits.{digits_enough}

bit_xor_lem : (a b : ℕ) → bit_xor a b ≡ digits (λ b. b) differ a a b
bit_xor_lem a b = λ i. bit_xor-bitwise a b i

zero_xor : (a : ℕ) → bit_xor 0 a ≡ a
zero_xor a = bit_xor_lem 0 a

bit_xor-step : (a b : ℕ) → bit_xor a b ≡ bit_xor (a / 2) (b / 2) * 2 + differ (a % 2) (b % 2)
bit_xor-step zero b = omega (arith, zero_xor b, zero_xor (b / 2))
bit_xor-step (suc a) b =
    bit_xor_lem (suc a) b
    ∙ ap (λ d. d * 2 + differ (suc a % 2) (b % 2))
        (digits_enough (λ b. b) differ a (suc a / 2) (suc a / 2) (b / 2) (omega arith) (omega arith)
          ∙ sym (bit_xor_lem (suc a / 2) (b / 2)))

differ_comm : (a b : ℕ) → differ a b ≡ differ b a
differ_comm zero zero = refl
differ_comm zero (suc b) = refl
differ_comm (suc a) zero = refl
differ_comm (suc a) (suc b) = differ_comm a b

differ_lt : (a b : ℕ) → a < 2 → b < 2 → differ a b < 2
differ_lt zero b h k = k
differ_lt (suc a) zero h k = h
differ_lt (suc a) (suc b) h k = differ_lt a b (omega arith) (omega arith)

differ_assoc : (a b c : ℕ) → a < 2 → b < 2 → c < 2 → differ (differ a b) c ≡ differ a (differ b c)
differ_assoc zero b c h k l = refl
differ_assoc (suc zero) zero c h k l = refl
differ_assoc (suc zero) (suc zero) zero h k l = refl
differ_assoc (suc zero) (suc zero) (suc zero) h k l = refl
differ_assoc (suc zero) (suc zero) (suc (suc c)) h k l = absurd (omega arith)
differ_assoc (suc zero) (suc (suc b)) c h k l = absurd (omega arith)
differ_assoc (suc (suc a)) b c h k l = absurd (omega arith)

differ_self : (a : ℕ) → differ a a ≡ 0
differ_self zero = refl
differ_self (suc a) = differ_self a

comm_to : (n a b : ℕ) → a + b ≤ n → bit_xor a b ≡ bit_xor b a
comm_to zero a b h = let p : a ≡ 0 = omega arith in let q : b ≡ 0 = omega arith in rw (p, q)
comm_to (suc n) a b h =
    let rest = comm_to n (a / 2) (b / 2) (omega arith) in
    omega (arith, bit_xor-step a b, bit_xor-step b a, rest, differ_comm (a % 2) (b % 2))

pub bit_xor_comm : (a b : ℕ) → bit_xor a b ≡ bit_xor b a
bit_xor_comm a b = comm_to (a + b) a b (omega arith)

self_to : (n a : ℕ) → a ≤ n → bit_xor a a ≡ 0
self_to zero zero h = zero_xor 0
self_to zero (suc a) h = elim h [ ]
self_to (suc n) a h =
    let rest = self_to n (a / 2) (omega arith) in
    omega (arith, bit_xor-step a a, rest, differ_self (a % 2))

pub bit_xor_self : (a : ℕ) → bit_xor a a ≡ 0
bit_xor_self a = self_to a a (omega arith)

bit_xor-half : (a b : ℕ) → bit_xor a b / 2 ≡ bit_xor (a / 2) (b / 2)
bit_xor-half a b =
    omega (arith, bit_xor-step a b, differ_lt (a % 2) (b % 2) (omega arith) (omega arith))

bit_xor-digit : (a b : ℕ) → bit_xor a b % 2 ≡ differ (a % 2) (b % 2)
bit_xor-digit a b =
    omega (arith, bit_xor-step a b, differ_lt (a % 2) (b % 2) (omega arith) (omega arith))

assoc_to : (n a b c : ℕ) → a ≤ n → bit_xor (bit_xor a b) c ≡ bit_xor a (bit_xor b c)
assoc_to zero zero b c h = rw (zero_xor b, zero_xor (bit_xor b c))
assoc_to zero (suc a) b c h = elim h [ ]
assoc_to (suc n) a b c h =
    let rest = assoc_to n (a / 2) (b / 2) (c / 2) (omega arith) in
    bit_xor-step (bit_xor a b) c
    ∙ rw
        (
          bit_xor-half a b,
          bit_xor-digit a b,
          rest,
          differ_assoc (a % 2) (b % 2) (c % 2) (omega arith) (omega arith) (omega arith),
        )
        (sym (bit_xor-step a (bit_xor b c) ∙ rw (bit_xor-half b c, bit_xor-digit b c)))

pub bit_xor_assoc : (a b c : ℕ) → bit_xor (bit_xor a b) c ≡ bit_xor a (bit_xor b c)
bit_xor_assoc a b c = assoc_to a a b c (omega arith)

-- An exclusive or with one of two numbers gives the other.
pub bit_xor_cancel : (a b : ℕ) → bit_xor a (bit_xor a b) ≡ b
bit_xor_cancel a b = sym (bit_xor_assoc a a b) ∙ rw (bit_xor_self a, zero_xor b)

pub bit_xor_right : (a b : ℕ) → bit_xor (bit_xor a b) b ≡ a
bit_xor_right a b = bit_xor_assoc a b b ∙ rw (bit_xor_self b) (bit_xor_comm a 0 ∙ zero_xor a)
