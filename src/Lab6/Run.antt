-- ===== src/Lab6/Run.antt =====
-- Results of control_node.c: a value, an end of the process by an assertion, an error handler or an
-- access outside an object, or a loop that used up the rounds that the model gave it.
use mai_os.Base.{◌≡◌, refl, Option, none, some}

pub data Run {ℓ} (A : Type ℓ) : Type ℓ where
  ok : A → Run A
  fault : Run A
  out_of_fuel : Run A

infixl 5 ◌>>=◌
abbrev pub ◌>>=◌ {ℓ κ} : {A : Type ℓ} {B : Type κ} → Run A → (A → Run B) → Run B
ok a >>= f = f a
fault >>= f = fault
out_of_fuel >>= f = out_of_fuel

abbrev pub lift {ℓ} : {A : Type ℓ} → Option A → Run A
lift none = fault
lift (some a) = ok a

-- A chain that ends with a value does so in its first step and in the rest.
pub bind_ok {ℓ κ} :
    {A : Type ℓ} {B : Type κ} (m : Run A) (f : A → Run B) {b : B}
    → (m >>= f) ≡ ok b
    → (a : A) × (m ≡ ok a) × (f a ≡ ok b)
bind_ok (ok a) f e = (a, refl, e)
bind_ok fault f e = cc
bind_ok out_of_fuel f e = cc
