-- ===== src/Base/Text.antt =====
-- C strings: the bytes before the terminating zero.
use Prim.Native.Nat.{ℕ}
use Prim.Native.Char.{code}
use Prim.Native.String.{String}
use mathlib.Core.Path.{◌≡◌, refl}
use mathlib.Core.Logic.{◌↔◌, ◌≢◌}
use mathlib.Core.Bool.{Bool, true, false, ◌&&◌}
use mathlib.Core.List.{List, [], ◌∷◌}
use native.Mathlib.Omega.{arith}
use mai_os.Base.Tests.{◌==◌}

abbrev pub Text : Type 0
Text = List ℕ

-- a string literal
abbrev pub codes : String → Text
codes String.[] = []
codes (String.◌∷◌ c s) = code c ∷ codes s

-- `!strcmp(s, t)`
unfoldable pub str_eq : Text → Text → Bool
str_eq [] [] = true
str_eq [] (d ∷ t) = false
str_eq (c ∷ s) [] = false
str_eq (c ∷ s) (d ∷ t) = (c == d) && str_eq s t

-- `!strncmp(s, t, strlen(t))`
unfoldable pub starts_with : Text → Text → Bool
starts_with s [] = true
starts_with [] (d ∷ t) = false
starts_with (c ∷ s) (d ∷ t) = (c == d) && starts_with s t

pub str_eq_iff : (s t : Text) → (str_eq s t ≡ true) ↔ (s ≡ t)
unfolding str_eq
str_eq_iff [] [] = ground arith
str_eq_iff [] (d ∷ t) = ground arith
str_eq_iff (c ∷ s) [] = ground arith
str_eq_iff (c ∷ s) (d ∷ t) = ground (arith, str_eq_iff s t)

pub str_eq_refl : (s : Text) → str_eq s s ≡ true
str_eq_refl s = (str_eq_iff s s).1 refl

pub str_eq_of_ne : (s t : Text) → s ≢ t → str_eq s t ≡ false
str_eq_of_ne s t h = ground (arith, str_eq_iff s t)
