-- ===== src/Kp/Server/Lists.antt =====
-- Lists of objects that are found by a test and changed through a pointer.
use mai_os.Base.{
  ℕ, zero, suc, ◌+◌, ◌<◌, ◌≡◌, refl, ap, ◌≢◌, inl, inr, List, [], ◌∷◌, ◌++◌, Bool, true, false,
  some, none, arith, Bool-cases, length, get_elem?,
}
use mathlib.Core.Path.{subst}
use mai_os.Base.Text.{Text, str_eq, str_eq_iff}
use mai_os.Kp.Server.{find, find_from, modify}

module _ {A : Type 0} where
  abbrev pub All : (A → Type 0) → List A → Type 0
  All P [] = Unit {0}
  All P (x ∷ xs) = P x × All P xs

  -- No element stands in the relation to a later one.
  abbrev pub Apart : (A → A → Type 0) → List A → Type 0
  Apart R [] = Unit {0}
  Apart R (x ∷ xs) = All (R x) xs × Apart R xs

  pub All-map : (P Q : A → Type 0) → ((x : A) → P x → Q x) → (xs : List A) → All P xs → All Q xs
  All-map P Q f [] h = tt
  All-map P Q f (x ∷ xs) h = (f x h.0, All-map P Q f xs h.1)

  pub All-snoc : (P : A → Type 0) (xs : List A) (y : A) → All P xs → P y → All P (xs ++ (y ∷ []))
  All-snoc P [] y h p = (p, tt)
  All-snoc P (x ∷ xs) y h p = (h.0, All-snoc P xs y h.1 p)

  pub All-modify :
      (P : A → Type 0) (f : A → A) (i : ℕ) (xs : List A)
      → ((x : A) → P x → P (f x))
      → All P xs
      → All P (modify f i xs)
  unfolding modify
  All-modify P f i [] g h = tt
  All-modify P f zero (x ∷ xs) g h = (g x h.0, h.1)
  All-modify P f (suc i) (x ∷ xs) g h = (h.0, All-modify P f i xs g h.1)

  -- The changed element passes to the new predicate by its own reason.
  pub All-modify_at :
      (P Q : A → Type 0) (f : A → A) (i : ℕ) (xs : List A)
      → ((x : A) → P x → Q x)
      → ((x : A) → get_elem? xs i ≡ some x → P x → Q (f x))
      → All P xs
      → All Q (modify f i xs)
  unfolding modify
  All-modify_at P Q f i [] keep change h = tt
  All-modify_at P Q f zero (x ∷ xs) keep change h = (change x refl h.0, All-map P Q keep xs h.1)
  All-modify_at P Q f (suc i) (x ∷ xs) keep change h =
      (keep x h.0, All-modify_at P Q f i xs keep change h.1)

  pub All-get_elem? :
      (P : A → Type 0) (xs : List A) (i : ℕ) {x : A} → All P xs → get_elem? xs i ≡ some x → P x
  All-get_elem? P [] i h e = cc
  All-get_elem? P (y ∷ xs) zero {x} h e = let same : y ≡ x = cc in subst P same h.0
  All-get_elem? P (y ∷ xs) (suc i) h e = All-get_elem? P xs i h.1 e

  pub Apart-snoc :
      (R : A → A → Type 0) (xs : List A) (y : A)
      → Apart R xs
      → All (λ x. R x y) xs
      → Apart R (xs ++ (y ∷ []))
  Apart-snoc R [] y h a = (tt, tt)
  Apart-snoc R (x ∷ xs) y h a = (All-snoc (R x) xs y h.0 a.0, Apart-snoc R xs y h.1 a.1)

  -- A change that the relation does not see.
  pub Apart-modify :
      (R : A → A → Type 0) (f : A → A) (i : ℕ) (xs : List A)
      → ((x y : A) → R x y → R (f x) y)
      → ((x y : A) → R x y → R x (f y))
      → Apart R xs
      → Apart R (modify f i xs)
  unfolding modify
  Apart-modify R f i [] left right h = tt
  Apart-modify R f zero (x ∷ xs) left right h = (All-map (R x) (R (f x)) (left x) xs h.0, h.1)
  Apart-modify R f (suc i) (x ∷ xs) left right h =
      (All-modify (R x) f i xs (right x) h.0, Apart-modify R f i xs left right h.1)

  pub length-modify : (f : A → A) (i : ℕ) (xs : List A) → length (modify f i xs) ≡ length xs
  unfolding modify
  length-modify f i [] = refl
  length-modify f zero (x ∷ xs) = refl
  length-modify f (suc i) (x ∷ xs) = ap suc (length-modify f i xs)

  pub find-none :
      (test : A → Bool) (i : ℕ) (xs : List A)
      → find_from test i xs ≡ none
      → All (λ x. test x ≡ false) xs
  unfolding find_from
  find-none test i [] e = tt
  find-none test i (x ∷ xs) e = elim (Bool-cases (test x)) [
    | inl hit ↦ let e' = rw hit at e in cc
    | inr miss ↦ let e' = rw miss at e in (miss, find-none test (suc i) xs e')
  ]

  -- A search stops at the first element that passes the test.
  pub record Found (test : A → Bool) (xs : List A) (k : ℕ) : Type 0 where
    pub element : A
    pub here : get_elem? xs k ≡ some element
    pub passes : test element ≡ true
    pub below : k < length xs

  found_from :
      (test : A → Bool) (i : ℕ) (xs : List A) {k : ℕ}
      → find_from test i xs ≡ some k
      → (j : ℕ) × (k ≡ i + j) × Found test xs j
  unfolding find_from
  found_from test i [] e = cc
  found_from test i (x ∷ xs) {k} e = elim (Bool-cases (test x)) [
    | inl hit ↦
        let e' = rw hit at e in
        let same : i ≡ k = cc in
        (0, omega arith, record { element = x; here = refl; passes = hit; below = omega arith })
    | inr miss ↦
        let e' = rw miss at e in
        let (j, later, f) = found_from test (suc i) xs e' in
        let below = f.below in
        (
          suc j,
          omega arith,
          record { element = f.element; here = f.here; passes = f.passes; below = omega arith },
        )
  ]

  pub find-some : (test : A → Bool) (xs : List A) {k : ℕ} → find test xs ≡ some k → Found test xs k
  find-some test xs {k} e =
      let (j, later, f) = found_from test 0 xs e in
      let same : j ≡ k = omega arith in subst (λ (n : ℕ). Found test xs n) same f

-- Objects with different names.
abbrev pub Distinct : {A : Type 0} → (A → Text) → List A → Type 0
Distinct key xs = Apart (λ x y. key x ≢ key y) xs

pub ne_of_str_eq : (s t : Text) → str_eq s t ≡ false → s ≢ t
ne_of_str_eq s t h e = let p = (str_eq_iff s t).1 e in cc
