-- ===== src/Lab4/Child/Tests.antt =====
-- Three lines, of which the second is reported.
use mai_os.Base.{
  ℕ, ◌≡◌, refl, Bool, true, some, List, [], ◌∷◌, length-replicate, replicate, arith, inl,
}
use mai_os.Base.Text.{Text}
use mai_os.Lab4.Child.{Child, returns, new_child, exchange}
use mai_os.Lab4.Child.Exchange.{exchange-kept_lines}

abbrev granted : ℕ → Bool
granted n = true

abbrev lines : List Text
lines = (72 ∷ 105 ∷ []) ∷ (110 ∷ 111 ∷ []) ∷ [] ∷ []

abbrev arrays : List (Text × ℕ)
arrays = (72 ∷ 105 ∷ 0 ∷ [], 2) ∷ (110 ∷ 111 ∷ 0 ∷ [], 2) ∷ (0 ∷ [], 0) ∷ []

exchange-kept_lines_example :
    (c' : Child) × (exchange granted 255 arrays (replicate 1024 0) new_child ≡ some (returns c'))
    × (c'.out ≡ 72 ∷ 105 ∷ 10 ∷ [])
    × (c'.signals ≡ 1)
exchange-kept_lines_example =
    exchange-kept_lines granted 255 (λ n. refl) lines arrays (replicate 1024 0) new_child
      (refl, ground arith, inl refl)
      ((
        (
          (ground arith, ground arith, ground arith),
          ((ground arith, ground arith, ground arith), tt),
        ),
        ground arith,
        (
          (
            (ground arith, ground arith, ground arith),
            ((ground arith, ground arith, ground arith), tt),
          ),
          ground arith,
          (tt, ground arith, tt),
        ),
      ))
      (refl, ground arith, refl, (refl, ground arith, refl, (refl, ground arith, refl, tt)))
      (length-replicate {A = ℕ} 1024 0)
