-- ===== src/Lab2/Child/Tests.antt =====
-- Three lines.
use mai_os.Base.{ℕ, ◌≡◌, refl, Bool, true, some, [], ◌∷◌, arith}
use mai_os.Base.Text.{Text}
use mai_os.Lab2.Child.{scan_string, scan_from, grow, terminate, filter_lines, invalid_string}
use mai_os.Lab2.Child.Filter.{as_input, filter_lines_lem}

abbrev granted : ℕ → Bool
granted n = true

abbrev line : Text
line = 72 ∷ 105 ∷ []

filter_lines_lem_example :
    filter_lines granted 255 3
      (as_input (line ∷ (97 ∷ []) ∷ []) (66 ∷ []))
      (record { out = []; err = [] })
    ≡ some (true, record { out = 72 ∷ 105 ∷ 10 ∷ []; err = invalid_string })
filter_lines_lem_example =
    filter_lines_lem granted 255 (λ n. refl) (line ∷ (97 ∷ []) ∷ []) (66 ∷ [])
      (record { out = []; err = [] })
      (
        (ground arith, (ground arith, tt)),
        omega arith,
        (ground arith, (ground arith, tt)),
        ((ground arith, tt), omega arith, (ground arith, tt), tt),
      )
      (ground arith, tt) (omega arith)

-- The end of the input without a newline drops what was read.
dropped :
    filter_lines granted 255 1 (66 ∷ []) (record { out = []; err = [] })
    ≡ some (true, record { out = []; err = [] })
unfolding filter_lines scan_string scan_from grow terminate
dropped = refl
