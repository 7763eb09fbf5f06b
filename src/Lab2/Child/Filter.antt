-- ===== src/Lab2/Child/Filter.antt =====
-- child.c: the lines that are kept and those that are reported.
use mathlib.Core.Path.{subst}
use mai_os.Base.{
  ℕ, suc, ◌+◌, ◌^◌, ◌<◌, ◌==◌, ◌≡◌, ◌≢◌, refl, ap, ◌∙◌, Bool, true, false, Option, some, ◌>>=◌,
  List, [], ◌∷◌, ◌++◌, append_assoc, append-nil, length, take, arith, if◌then◌else◌, Bool-cases,
  inl, inr,
}
use mai_os.Base.Text.{Text}
use mai_os.Lab2.Child.{
  Scanned, line_read, end_of_file, no_memory, c_string, is_upper, Output, invalid_string, put_line,
  filter_lines,
}
use mai_os.Lab2.Child.Scan.{IsLine, scan_string-Reads}

-- a line without bytes 0, as C strings cannot hold them
abbrev pub IsText : Text → Type 0
IsText [] = Unit
IsText (c ∷ cs) = (c ≢ 0) × IsText cs

abbrev pub AllLines : List Text → Type 0
AllLines [] = Unit
AllLines (l ∷ ls) = IsLine l × (length l < 2 ^ 30) × IsText l × AllLines ls

abbrev pub as_input : List Text → Text → Text
as_input [] tail = tail
as_input (l ∷ ls) tail = l ++ (10 ∷ as_input ls tail)

-- whether a line starts with a capital letter
abbrev pub is_kept : Text → Bool
is_kept [] = false
is_kept (c ∷ l) = is_upper c

-- the two outputs for the lines
abbrev pub kept_lines : List Text → Text
kept_lines [] = []
kept_lines (l ∷ ls) = if is_kept l then l ++ (10 ∷ kept_lines ls) else kept_lines ls

abbrev pub reports : List Text → Text
reports [] = []
reports (l ∷ ls) = if is_kept l then reports ls else invalid_string ++ reports ls

pub first_same : (c d : ℕ) (s l : Text) → (c ∷ s) ≡ (d ∷ l) → c ≡ d
first_same c d s l e = cc

pub rest_same : (c d : ℕ) (s l : Text) → (c ∷ s) ≡ (d ∷ l) → s ≡ l
rest_same c d s l e = cc

pub c_string-take :
    (line str : Text)
    → take (suc (length line)) str ≡ line ++ (0 ∷ [])
    → IsText line
    → c_string str ≡ line
c_string-take [] [] e is = refl
c_string-take [] (c ∷ str) e is =
    let zero_byte : (c == 0) ≡ true = ground (arith, first_same c 0 [] [] e) in rw zero_byte refl
c_string-take (d ∷ line) [] e is = cc
c_string-take (d ∷ line) (c ∷ str) e (ne, is) =
    let same = first_same c d (take (suc (length line)) str) (line ++ (0 ∷ [])) e in
    let rest = rest_same c d (take (suc (length line)) str) (line ++ (0 ∷ [])) e in
    let other : (c == 0) ≡ false = ground (arith, same, ne) in
    rw (other, same, c_string-take line str rest is) refl

-- what a line does to the outputs
abbrev pub with_line : Text → Output → Output
with_line line o =
    if is_kept line
    then record o { out = o.out ++ (line ++ (10 ∷ [])) }
    else record o { err = o.err ++ invalid_string }

put_line_lem :
    (line str : Text) (o : Output)
    → take (suc (length line)) str ≡ line ++ (0 ∷ [])
    → IsText line
    → put_line str o ≡ some (with_line line o)
unfolding put_line
put_line_lem [] [] o e is = cc
put_line_lem [] (c ∷ str) o e is =
    let lower : is_upper c ≡ false = ap is_upper (first_same c 0 [] [] e) in rw lower refl
put_line_lem (d ∷ line) [] o e is = cc
put_line_lem (d ∷ line) (c ∷ str) o e is =
    let same = first_same c d (take (suc (length line)) str) (line ++ (0 ∷ [])) e in
    let whole = c_string-take (d ∷ line) (c ∷ str) e is in rw (whole, same) refl

abbrev pub with_lines : List Text → Output → Output
with_lines ls o = record { out = o.out ++ kept_lines ls; err = o.err ++ reports ls }

both_outputs :
    (l : Text) (ls : List Text) (o : Output) → with_lines ls (with_line l o) ≡ with_lines (l ∷ ls) o
both_outputs l ls o = elim (Bool-cases (is_kept l)) [
  | inl kept ↦ rw kept (
      rw
        (
          append_assoc o.out (l ++ (10 ∷ [])) (kept_lines ls),
          append_assoc l (10 ∷ []) (kept_lines ls),
        )
        refl)
  | inr reported ↦ rw reported (rw (append_assoc o.err invalid_string (reports ls)) refl)
]

module _ (grants : ℕ → Bool) (junk : ℕ) (memory : (n : ℕ) → grants n ≡ true) where
  -- what the loop does with a line
  abbrev pub act : ℕ → Output → Scanned → Option (Bool × Output)
  act rounds o s = elim s.status [
    | line_read ↦ (put_line s.str o >>= λ o. filter_lines grants junk rounds s.rest o)
    | end_of_file ↦ some (true, o)
    | no_memory ↦ some (true, o)
  ]

  act_end :
      (rounds : ℕ) (o : Output) (s : Scanned)
      → s.status ≡ end_of_file
      → act rounds o s ≡ some (true, o)
  act_end rounds o s e = rw (e, act) refl

  act_line :
      (rounds : ℕ) (o o' : Output) (s : Scanned)
      → s.status ≡ line_read
      → put_line s.str o ≡ some o'
      → act rounds o s ≡ filter_lines grants junk rounds s.rest o'
  act_line rounds o o' s e put = rw (e, act) (rw put refl)

  -- If there is memory, the loop of the child ends after as many rounds as the input has lines
  -- and one more; it appends to its standard output the lines that start with a capital letter,
  -- each with a newline, and to its standard error a report for each other line, and the part
  -- behind the last newline is dropped. The lines hold no newline and no byte 0, and that part
  -- no newline, and all are shorter than 2 ^ 30.
  pub filter_lines_lem :
      (ls : List Text) (tail : Text) (o : Output)
      → AllLines ls
      → IsLine tail
      → length tail < 2 ^ 30
      → filter_lines grants junk (suc (length ls)) (as_input ls tail) o
        ≡ some (true, with_lines ls o)
  unfolding filter_lines
  filter_lines_lem [] tail o all is small =
      let (s, scanned, status, held, len, rest) =
        (scan_string-Reads grants junk memory tail [] is small).1 in
      ap (λ r. r >>= act 0 o) scanned
      ∙ act_end 0 o s status
      ∙ rw (append-nil o.out, append-nil o.err) refl
  filter_lines_lem (l ∷ ls) tail o (is_line, short, is_text, all) is small =
      let (s, scanned, status, held, len, rest) =
        (scan_string-Reads grants junk memory l (as_input ls tail) is_line short).0 in
      let count : length l + 1 ≡ suc (length l) = omega arith in
      let put =
        put_line_lem l s.str o (subst (λ k. take k s.str ≡ l ++ (0 ∷ [])) count held) is_text in
      ap (λ r. r >>= act (suc (length ls)) o) scanned
      ∙ act_line (suc (length ls)) o (with_line l o) s status put
      ∙ ap (λ input. filter_lines grants junk (suc (length ls)) input (with_line l o)) rest
      ∙ filter_lines_lem ls tail (with_line l o) all is small
      ∙ ap (λ r. some (true, r)) (both_outputs l ls o)
