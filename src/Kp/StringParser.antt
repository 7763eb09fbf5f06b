-- ===== src/Kp/StringParser.antt =====
-- Splitting a text at a separator, KP/funcs/string_parser.cpp.
use mai_os.Base.{
  ℕ, zero, suc, ◌-◌, ◌≤◌, ◌<◌, ◌≡◌, refl, ap, ◌∙◌, sym, ◌≢◌, inl, inr, List, [], ◌∷◌, ◌++◌,
  append_assoc, append-nil, arith, ◌==◌, if◌then◌else◌, Bool-cases, true, false, length,
}
use native.Mathlib.Numerals.{unary_clauses}
use mai_os.Base.Text.{Text}

-- The loop at `st[i]`: `part` is what stands after the last separator and before `i`, `rest` what
-- stands from `i` on. The last part is the end of the text, which may be empty.
parse_loop : ℕ → ℕ → Text → Text → List Text
parse_loop separator zero part rest = (part ++ rest) ∷ []
parse_loop separator (suc args_count) part [] = part ∷ []
parse_loop separator (suc args_count) part (c ∷ rest) =
    let cut = part ∷ parse_loop separator args_count [] rest in
    let next = parse_loop separator (suc args_count) (part ++ (c ∷ [])) rest in
    if c == separator then cut else next

unfoldable pub string_parser : Text → ℕ → ℕ → List Text
unfolding parse_loop
string_parser st args_count separator = parse_loop separator (args_count - 1) [] st

-- The parts with a separator between them.
abbrev pub join : ℕ → List Text → Text
join separator [] = []
join separator (p ∷ []) = p
join separator (p ∷ q ∷ ps) = p ++ (separator ∷ join separator (q ∷ ps))

-- A part has no separator in it.
abbrev pub FreeOf : ℕ → Text → Type 0
FreeOf separator [] = Unit {0}
FreeOf separator (c ∷ s) = (c ≢ separator) × FreeOf separator s

loop_cons :
    (separator n : ℕ) (part rest : Text)
    → (q : Text) × (qs : List Text) × (parse_loop separator n part rest ≡ q ∷ qs)
unfolding parse_loop
loop_cons separator zero part rest = (part ++ rest, [], refl)
loop_cons separator (suc n) part [] = (part, [], refl)
loop_cons separator (suc n) part (c ∷ rest) = elim (Bool-cases (c == separator)) [
  | inl cut ↦ rw cut (part, parse_loop separator n [] rest, refl)
  | inr next ↦ rw next (loop_cons separator (suc n) (part ++ (c ∷ [])) rest)
]

join-loop :
    (separator n : ℕ) (part rest : Text)
    → join separator (parse_loop separator n part rest) ≡ part ++ rest
unfolding parse_loop
join-loop separator zero part rest = refl
join-loop separator (suc n) part [] = sym (append-nil part)
join-loop separator (suc n) part (c ∷ rest) = elim (Bool-cases (c == separator)) [
  | inl cut ↦
      let (q, qs, e) = loop_cons separator n [] rest in
      let below : join separator (q ∷ qs) ≡ rest =
        ap (join separator) (sym e) ∙ join-loop separator n [] rest in
      let same : c ≡ separator = ground arith in rw cut (rw e (rw below (rw same refl)))
  | inr next ↦
      rw next
        (join-loop separator (suc n) (part ++ (c ∷ [])) rest ∙ append_assoc part (c ∷ []) rest)
]

pub join-string_parser :
    (st : Text) (args_count separator : ℕ)
    → join separator (string_parser st args_count separator) ≡ st
unfolding string_parser
join-string_parser st args_count separator = join-loop separator (args_count - 1) [] st

length-loop :
    (separator n : ℕ) (part rest : Text) → length (parse_loop separator n part rest) ≤ suc n
unfolding parse_loop
length-loop separator zero part rest = omega arith
length-loop separator (suc n) part [] = omega arith
length-loop separator (suc n) part (c ∷ rest) =
    ground (
      arith,
      length-loop separator n [] rest,
      length-loop separator (suc n) (part ++ (c ∷ [])) rest,
    )

pub length-string_parser :
    (st : Text) (args_count separator : ℕ)
    → 0 < args_count
    → length (string_parser st args_count separator) ≤ args_count
unfolding string_parser
length-string_parser st args_count separator h =
    omega (arith, length-loop separator (args_count - 1) [] st)

loop-free :
    (separator n : ℕ) (part p : Text)
    → FreeOf separator p
    → parse_loop separator n part p ≡ (part ++ p) ∷ []
unfolding parse_loop
loop-free separator zero part p free = refl
loop-free separator (suc n) part [] free = ap (λ q. q ∷ []) (sym (append-nil part))
loop-free separator (suc n) part (c ∷ p) free =
    let differs = free.0 in
    let step : (c == separator) ≡ false = ground arith in
    rw step (
      loop-free separator (suc n) (part ++ (c ∷ [])) p free.1
      ∙ ap (λ q. q ∷ []) (append_assoc part (c ∷ []) p))

loop-cut :
    (separator n : ℕ) (part p rest : Text)
    → FreeOf separator p
    → parse_loop separator (suc n) part (p ++ (separator ∷ rest))
      ≡ (part ++ p) ∷ parse_loop separator n [] rest
unfolding parse_loop
loop-cut separator n part [] rest free =
    let step : (separator == separator) ≡ true = ground arith in rw (step, append-nil part) refl
loop-cut separator n part (c ∷ p) rest free =
    let differs = free.0 in
    let step : (c == separator) ≡ false = ground arith in
    rw step (
      loop-cut separator n (part ++ (c ∷ [])) p rest free.1
      ∙ ap (λ q. q ∷ parse_loop separator n [] rest) (append_assoc part (c ∷ []) p))

-- A text with no separator is its only part.
pub string_parser-free :
    (args_count separator : ℕ) (p : Text)
    → FreeOf separator p
    → string_parser p args_count separator ≡ p ∷ []
unfolding string_parser
string_parser-free args_count separator p free = loop-free separator (args_count - 1) [] p free

-- The first part ends at the first separator.
pub string_parser-cut :
    (n separator : ℕ) (p rest : Text)
    → FreeOf separator p
    → string_parser (p ++ (separator ∷ rest)) (suc (suc n)) separator
      ≡ p ∷ string_parser rest (suc n) separator
unfolding string_parser
string_parser-cut n separator p rest free = simp unary_clauses (loop-cut separator n [] p rest free)

-- With one part left the text is that part, separators included.
pub string_parser-last : (separator : ℕ) (p : Text) → string_parser p 1 separator ≡ p ∷ []
unfolding string_parser
string_parser-last separator p = refl

loop-two :
    (separator : ℕ) (part p rest : Text)
    → (q : Text) × (r : Text) × (parse_loop separator 1 part (p ++ (separator ∷ rest)) ≡ q ∷ r ∷ [])
unfolding parse_loop
loop-two separator part [] rest =
    let step : (separator == separator) ≡ true = ground arith in rw step (part, rest, refl)
loop-two separator part (c ∷ p) rest = elim (Bool-cases (c == separator)) [
  | inl cut ↦ rw cut (part, p ++ (separator ∷ rest), refl)
  | inr next ↦ rw next (loop-two separator (part ++ (c ∷ [])) p rest)
]

-- A text with a separator has a first part and a second.
pub string_parser-two :
    (separator : ℕ) (p rest : Text)
    → (q : Text) × (r : Text) × (string_parser (p ++ (separator ∷ rest)) 2 separator ≡ q ∷ r ∷ [])
unfolding string_parser
string_parser-two separator p rest = loop-two separator [] p rest

-- There is a first part.
pub string_parser_cons :
    (st : Text) (args_count separator : ℕ)
    → (q : Text) × (qs : List Text) × (string_parser st args_count separator ≡ q ∷ qs)
unfolding string_parser
string_parser_cons st args_count separator = loop_cons separator (args_count - 1) [] st
