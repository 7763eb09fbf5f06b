-- ===== src/Lab3/ArgsParsing/Given.antt =====
-- args_parsing.c: what the settings are when the function returns.
use mai_os.Base.{
  ◌≡◌, refl, Bool, true, false, not, ◌&&◌, Option, some, List, [], ◌∷◌, pos, minus_one,
  if◌then◌else◌, Bool-cases, inl, inr, ◌⊎◌, arith,
}
use mai_os.Base.Text.{Text}
use mai_os.Lab3.ArgsParsing.{
  Settings, Message, Parsed, Values, no_values, with_key, is_key, fails, incorrect_key,
  incorrect_value, incorrect_number, threads_not_positive, memory_not_positive, is_positive,
  is_zero, value_of, warned, set_memory, set_values, args_parsing,
}

-- It succeeds with values that the program can use, or it fails and says why.
abbrev pub IsSettled : Parsed → Type 0
IsSettled p =
    ((p.status ≡ pos 0)
      × (is_positive p.settings.max_threads ≡ true)
      × (is_positive p.settings.max_memory ≡ true))
    ⊎ ((p.status ≡ minus_one) × (m : Message) × (p.message ≡ some m))

fails-IsSettled : (m : Message) (s : Settings) → IsSettled (fails m s)
fails-IsSettled m s = inr (refl, m, refl)

if-IsSettled :
    (b : Bool) (p q : Parsed)
    → IsSettled p
    → (b ≡ false → IsSettled q)
    → IsSettled (if b then p else q)
if-IsSettled true p q left right = left
if-IsSettled false p q left right = right refl

set_memory-IsSettled :
    (arg_m : Option Text) (s : Settings)
    → is_positive s.max_threads ≡ true
    → IsSettled (set_memory arg_m s)
unfolding set_memory
set_memory-IsSettled arg_m s threads =
    let s' : Settings = record s { max_memory = value_of arg_m s.max_memory } in
    let done : Parsed = record { status = pos 0; settings = s'; message = warned s' } in
    if-IsSettled (is_zero arg_m s'.max_memory) (fails incorrect_value s')
      (if not (is_positive s'.max_memory) then fails memory_not_positive s' else done)
      (fails-IsSettled incorrect_value s')
      (λ given.
        if-IsSettled (not (is_positive s'.max_memory)) (fails memory_not_positive s') done
          (fails-IsSettled memory_not_positive s')
          (λ above. inl (refl, threads, not_false (is_positive s'.max_memory) above)))
  where
    not_false : (b : Bool) → not b ≡ false → b ≡ true
    not_false b e = ground arith

set_values-IsSettled : (v : Values) (s : Settings) → IsSettled (set_values v s)
unfolding set_values
set_values-IsSettled v s =
    let s' : Settings = record s { max_threads = value_of v.arg_t s.max_threads } in
    if-IsSettled (is_zero v.arg_t s'.max_threads) (fails incorrect_value s')
      (if not (is_positive s'.max_threads)
        then fails threads_not_positive s'
        else set_memory v.arg_m s')
      (fails-IsSettled incorrect_value s')
      (λ given.
        if-IsSettled (not (is_positive s'.max_threads)) (fails threads_not_positive s')
          (set_memory v.arg_m s') (fails-IsSettled threads_not_positive s')
          (λ above. set_memory-IsSettled v.arg_m s' (ground (arith, above))))

-- For any arguments, from a number of threads and a memory that are greater than 0, args_parsing
-- either returns 0 with both still greater than 0, so that the division of the memory among the
-- threads is defined, or it returns -1 and prints an error
pub args_parsing-IsSettled :
    (args : List Text) (s : Settings)
    → is_positive s.max_threads ≡ true
    → is_positive s.max_memory ≡ true
    → IsSettled (args_parsing args s)
unfolding args_parsing
args_parsing-IsSettled [] s t m = fails-IsSettled incorrect_number s
args_parsing-IsSettled (name ∷ []) s t m = inl (refl, t, m)
args_parsing-IsSettled (key ∷ value ∷ []) s t m = fails-IsSettled incorrect_number s
args_parsing-IsSettled (key ∷ value ∷ name ∷ []) s t m =
    let s' : Settings = record s { filename = name } in
    let v = with_key key value no_values in
    elim (Bool-cases (is_key key)) [
      | inl right ↦ rw right (set_values-IsSettled v s')
      | inr wrong ↦ rw wrong (fails-IsSettled incorrect_key s)
    ]
args_parsing-IsSettled (key ∷ value ∷ key' ∷ value' ∷ []) s t m = fails-IsSettled incorrect_number s
args_parsing-IsSettled (key ∷ value ∷ key' ∷ value' ∷ name ∷ []) s t m =
    let s' : Settings = record s { filename = name } in
    let v = with_key key' value' (with_key key value no_values) in
    elim (Bool-cases (is_key key && is_key key')) [
      | inl right ↦ rw right (set_values-IsSettled v s')
      | inr wrong ↦ rw wrong (fails-IsSettled incorrect_key s)
    ]
args_parsing-IsSettled (key ∷ value ∷ key' ∷ value' ∷ name ∷ more ∷ args) s t m =
    fails-IsSettled incorrect_number s
