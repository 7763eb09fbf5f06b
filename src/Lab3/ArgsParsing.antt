-- ===== src/Lab3/ArgsParsing.antt =====
-- lab3/args_parsing.c: the options of the program. The arguments are those behind its name.
pub mod Given
mod Tests
use mai_os.Base.{
  ℕ, ◌+◌, ◌-◌, ◌*◌, ◌%◌, ◌^◌, ltb, Bool, true, false, not, ◌&&◌, ◌||◌, Option, none, some, List, [],
  ◌∷◌, ℤ, pos, negsuc, eq_ℤ, minus_one, if◌then◌else◌,
}
use mai_os.Base.Text.{Text, codes, str_eq}
use mai_os.Base.Decimal.{strtol}

pub record Settings : Type 0 where
  pub filename : Text
  pub max_threads : ℤ
  pub max_memory : ℤ

-- what is printed
pub data Message : Type 0 where
  incorrect_key : Message
  incorrect_value : Message
  threads_not_positive : Message
  memory_not_positive : Message
  not_recommended : Message
  incorrect_number : Message

pub record Parsed : Type 0 where
  pub status : ℤ
  pub settings : Settings
  pub message : Option Message

abbrev pub key_t : Text
key_t = codes "-t"

abbrev pub key_m : Text
key_m = codes "-m"

abbrev pub is_key : Text → Bool
is_key key = str_eq key key_t || str_eq key key_m

-- The texts for -t and -m.
pub record Values : Type 0 where
  pub arg_t : Option Text
  pub arg_m : Option Text

abbrev pub with_key : Text → Text → Values → Values
with_key key value v =
    if str_eq key key_t then record v { arg_t = some value } else record v { arg_m = some value }

abbrev pub no_values : Values
no_values = record { arg_t = none; arg_m = none }

abbrev pub fails : Message → Settings → Parsed
fails m s = record { status = minus_one; settings = s; message = some m }

abbrev pub is_positive : ℤ → Bool
is_positive (pos n) = ltb 0 n
is_positive (negsuc n) = false

-- a negative number is 2 ^ 64 too large as an unsigned one
abbrev pub to_unsigned : ℤ → ℕ
to_unsigned (pos n) = n
to_unsigned (negsuc n) = 2 ^ 64 - (n + 1)

abbrev pub warned : Settings → Option Message
warned s =
    if ltb (to_unsigned s.max_memory) (48 * to_unsigned s.max_threads % 2 ^ 64)
    then some not_recommended
    else none

-- the test of a value that was given, and of the sign
abbrev pub is_zero : Option Text → ℤ → Bool
is_zero none n = false
is_zero (some text) n = eq_ℤ n (pos 0)

abbrev pub value_of : Option Text → ℤ → ℤ
value_of none old = old
value_of (some text) old = strtol text

unfoldable pub set_memory : Option Text → Settings → Parsed
set_memory arg_m s =
    let s = record s { max_memory = value_of arg_m s.max_memory } in
    if is_zero arg_m s.max_memory
    then fails incorrect_value s
    else if not (is_positive s.max_memory)
    then fails memory_not_positive s
    else record { status = pos 0; settings = s; message = warned s }

unfoldable pub set_values : Values → Settings → Parsed
set_values v s =
    let s = record s { max_threads = value_of v.arg_t s.max_threads } in
    if is_zero v.arg_t s.max_threads
    then fails incorrect_value s
    else if not (is_positive s.max_threads)
    then fails threads_not_positive s
    else set_memory v.arg_m s

unfoldable pub args_parsing : List Text → Settings → Parsed
args_parsing (name ∷ []) s = record {
  status = pos 0;
  settings = record s { filename = name };
  message = none;
}
args_parsing (key ∷ value ∷ name ∷ []) s =
    if is_key key
    then set_values (with_key key value no_values) (record s { filename = name })
    else fails incorrect_key s
args_parsing (key ∷ value ∷ key' ∷ value' ∷ name ∷ []) s =
    if is_key key && is_key key'
    then set_values (with_key key' value' (with_key key value no_values))
        (record s { filename = name })
    else fails incorrect_key s
args_parsing args s = fails incorrect_number s
